-- ===== src/PacketCodec/RoundTrip.antt =====
-- The meters of a host through a packet, over any storage.
use opticon.Prelude.{
  ℕ, ◌+◌, ◌<◌, ◌≤◌, ◌≡◌, ◌≢◌, refl, sym, ap, ◌∙◌, subst, false, some, List, [], ◌∷◌, ◌++◌,
  append-nil, append_assoc, length, length-append, Each, arith, ◌==◌, Bool,
}
use opticon.Links.{Ptr, null}
use opticon.Links.Cells.{Cells, has, has-append}
use opticon.Meter.{Meter}
use opticon.MeterId.{idgetprefix}
use opticon.Host.{has_name}
use opticon.Host.Lists.{IsHost, Nowhere}
use opticon.Ioport.{Methods, IoPort}
use opticon.Ioport.Stream.{Source}
use opticon.Ioport.Uuids.{octets, read_u64}
use opticon.Ioport.Uuids.Words.{read_u64_lem}
use opticon.PacketCodec.{decoded, Decoder, decode_host}
use opticon.PacketCodec.Values.{mid_of, mid_range}
use opticon.PacketCodec.Writing.{HostCode, AllSendable}
use opticon.PacketCodec.Decoding.{IsFresh, decode_meter_lem}

-- A meter that comes later has neither the name of this one nor a prefix that is its name.
abbrev pub IsApart : Meter → Cells Meter → Type 0
IsApart v [] = Unit
IsApart v ((q, w) ∷ xs) =
    (has_name (mid_of w) v ≡ false) × (has_name (idgetprefix (mid_of w)) v ≡ false) × IsApart v xs

abbrev pub AllApart : Cells Meter → Type 0
AllApart [] = Unit
AllApart ((p, v) ∷ xs) = IsApart v xs × AllApart xs

-- Addresses that are not `NULL`, no two the same.
abbrev pub IsPlaces : List Ptr → Type 0
IsPlaces [] = Unit
IsPlaces (p ∷ ps) = (p ≢ null) × Each (λ q. (q == p) ≡ false) ps × IsPlaces ps

-- The meters as they arrive, each at its new place.
abbrev pub arrived : ℕ → Cells Meter → List Ptr → Cells Meter
arrived now [] places = []
arrived now ((q, v) ∷ xs) [] = []
arrived now ((q, v) ∷ xs) (p ∷ places) =
    (p, record v { lastmodified = now }) ∷ arrived now xs places

-- what is still to come, beside what the host has
abbrev AllFresh : Cells Meter → Cells Meter → Type 0
AllFresh ys [] = Unit
AllFresh ys ((q, w) ∷ xs) = IsFresh w ys × AllFresh ys xs

Nowhere-snoc :
    (test : Meter → Bool) (ys : Cells Meter) (p : Ptr) (v : Meter)
    → Nowhere test ys
    → test v ≡ false
    → Nowhere test (ys ++ (p, v) ∷ [])
Nowhere-snoc test [] p v all e = (e, tt)
Nowhere-snoc test ((q, w) ∷ ys) p v (k, all) e = (k, Nowhere-snoc test ys p v all e)

AllFresh-snoc :
    (ys : Cells Meter) (p : Ptr) (v : Meter) (now : ℕ) (xs : Cells Meter)
    → AllFresh ys xs
    → IsApart v xs
    → AllFresh (ys ++ (p, record v { lastmodified = now }) ∷ []) xs
AllFresh-snoc ys p v now [] fresh apart = tt
AllFresh-snoc ys p v now ((q, w) ∷ xs) (f, fresh) (name, parent, apart) = (
  record {
    name = Nowhere-snoc (has_name (mid_of w)) ys p (record v { lastmodified = now }) f.name name;
    parent =
        Nowhere-snoc (has_name (idgetprefix (mid_of w))) ys p (record v { lastmodified = now })
          f.parent parent;
  },
  AllFresh-snoc ys p v now xs fresh apart,
)

pub AllFresh-nil : (xs : Cells Meter) → AllFresh [] xs
AllFresh-nil [] = tt
AllFresh-nil ((q, w) ∷ xs) = (record { name = tt; parent = tt }, AllFresh-nil xs)

outside-snoc :
    (ys : Cells Meter) (p : Ptr) (v : Meter) (places : List Ptr)
    → Each (λ q. has q ys ≡ false) places
    → Each (λ q. (q == p) ≡ false) places
    → Each (λ q. has q (ys ++ (p, v) ∷ []) ≡ false) places
outside-snoc ys p v [] out ne = tt
outside-snoc ys p v (q ∷ places) (o, out) (e, ne) =
    (ground (arith, has-append q ys ((p, v) ∷ [])), outside-snoc ys p v places out ne)

module _ {S : Type 0} (m : Methods S) (read_encfrac : IoPort S → ℕ × IoPort S) (source : Source m)
    (walk max_meters : ℕ) where
  -- at the end of the packet, where a word is read as 0
  abbrev pub IsEnd : List ℕ → Type 0
  IsEnd rest =
      (io : IoPort S)
      → source.Ready io.storage
      → source.pending io.storage ≡ rest
      → (read_u64 m io).0 ≡ 0

  pub decode_host_lem :
      (xs ys : Cells Meter) (places : List Ptr) (s : Decoder S) (bytes rest : List ℕ)
      → IsEnd rest
      → AllSendable xs
      → AllApart xs
      → AllFresh ys xs
      → IsHost s.host ys
      → IsPlaces places
      → Each (λ q. has q ys ≡ false) places
      → length xs < length places
      → length ys + length xs < walk
      → length ys + length xs ≤ max_meters + 1
      → 4 ≤ walk
      → source.Ready s.io.storage
      → HostCode xs bytes
      → source.pending s.io.storage ≡ bytes ++ rest
      → (s' : Decoder S) × (decode_host m read_encfrac walk max_meters places s ≡ some (decoded s'))
        × IsHost s'.host (ys ++ arrived s.host.lastmodified xs places)
  unfolding decode_host
  decode_host_lem xs ys [] s bytes rest ends send apart fresh i ok out many f room enough ready
        coded view =
      absurd (omega arith)
  decode_host_lem [] ys (p ∷ places) s bytes rest ends send apart fresh i ok out many f room enough
        ready coded view =
      let done = ends s.io ready (view ∙ ap (λ t. t ++ rest) coded) in
      (
        record s { io = (read_u64 m s.io).1 },
        rw done refl,
        subst (IsHost s.host) (sym (append-nil ys)) i,
      )
  decode_host_lem ((q, v) ∷ xs) ys (p ∷ places) s bytes rest ends (sv, send) (av, apart) (fv, fresh)
        i (p_ne, others, ok) (p_out, out) many f room enough ready (code, after, split, coded, more)
        view =
      let (low, high) = mid_range v sv in
      let now = s.host.lastmodified in
      let at : source.pending s.io.storage ≡ octets (mid_of v) ++ (code ++ (after ++ rest)) =
        view
        ∙ ap (λ b. b ++ rest) split
        ∙ append_assoc (octets (mid_of v)) (code ++ after) rest
        ∙ ap (λ b. octets (mid_of v) ++ b) (append_assoc code after rest) in
      let (io₁, got, ready₁, left₁) =
        read_u64_lem m source s.io (mid_of v) (code ++ (after ++ rest)) high ready at in
      let some_id : (mid_of v == 0) ≡ false = ground (arith, low) in
      let s₁ : Decoder S = record s { io = io₁ } in
      let (s₂, done, r) =
        decode_meter_lem m read_encfrac source walk s₁ ys max_meters p v code (after ++ rest) sv fv
          i (record { address = p_ne; outside = p_out }) (omega arith) (omega arith) enough ready₁
          coded left₁ in
      let v' : Meter = record v { lastmodified = now } in
      let bound = length-append ys ((p, v') ∷ []) in
      let (s₃, done₃, i₃) =
        decode_host_lem xs (ys ++ (p, v') ∷ []) places s₂ after rest ends send apart
          (AllFresh-snoc ys p v now xs fresh av) r.host ok (outside-snoc ys p v' places out others)
          (omega arith) (omega (arith, bound)) (omega (arith, bound)) enough r.ready more r.left in
      (
        s₃,
        rw (got, some_id, done) done₃,
        subst (IsHost s₃.host)
            (ap (λ (n : ℕ). (ys ++ (p, v') ∷ []) ++ arrived n xs places) r.time
              ∙ append_assoc ys ((p, v') ∷ []) (arrived now xs places))
            i₃,
      )
