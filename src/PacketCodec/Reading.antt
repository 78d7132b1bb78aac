-- ===== src/PacketCodec/Reading.antt =====
-- What `pktcodec_decode_host` reads of the values of one meter.
use opticon.Prelude.{
  take_short, ℕ, ◌^◌, ◌<◌, ◌≤◌, ◌≡◌, refl, sym, ap, ◌∙◌, subst, false, Option, some, List, [], ◌∷◌,
  ◌++◌, length, length-append, arith, ◌==◌, if◌then◌else◌, bit_and, take,
}
use opticon.Links.{Ptr, null}
use opticon.Links.Cells.{Cells}
use opticon.Links.Items.{load-at, set_item-IsList}
use opticon.Meter.{
  Meter, MeterData, words, texts, set_uint, set_str, at_least_one, mmask_type, mtype_int, mtype_str,
}
use opticon.Meter.Values.{set_uint-next, set_str-next}
use opticon.Host.{Host}
use opticon.Host.Lists.{IsHost}
use opticon.Ioport.{Methods, IoPort}
use opticon.Ioport.Stream.{Source}
use opticon.Ioport.Encint.Writing.{encoded}
use opticon.Ioport.Encint.Reading.{read_encint_lem}
use opticon.Ioport.Encint.Fuel.{read_encint-more}
use opticon.Ioport.Strings.{read_encstring}
use opticon.Ioport.Strings.RoundTrip.{Encoded, read_encstring-ReadBack}
use opticon.PacketCodec.{decoded, change_if, Decoder, read_value}

pub change_lem :
    (h : Host) (xs : Cells Meter) (p : Ptr) (v w : Meter) (ys : Cells Meter)
    (f : Meter → Option Meter)
    → IsHost h (xs ++ (p, v) ∷ ys)
    → f v ≡ some w
    → (h' : Host) × (change_if h p f ≡ some h')
      × IsHost h' (xs ++ (p, w) ∷ ys)
      × (h'.lastmodified ≡ h.lastmodified)
unfolding change_if
change_lem h xs p v w ys f i made =
    let (at, ne) = load-at h.heap h.meters xs p v ys i.list in
    let (heap, done, list, _) = set_item-IsList h.heap h.meters xs p v w ys i.list in
    let some_p : (p == null) ≡ false = ground arith in
    (
      record h { heap = heap },
      rw (at, some_p, made, done) refl,
      record {
        list = list;
        counted =
            omega
              (arith, i.counted, length-append xs ((p, v) ∷ ys), length-append xs ((p, w) ∷ ys));
      },
      refl,
    )

-- a meter that is being filled
abbrev pub filling : ℕ → ℕ → ℕ → MeterData → Meter
filling id count now d = record { id = id; count = count; d = d; lastmodified = now }

module _ {S : Type 0} (m : Methods S) (read_encfrac : IoPort S → ℕ × IoPort S)
    (source : Source m) where
  -- The host has these meters, and the port is left before these bytes.
  pub record Reads (s s' : Decoder S) (xs : Cells Meter) (rest : List ℕ) : Type 0 where
    pub host : IsHost s'.host xs
    pub ready : source.Ready s'.io.storage
    pub left : source.pending s'.io.storage ≡ rest
    pub time : s'.host.lastmodified ≡ s.host.lastmodified

  pub Reads-trans :
      (s s₁ s₂ : Decoder S) (xs : Cells Meter) (rest : List ℕ)
      → s₁.host.lastmodified ≡ s.host.lastmodified
      → Reads s₁ s₂ xs rest
      → Reads s s₂ xs rest
  Reads-trans s s₁ s₂ xs rest e r = record {
    host = r.host;
    ready = r.ready;
    left = r.left;
    time = r.time ∙ e;
  }

  module _ (walk mid : ℕ) (ys : Cells Meter) (p : Ptr) (id count : ℕ) where
    pub int_value :
        (s : Decoder S) (now : ℕ) (done : List ℕ) (old w : ℕ) (zs rest : List ℕ)
        → s.host.lastmodified ≡ now
        → IsHost s.host (ys ++ (p, filling id count now (words (done ++ old ∷ zs))) ∷ [])
        → bit_and id mmask_type ≡ mtype_int
        → bit_and mid mmask_type ≡ mtype_int
        → count < 30
        → length done < at_least_one count
        → w < 2 ^ 28
        → 4 ≤ walk
        → source.Ready s.io.storage
        → source.pending s.io.storage ≡ (if w == 0 then 0 ∷ [] else encoded w 4 false) ++ rest
        → (s' : Decoder S) × (read_value m read_encfrac walk s mid p (length done)
            ≡ some (decoded s'))
          × Reads s s' (ys ++ (p, filling id count now (words (done ++ w ∷ zs))) ∷ []) rest
    unfolding read_value
    int_value s now done old w zs rest time i type sent few low small enough ready view =
        let (back, got, ready', left) = read_encint_lem m source s.io w rest small ready view in
        let got' = read_encint-more m 4 walk s.io (w, back) enough got in
        let v = filling id count now (words (done ++ old ∷ zs)) in
        let made : set_uint now v (length done) w
            ≡ some (filling id count now (words (done ++ w ∷ zs))) =
          set_uint-next now v done old w zs few (rw type (refl)) low refl in
        let (h', done_write, i', time') =
          change_lem s.host ys p v (filling id count now (words (done ++ w ∷ zs))) []
            (λ v. set_uint now v (length done) w) i made in
        let changed =
          subst (λ n. change_if s.host p (λ v. set_uint n v (length done) w) ≡ some h') (sym time)
            done_write in
        (
          record s { io = back; host = h' },
          rw (sent, got', changed) refl,
          record { host = i'; ready = ready'; left = left; time = time' },
        )

    pub str_value :
        (s : Decoder S) (now : ℕ) (done : List (List ℕ)) (old t : List ℕ) (zs : List (List ℕ))
        (code rest : List ℕ)
        → s.host.lastmodified ≡ now
        → IsHost s.host (ys ++ (p, filling id count now (texts (done ++ old ∷ zs))) ∷ [])
        → bit_and id mmask_type ≡ mtype_str
        → bit_and mid mmask_type ≡ mtype_str
        → count < 30
        → length done < at_least_one count
        → length t ≤ 127
        → source.Ready s.io.storage
        → Encoded t code
        → source.pending s.io.storage ≡ code ++ rest
        → (s' : Decoder S) × (read_value m read_encfrac walk s mid p (length done)
            ≡ some (decoded s'))
          × Reads s s' (ys ++ (p, filling id count now (texts (done ++ t ∷ zs))) ∷ []) rest
    unfolding read_value
    str_value s now done old t zs code rest time i type sent few low short ready coded view =
        let back = read_encstring-ReadBack m source s.io t code rest ready short coded view in
        let io' = (read_encstring m s.io).1 in
        let v = filling id count now (texts (done ++ old ∷ zs)) in
        let whole : take 127 t ≡ t = take_short 127 t short in
        let made : set_str now v (length done) t
            ≡ some (filling id count now (texts (done ++ t ∷ zs))) =
          set_str-next now v done old t zs few (rw type (refl)) low refl
          ∙ ap (λ u. some (filling id count now (texts (done ++ u ∷ zs)))) whole in
        let (h', done_write, i', time') =
          change_lem s.host ys p v (filling id count now (texts (done ++ t ∷ zs))) []
            (λ v. set_str now v (length done) t) i made in
        let changed =
          subst (λ n. change_if s.host p (λ v. set_str n v (length done) t) ≡ some h') (sym time)
            done_write in
        (
          record s { io = io'; host = h'; strbuf = t },
          rw (sent, back.string, changed) refl,
          record { host = i'; ready = back.ready; left = back.left; time = time' },
        )
