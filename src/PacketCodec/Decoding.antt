-- ===== src/PacketCodec/Decoding.antt =====
-- One round of `pktcodec_decode_host`, for a meter that the host does not have.
use opticon.Prelude.{
  ℕ, zero, suc, ◌*◌, ◌^◌, ◌<◌, ◌≤◌, ◌≡◌, ◌≢◌, refl, sym, ap, ◌∙◌, subst, true, false, ◌&&◌, not,
  some, ◌>>=◌, List, [], ◌∷◌, ◌++◌, length, arith, leb, ◌==◌, if◌then◌else◌, bit_and, replicate,
  Bool-cases, inl, inr,
}
use opticon.Links.{Ptr, null}
use opticon.Links.Cells.{Cells}
use opticon.MeterId.{mmask_name, idgetprefix}
use opticon.Meter.{
  Meter, MeterData, no_data, words, texts, setcount, at_least_one, mmask_type, sz_empty_array,
}
use opticon.Meter.Values.{setcount-int, setcount-str, setcount-empty}
use opticon.Host.{Host, mmask_id, fresh, has_name, is_taken, find_meter_name}
use opticon.Host.Lists.{IsHost, Nowhere, find_cell-Nowhere, first_where-IsList}
use opticon.Links.Append.{IsNew}
use opticon.Host.Adding.{HasAdded, get_meter-adds}
use opticon.Ioport.{Methods, IoPort}
use opticon.Ioport.Stream.{Source}
use opticon.PacketCodec.{
  decoded, Decoder, retyped, read_values, clear_prefix, delete_named, meter_for, decode_meter,
}
use opticon.PacketCodec.Values.{
  Content, IsSendable, ValuesCode, mid_of, mid_count, mid_id, mid_type, id_type, mid_name, id_name,
  retyped-id,
}
use opticon.PacketCodec.Reading.{filling, change_lem, Reads}
use opticon.PacketCodec.Loops.{read_ints, read_texts}

-- No meter of the host has the name of this one, or that of its prefix.
pub record IsFresh (v : Meter) (ys : Cells Meter) : Type 0 where
  pub name : Nowhere (has_name (mid_of v)) ys
  pub parent : Nowhere (has_name (idgetprefix (mid_of v))) ys

find-Nowhere :
    (h : Host) (ys : Cells Meter) (walk id : ℕ)
    → IsHost h ys
    → length ys < walk
    → Nowhere (has_name id) ys
    → find_meter_name walk h id ≡ some null
unfolding find_meter_name
find-Nowhere h ys walk id i f nowhere =
    first_where-IsList (has_name id) h ys walk i f
    ∙ ap some (find_cell-Nowhere (has_name id) ys nowhere)

Nowhere-is_taken :
    (v : Meter) (s : IsSendable v) (ys : Cells Meter)
    → Nowhere (has_name (mid_of v)) ys
    → Nowhere (is_taken (bit_and (mid_of v) mmask_id)) ys
Nowhere-is_taken v s [] all = tt
Nowhere-is_taken v s ((p, m) ∷ ys) (e, all) = (other, Nowhere-is_taken v s ys all)
  where
    same_name : bit_and v.id mmask_name ≡ bit_and (mid_of v) mmask_name
    same_name = id_name v s ∙ sym (mid_name v s)

    other_id : m.id ≢ v.id
    other_id k =
        let n : bit_and m.id mmask_name ≡ bit_and (mid_of v) mmask_name =
          ap (λ (t : ℕ). bit_and t mmask_name) k ∙ same_name in
        ground (arith, e, n)

    other : is_taken (bit_and (mid_of v) mmask_id) m ≡ false
    other =
        let a : (m.id == v.id) ≡ false = ground (arith, other_id) in
        let b : (bit_and m.id mmask_name == bit_and v.id mmask_name) ≡ false =
          ap (λ (t : ℕ). bit_and m.id mmask_name == t) same_name ∙ e in
        rw (mid_id v s, a, b) refl

-- the block that a meter gets before its values come
abbrev blank_data : ℕ → MeterData → MeterData
blank_data count no_data = no_data
blank_data count (words ws) = words (replicate (at_least_one count) 0)
blank_data count (texts ts) = texts (replicate (at_least_one count) [])

set_up :
    (v : Meter) (s : IsSendable v) (now : ℕ) (type : ℕ) (d : MeterData)
    → Content type v.count d
    → bit_and v.id mmask_type ≡ type * 2 ^ 62
    → setcount now (fresh v.id) v.count ≡ some (filling v.id v.count now (blank_data v.count d))
set_up v s now type no_data empty kind = setcount-empty now (fresh v.id) v.count empty
set_up v s now type (words ws) (int, few, _, _) kind =
    setcount-int now (fresh v.id) v.count few (kind ∙ ap (λ (t : ℕ). t * 2 ^ 62) int)
set_up v s now type (texts ts) (str, few, _, _) kind =
    setcount-str now (fresh v.id) v.count few (kind ∙ ap (λ (t : ℕ). t * 2 ^ 62) str)

module _ {S : Type 0} (m : Methods S) (read_encfrac : IoPort S → ℕ × IoPort S) (walk : ℕ) where
  pub clear_prefix_lem :
      (s : Decoder S) (ys : Cells Meter) (mid : ℕ)
      → IsHost s.host ys
      → length ys < walk
      → Nowhere (has_name (idgetprefix mid)) ys
      → (l : ℕ) × (clear_prefix m read_encfrac walk s mid ≡ some (record s { lastpfx = l }))
  unfolding clear_prefix delete_named
  clear_prefix_lem s ys mid i f parent =
      let pfx = idgetprefix mid in
      elim (Bool-cases (not (pfx == 0) && not (pfx == s.lastpfx))) [
        | inl e ↦ (
          pfx,
          rw
              (
                e,
                find-Nowhere s.host ys walk pfx i f parent,
                none_named walk s.host pfx s.strbuf (omega arith),
              )
              refl,
        )
        | inr e ↦ (s.lastpfx, rw e refl)
      ]
    where
      none_named :
          (walk : ℕ) (h : Host) (pfx : ℕ) (strbuf : List ℕ)
          → 0 < walk
          → delete_named walk walk h pfx null strbuf ≡ some (h, strbuf)
      none_named zero h pfx strbuf f = absurd (omega arith)
      none_named (suc walk) h pfx strbuf f = refl

module _ {S : Type 0} (m : Methods S) (read_encfrac : IoPort S → ℕ × IoPort S) (source : Source m)
    (walk : ℕ) where
  meter_for_lem :
      (h : Host) (ys : Cells Meter) (max_meters : ℕ) (p : Ptr) (v : Meter)
      → IsSendable v
      → IsFresh v ys
      → IsHost h ys
      → IsNew p ys
      → length ys < walk
      → length ys ≤ max_meters
      → (h' : Host) × (meter_for m read_encfrac walk max_meters p h (mid_of v) ≡ some (p, h'))
        × HasAdded h h' ys p (fresh v.id)
  unfolding meter_for
  meter_for_lem h ys max_meters p v s new i place f room =
      let (h', got, added) =
        get_meter-adds h ys walk p (mid_of v) i place (Nowhere-is_taken v s ys new.name) f in
      let fits : leb h.mcount max_meters ≡ true = ground (arith, i.counted) in
      (
        h',
        rw (find-Nowhere h ys walk (mid_of v) i f new.name, fits) got,
        subst (λ (t : ℕ). HasAdded h h' ys p (fresh t)) (mid_id v s) added,
      )

  read_block :
      (s : Decoder S) (v : Meter) (mid : ℕ) (ys : Cells Meter) (p : Ptr) (now type : ℕ)
      (d : MeterData) (bytes rest : List ℕ)
      → s.host.lastmodified ≡ now
      → IsHost s.host (ys ++ (p, filling v.id v.count now (blank_data v.count d)) ∷ [])
      → bit_and v.id mmask_type ≡ type * 2 ^ 62
      → bit_and mid mmask_type ≡ type * 2 ^ 62
      → Content type v.count d
      → 4 ≤ walk
      → source.Ready s.io.storage
      → ValuesCode d bytes
      → source.pending s.io.storage ≡ bytes ++ rest
      → (s' : Decoder S) × ((if leb 30 (at_least_one v.count)
            then some (decoded s)
            else read_values m read_encfrac walk (at_least_one v.count) s mid p 0)
          ≡ some (decoded s'))
        × Reads m read_encfrac source s s' (ys ++ (p, filling v.id v.count now d) ∷ []) rest
  read_block s v mid ys p now type no_data bytes rest time i kind sent empty enough ready coded
        view =
      (
        s,
        rw empty refl,
        record { host = i; ready = ready; left = view ∙ ap (λ t. t ++ rest) coded; time = refl },
      )
  read_block s v mid ys p now type (words ws) bytes rest time i kind sent (int, few, all, small)
        enough ready coded view =
      let int_type = ap (λ (t : ℕ). t * 2 ^ 62) int in
      let more : leb 30 (at_least_one v.count) ≡ false = ground arith in
      let (s', got, r) =
        read_ints m read_encfrac source walk mid ys p v.id v.count now s [] ws rest time
          (subst
            (λ (n : ℕ).
              IsHost s.host (ys ++ (p, filling v.id v.count now (words (replicate n 0))) ∷ []))
            (sym all) i)
          (kind ∙ int_type) (sent ∙ int_type) few (omega arith) small enough ready
          (view ∙ ap (λ t. t ++ rest) coded) in
      (s', rw (more, ← all) got, r)
  read_block s v mid ys p now type (texts ts) bytes rest time i kind sent (str, few, all, short)
        enough ready coded view =
      let str_type = ap (λ (t : ℕ). t * 2 ^ 62) str in
      let more : leb 30 (at_least_one v.count) ≡ false = ground arith in
      let (s', got, r) =
        read_texts m read_encfrac source walk mid ys p v.id v.count now s [] ts bytes rest time
          (subst
            (λ (n : ℕ).
              IsHost s.host (ys ++ (p, filling v.id v.count now (texts (replicate n []))) ∷ []))
            (sym all) i)
          (kind ∙ str_type) (sent ∙ str_type) few (omega arith) short ready coded view in
      (s', rw (more, ← all) got, r)

  -- The round reads the values, and the host has the meter as it was sent, updated now.
  pub decode_meter_lem :
      (s : Decoder S) (ys : Cells Meter) (max_meters : ℕ) (p : Ptr) (v : Meter)
      (bytes rest : List ℕ)
      → IsSendable v
      → IsFresh v ys
      → IsHost s.host ys
      → IsNew p ys
      → length ys < walk
      → length ys ≤ max_meters
      → 4 ≤ walk
      → source.Ready s.io.storage
      → ValuesCode v.d bytes
      → source.pending s.io.storage ≡ bytes ++ rest
      → (s' : Decoder S) × (decode_meter m read_encfrac walk max_meters p s (mid_of v)
          ≡ some (decoded s'))
        × Reads m read_encfrac source s s'
            (ys ++ (p, record v { lastmodified = s.host.lastmodified }) ∷ [])
            rest
  unfolding decode_meter
  decode_meter_lem s ys max_meters p v bytes rest sendable new i place f room enough ready coded
        view =
      let mid = mid_of v in
      let now = s.host.lastmodified in
      let type = sendable.type in
      let not_all : (v.count == sz_empty_array) ≡ false = ground (arith, sendable.count) in
      let (l, cleared) = clear_prefix_lem m read_encfrac walk s ys mid i f new.parent in
      let (h1, found, added) = meter_for_lem s.host ys max_meters p v sendable new i place f room in
      let kind = id_type v sendable in
      let made : (do v' ← setcount h1.lastmodified (fresh v.id) v.count; some (retyped mid v'))
          ≡ some (filling v.id v.count now (blank_data v.count v.d)) =
        rw (added.lastmodified, set_up v sendable now type v.d sendable.content kind)
          (ap (λ (t : ℕ). some (filling t v.count now (blank_data v.count v.d)))
            (retyped-id v sendable)) in
      let (h2, changed, i2, time2) =
        change_lem h1 ys p (fresh v.id) (filling v.id v.count now (blank_data v.count v.d)) []
          (λ (u : Meter). do v' ← setcount h1.lastmodified u v.count; some (retyped mid v'))
          added.list made in
      let time : h2.lastmodified ≡ now = time2 ∙ added.lastmodified in
      let s2 : Decoder S = record s { host = h2; lastpfx = l } in
      let (s', got, r) =
        read_block s2 v mid ys p now type v.d bytes rest time i2 kind (mid_type v sendable)
          sendable.content enough ready coded view in
      (
        s',
        rw (mid_count v sendable, not_all, cleared, found, changed) got,
        record { host = r.host; ready = r.ready; left = r.left; time = r.time ∙ time },
      )
