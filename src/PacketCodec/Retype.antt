-- ===== src/PacketCodec/Retype.antt =====
-- A meter that arrives as a text where the host has an integer.
use opticon.Prelude.{
  ℕ, zero, suc, ◌+◌, ◌*◌, ◌/◌, ◌%◌, ◌^◌, ◌<◌, ◌≡◌, refl, ap, ap₂, ◌∙◌, Bool, true, false, Option,
  none, some, ◌>>=◌, List, [], ◌∷◌, ◌++◌, length, arith, leb, ◌==◌, bit_and, bit_or, replicate,
}
use opticon.Prelude.Bits.{bit_or-add, bit_or_comm, bit_and_ones, bit_and_shifted}
use opticon.Links.{Ptr, null}
use opticon.Links.Cells.{Cells}
use opticon.Links.Walk.{find_cell}
use opticon.Links.Items.{load-at}
use opticon.MeterId.{idgetprefix}
use opticon.Meter.{
  Meter, words, setcount, set_str, at_least_one, mmask_type, mmask_count, mtype_int, mtype_str,
  sz_empty_array,
}
use opticon.Meter.Values.{setcount-int, set_str-overflow}
use opticon.Host.{Host, has_name, find_meter_name}
use opticon.Host.Lists.{IsHost, Nowhere, first_where-IsList}
use opticon.Ioport.{Methods, IoPort}
use opticon.Ioport.Strings.{read_encstring}
use opticon.PacketCodec.{
  Decoder, change_if, retyped, read_value, read_values, meter_for, decode_meter, text_or,
}
use opticon.PacketCodec.Reading.{filling, change_lem}
use opticon.PacketCodec.Decoding.{clear_prefix_lem}

find_cell-at :
    (test : Meter → Bool) (xs : Cells Meter) (p : Ptr) (v : Meter) (ys : Cells Meter)
    → Nowhere test xs
    → test v ≡ true
    → find_cell test (xs ++ (p, v) ∷ ys) ≡ p
find_cell-at test [] p v ys all e = rw e refl
find_cell-at test ((q, w) ∷ xs) p v ys (k, all) e = rw k (find_cell-at test xs p v ys all e)

retyped-str :
    (mid : ℕ) (v : Meter)
    → bit_and mid mmask_type ≡ mtype_str
    → bit_and (retyped mid v).id mmask_type ≡ mtype_str
retyped-str mid v sent =
    let low = v.id % 2 ^ 62 in
    let joined : (retyped mid v).id ≡ 2 * 2 ^ 62 + low =
      ap₂ bit_or (bit_and_ones 62 v.id) sent
      ∙ bit_or_comm low (2 * 2 ^ 62)
      ∙ bit_or-add 62 2 low (omega arith) in
    ap (λ (t : ℕ). bit_and t mmask_type) joined
    ∙ bit_and_shifted 62 (2 * 2 ^ 62 + low) 3
    ∙ ap (λ (t : ℕ). t * 2 ^ 62) (bit_and_ones 2 ((2 * 2 ^ 62 + low) / 2 ^ 62))
    ∙ omega arith

change-none :
    (h : Host) (xs : Cells Meter) (p : Ptr) (v : Meter) (ys : Cells Meter)
    (f : Meter → Option Meter)
    → IsHost h (xs ++ (p, v) ∷ ys)
    → f v ≡ none
    → change_if h p f ≡ none
unfolding change_if
change-none h xs p v ys f i failed =
    let (at, ne) = load-at h.heap h.meters xs p v ys i.list in
    let some_p : (p == null) ≡ false = ground arith in rw (at, some_p, failed) refl

module _ {S : Type 0} (m : Methods S) (read_encfrac : IoPort S → ℕ × IoPort S) (walk : ℕ) where
  read_values-faults :
      (n : ℕ) (s : Decoder S) (mid : ℕ) (xs : Cells Meter) (p : Ptr) (v : Meter) (ys : Cells Meter)
      → IsHost s.host (xs ++ (p, v) ∷ ys)
      → bit_and mid mmask_type ≡ mtype_str
      → 0 < n
      → ((now : ℕ) (text : List ℕ) → set_str now v 0 text ≡ none)
      → read_values m read_encfrac walk n s mid p 0 ≡ none
  unfolding read_values read_value
  read_values-faults zero s mid xs p v ys i sent pos fault = absurd (omega arith)
  read_values-faults (suc n) s mid xs p v ys i sent pos fault =
      let now = s.host.lastmodified in
      let text = text_or m read_encfrac s.strbuf (read_encstring m s.io).0 in
      let failed = change-none s.host xs p v ys (λ u. set_str now u 0 text) i (fault now text) in
      rw (sent, failed) refl

  -- What a round leaves of a meter before it writes the texts: the type of texts, and a block of
  -- eight bytes for each of them.
  pub record IsShort (s2 : Decoder S) (mid : ℕ) (xs : Cells Meter) (p : Ptr) (ys : Cells Meter)
      : Type 0 where
    pub target : Meter
    pub host : IsHost s2.host (xs ++ (p, target) ∷ ys)
    pub type : bit_and target.id mmask_type ≡ mtype_str
    pub block : target.d ≡ words (replicate (at_least_one (bit_and mid mmask_count)) 0)

  -- A host has an integer meter, and a packet brings a text of at most 15 elements under its name.
  -- The round allocates a block of eight bytes for each element, before it changes the type, and goes
  -- on to write the texts to it: writing the first, which has 128 bytes, runs past the end of the
  -- block. The packet is not refused.
  pub decode_meter-overflows :
      (s : Decoder S) (max_meters : ℕ) (place : Ptr) (mid : ℕ) (xs : Cells Meter) (p : Ptr)
      (v : Meter) (ys : Cells Meter)
      → IsHost s.host (xs ++ (p, v) ∷ ys)
      → length (xs ++ (p, v) ∷ ys) < walk
      → Nowhere (has_name (idgetprefix mid)) (xs ++ (p, v) ∷ ys)
      → Nowhere (has_name mid) xs
      → has_name mid v ≡ true
      → bit_and v.id mmask_type ≡ mtype_int
      → bit_and mid mmask_type ≡ mtype_str
      → bit_and mid mmask_count < 16
      → (s2 : Decoder S) × (decode_meter m read_encfrac walk max_meters place s mid
          ≡ read_values m read_encfrac walk (at_least_one (bit_and mid mmask_count)) s2 mid p 0)
        × IsShort s2 mid xs p ys
        × (decode_meter m read_encfrac walk max_meters place s mid ≡ none)
  unfolding decode_meter meter_for find_meter_name
  decode_meter-overflows s max_meters place mid xs p v ys i f parent before named int str few =
      let h = s.host in
      let all = xs ++ (p, v) ∷ ys in
      let count = bit_and mid mmask_count in
      let now = h.lastmodified in
      let not_all : (count == sz_empty_array) ≡ false = ground arith in
      let (l, cleared) = clear_prefix_lem m read_encfrac walk s all mid i f parent in
      let (_, ne) = load-at h.heap h.meters xs p v ys i.list in
      let some_p : (p == null) ≡ false = ground arith in
      let found =
        first_where-IsList (has_name mid) h all walk i f
        ∙ ap some (find_cell-at (has_name mid) xs p v ys before named) in
      let w = filling v.id count now (words (replicate (at_least_one count) 0)) in
      let made : (do v' ← setcount now v count; some (retyped mid v')) ≡ some (retyped mid w) =
        rw (setcount-int now v count (omega arith) int) refl in
      let (h2, changed, i2, _) =
        change_lem h xs p v (retyped mid w) ys
          (λ (u : Meter). do v' ← setcount now u count; some (retyped mid v')) i made in
      let more : leb 30 (at_least_one count) ≡ false = ground arith in
      let fails =
        read_values-faults (at_least_one count) (record s { host = h2; lastpfx = l }) mid xs p
          (retyped mid w) ys i2 str (ground arith)
          (λ t text.
            set_str-overflow t (retyped mid w) (at_least_one count) text (omega arith)
              (retyped-str mid w str) (ground arith) refl) in
      let s2 : Decoder S = record s { host = h2; lastpfx = l } in
      let goes : decode_meter m read_encfrac walk max_meters place s mid
          ≡ read_values m read_encfrac walk (at_least_one count) s2 mid p 0 =
        rw (not_all, cleared, found, some_p, changed, more) refl in
      let target = retyped mid w in
      let str_type = retyped-str mid w str in
      (s2, goes, record { target = target; host = i2; type = str_type; block = refl }, goes ∙ fails)
