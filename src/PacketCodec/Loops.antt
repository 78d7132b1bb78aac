-- ===== src/PacketCodec/Loops.antt =====
-- The loop of `pktcodec_decode_host` over the values of a meter.
use opticon.Prelude.{
  false, ℕ, ◌+◌, ◌^◌, ◌<◌, ◌≤◌, ◌≡◌, refl, sym, ap, ◌∙◌, subst, some, List, [], ◌∷◌, ◌++◌,
  append_assoc, length, length-append, Each, arith, ◌==◌, if◌then◌else◌, bit_and, replicate,
}
use opticon.Links.{Ptr}
use opticon.Links.Cells.{Cells}
use opticon.Meter.{Meter, MeterData, words, texts, at_least_one, mmask_type, mtype_int, mtype_str}
use opticon.Host.Lists.{IsHost}
use opticon.Ioport.{Methods, IoPort}
use opticon.Ioport.Stream.{Source}
use opticon.Ioport.Encint.Writing.{encoded}
use opticon.PacketCodec.{decoded, Decoder, read_values}
use opticon.PacketCodec.Values.{IsShortText, int_bytes, TextsCode}
use opticon.PacketCodec.Reading.{filling, Reads, Reads-trans, int_value, str_value}

module _ {S : Type 0} (m : Methods S) (read_encfrac : IoPort S → ℕ × IoPort S) (source : Source m)
    (walk mid : ℕ) (ys : Cells Meter) (p : Ptr) (id count now : ℕ) where
  abbrev with_data : MeterData → Cells Meter
  with_data d = ys ++ (p, filling id count now d) ∷ []

  pub read_ints :
      (s : Decoder S) (done ws rest : List ℕ)
      → s.host.lastmodified ≡ now
      → IsHost s.host (with_data (words (done ++ replicate (length ws) 0)))
      → bit_and id mmask_type ≡ mtype_int
      → bit_and mid mmask_type ≡ mtype_int
      → count < 30
      → length done + length ws ≡ at_least_one count
      → Each (λ w. w < 2 ^ 28) ws
      → 4 ≤ walk
      → source.Ready s.io.storage
      → source.pending s.io.storage ≡ int_bytes ws ++ rest
      → (s' : Decoder S) × (read_values m read_encfrac walk (length ws) s mid p (length done)
          ≡ some (decoded s'))
        × Reads m read_encfrac source s s' (with_data (words (done ++ ws))) rest
  unfolding read_values
  read_ints s done [] rest time i type sent few all small enough ready view =
      (s, refl, record { host = i; ready = ready; left = view; time = refl })
  read_ints s done (w ∷ ws) rest time i type sent few all (low, small) enough ready view =
      let code : List ℕ = if w == 0 then 0 ∷ [] else encoded w 4 false in
      let (s₁, got, r) =
        int_value m read_encfrac source walk mid ys p id count s now done 0 w
          (replicate (length ws) 0) (int_bytes ws ++ rest) time i type sent few (omega arith) low
          enough ready (view ∙ append_assoc code (int_bytes ws) rest) in
      let one_more = append_assoc done (w ∷ []) (replicate (length ws) 0) in
      let (s₂, got₂, r₂) =
        read_ints s₁ (done ++ w ∷ []) ws rest (r.time ∙ time)
          (subst (λ t. IsHost s₁.host (with_data (words t))) (sym one_more) r.host) type sent few
          (omega (arith, length-append done (w ∷ []))) small enough r.ready r.left in
      let place : length (done ++ w ∷ []) ≡ length done + 1 =
        omega (arith, length-append done (w ∷ [])) in
      (
        s₂,
        rw (got, ← place) got₂,
        Reads-trans m read_encfrac source s s₁ s₂ (with_data (words (done ++ w ∷ ws))) rest r.time (
            subst (λ t. Reads m read_encfrac source s₁ s₂ (with_data (words t)) rest)
              (append_assoc done (w ∷ []) ws) r₂),
      )

  pub read_texts :
      (s : Decoder S) (done ts : List (List ℕ)) (bytes rest : List ℕ)
      → s.host.lastmodified ≡ now
      → IsHost s.host (with_data (texts (done ++ replicate (length ts) [])))
      → bit_and id mmask_type ≡ mtype_str
      → bit_and mid mmask_type ≡ mtype_str
      → count < 30
      → length done + length ts ≡ at_least_one count
      → Each IsShortText ts
      → source.Ready s.io.storage
      → TextsCode ts bytes
      → source.pending s.io.storage ≡ bytes ++ rest
      → (s' : Decoder S) × (read_values m read_encfrac walk (length ts) s mid p (length done)
          ≡ some (decoded s'))
        × Reads m read_encfrac source s s' (with_data (texts (done ++ ts))) rest
  unfolding read_values
  read_texts s done [] bytes rest time i type sent few all short ready coded view = (
    s,
    refl,
    record { host = i; ready = ready; left = view ∙ ap (λ t. t ++ rest) coded; time = refl },
  )
  read_texts s done (t ∷ ts) bytes rest time i type sent few all ((low, _), short) ready
        (code, after, split, encoded, coded) view =
      let (s₁, got, r) =
        str_value m read_encfrac source walk mid ys p id count s now done [] t
          (replicate (length ts) []) code (after ++ rest) time i type sent few (omega arith) low
          ready encoded (view ∙ ap (λ b. b ++ rest) split ∙ append_assoc code after rest) in
      let one_more = append_assoc done (t ∷ []) (replicate (length ts) []) in
      let (s₂, got₂, r₂) =
        read_texts s₁ (done ++ t ∷ []) ts after rest (r.time ∙ time)
          (subst (λ l. IsHost s₁.host (with_data (texts l))) (sym one_more) r.host) type sent few
          (omega (arith, length-append done (t ∷ []))) short r.ready coded r.left in
      let place : length (done ++ t ∷ []) ≡ length done + 1 =
        omega (arith, length-append done (t ∷ [])) in
      (
        s₂,
        rw (got, ← place) got₂,
        Reads-trans m read_encfrac source s s₁ s₂ (with_data (texts (done ++ t ∷ ts))) rest r.time (
            subst (λ l. Reads m read_encfrac source s₁ s₂ (with_data (texts l)) rest)
              (append_assoc done (t ∷ []) ts) r₂),
      )
