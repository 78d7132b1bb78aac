-- ===== src/PacketCodec/Writing.antt =====
-- What `pktcodec_encode_host` sends.
use opticon.Prelude.{
  ℕ, zero, suc, ◌+◌, ◌*◌, ◌^◌, ◌<◌, ◌≡◌, refl, sym, ap, ◌∙◌, subst, true, false, Option, some, List,
  [], ◌∷◌, ◌++◌, append-nil, append_assoc, length, length-append, Each, arith, ◌==◌, ltb,
  if◌then◌else◌, bit_and,
}
use opticon.Links.{Ptr, null, Heap}
use opticon.Links.Cells.{Cells, head_or}
use opticon.Links.Segments.{Seg}
use opticon.Meter.{
  Meter, MeterData, no_data, words, texts, element, as_words, as_texts, at_least_one, mmask_type,
  mtype_str,
}
use opticon.Host.{Host}
use opticon.Host.Lists.{IsHost}
use opticon.Ioport.{Methods, IoPort}
use opticon.Ioport.Stream.{Sink}
use opticon.Ioport.Flush.{IsIdle, write_lem}
use opticon.Ioport.Encint.Writing.{write_encint_lem, encoded}
use opticon.Ioport.Encint.{write_encint}
use opticon.Ioport.Strings.{write_encstring}
use opticon.Ioport.Strings.RoundTrip.{write_encstring-Encoded}
use opticon.Ioport.Uuids.{octets, write_u64}
use opticon.PacketCodec.{write_value, write_values, encode_meter, encode_from, encode_host}
use opticon.PacketCodec.Values.{
  IsShortText, Content, IsSendable, mid_of, id_type, int_bytes, TextsCode, ValuesCode,
}

-- the meters of a host with the bytes that stand for them
abbrev pub HostCode : Cells Meter → List ℕ → Type 0
HostCode [] bytes = bytes ≡ []
HostCode ((p, v) ∷ xs) bytes =
    (code : List ℕ) × (rest : List ℕ) × (bytes ≡ octets (mid_of v) ++ (code ++ rest))
    × ValuesCode v.d code
    × HostCode xs rest

abbrev pub AllSendable : Cells Meter → Type 0
AllSendable [] = Unit
AllSendable ((p, v) ∷ xs) = IsSendable v × AllSendable xs

pub element-append {ℓ} :
    {A : Type ℓ} (xs : List A) (y : A) (ys : List A) → element (xs ++ y ∷ ys) (length xs) ≡ some y
unfolding element
element-append [] y ys = refl
element-append (x ∷ xs) y ys = element-append xs y ys

module _ {S : Type 0} (m : Methods S) (shl : ℕ → ℕ)
    (write_encfrac : IoPort S → ℕ → Option (IoPort S)) (sink : Sink m) where
  -- The port is on a byte boundary, and the bytes have been appended.
  pub record Sent (io io' : IoPort S) (bytes : List ℕ) : Type 0 where
    pub idle : IsIdle m sink io'
    pub sent : sink.sent io'.storage ≡ sink.sent io.storage ++ bytes

  Sent-trans :
      (io io₁ io₂ : IoPort S) (xs ys : List ℕ)
      → Sent io io₁ xs
      → Sent io₁ io₂ ys
      → Sent io io₂ (xs ++ ys)
  Sent-trans io io₁ io₂ xs ys a b = record {
    idle = b.idle;
    sent = b.sent ∙ ap (λ t. t ++ ys) a.sent ∙ append_assoc (sink.sent io.storage) xs ys;
  }

  write_int :
      (v : Meter) (io io' : IoPort S) (ws : List ℕ) (pos w : ℕ)
      → v.d ≡ words ws
      → bit_and v.id mmask_type ≡ 0
      → element ws pos ≡ some w
      → write_encint m shl io w ≡ some io'
      → write_value m shl write_encfrac io v pos ≡ some io'
  unfolding write_value as_words
  write_int v io io' ws pos w stored type at went = rw (type, stored, at) went

  write_text :
      (v : Meter) (io io' : IoPort S) (ts : List (List ℕ)) (pos : ℕ) (t : List ℕ)
      → v.d ≡ texts ts
      → bit_and v.id mmask_type ≡ mtype_str
      → element ts pos ≡ some t
      → write_encstring m io t ≡ some io'
      → write_value m shl write_encfrac io v pos ≡ some io'
  unfolding write_value as_texts
  write_text v io io' ts pos t stored type at went = rw (type, stored, at) went

  write_ints :
      (v : Meter) (io : IoPort S) (done ws : List ℕ)
      → v.d ≡ words (done ++ ws)
      → bit_and v.id mmask_type ≡ 0
      → Each (λ w. w < 2 ^ 28) ws
      → IsIdle m sink io
      → (io' : IoPort S) × (write_values m shl write_encfrac (length ws) io v (length done)
          ≡ some io')
        × Sent io io' (int_bytes ws)
  unfolding write_values
  write_ints v io done [] stored type small idle =
      (io, refl, record { idle = idle; sent = sym (append-nil (sink.sent io.storage)) })
  write_ints v io done (w ∷ ws) stored type (low, small) idle =
      let (io₁, went, idle₁, sent₁) = write_encint_lem shl m sink io w idle low in
      let next : v.d ≡ words ((done ++ w ∷ []) ++ ws) =
        stored ∙ ap words (sym (append_assoc done (w ∷ []) ws)) in
      let (io₂, went₂, sent₂) = write_ints v io₁ (done ++ w ∷ []) ws next type small idle₁ in
      let place : length (done ++ w ∷ []) ≡ length done + 1 =
        omega (arith, length-append done (w ∷ [])) in
      (
        io₂,
        (let now =
              write_int v io io₁ (done ++ w ∷ ws) (length done) w stored type
                (element-append done w ws) went in
            rw (now, ← place) went₂),
        Sent-trans io io₁ io₂ (if w == 0 then 0 ∷ [] else encoded w 4 false) (int_bytes ws)
            (record { idle = idle₁; sent = sent₁ }) sent₂,
      )

  write_texts :
      (v : Meter) (io : IoPort S) (done ts : List (List ℕ))
      → v.d ≡ texts (done ++ ts)
      → bit_and v.id mmask_type ≡ mtype_str
      → Each IsShortText ts
      → IsIdle m sink io
      → (io' : IoPort S) × (bytes : List ℕ) × (write_values m shl write_encfrac
            (length ts)
            io
            v
            (length done)
          ≡ some io')
        × TextsCode ts bytes
        × Sent io io' bytes
  unfolding write_values
  write_texts v io done [] stored type short idle =
      (io, [], refl, refl, record { idle = idle; sent = sym (append-nil (sink.sent io.storage)) })
  write_texts v io done (t ∷ ts) stored type ((low, text), short) idle =
      let (io₁, went, idle₁, code, encoded, sent₁) =
        write_encstring-Encoded m sink io t idle low text in
      let next : v.d ≡ texts ((done ++ t ∷ []) ++ ts) =
        stored ∙ ap texts (sym (append_assoc done (t ∷ []) ts)) in
      let (io₂, rest, went₂, coded, sent₂) =
        write_texts v io₁ (done ++ t ∷ []) ts next type short idle₁ in
      let place : length (done ++ t ∷ []) ≡ length done + 1 =
        omega (arith, length-append done (t ∷ [])) in
      (
        io₂,
        code ++ rest,
        (let now =
              write_text v io io₁ (done ++ t ∷ ts) (length done) t stored type
                (element-append done t ts) went in
            rw (now, ← place) went₂),
        (code, rest, refl, encoded, coded),
        Sent-trans io io₁ io₂ code rest (record { idle = idle₁; sent = sent₁ }) sent₂,
      )

  write_block :
      (v : Meter) (io : IoPort S) (type : ℕ) (d : MeterData)
      → v.d ≡ d
      → bit_and v.id mmask_type ≡ type * 2 ^ 62
      → Content type v.count d
      → IsIdle m sink io
      → (io' : IoPort S) × (bytes : List ℕ) × ((if ltb (at_least_one v.count) 30
            then write_values m shl write_encfrac (at_least_one v.count) io v 0
            else some io)
          ≡ some io')
        × ValuesCode d bytes
        × Sent io io' bytes
  write_block v io type no_data stored kind empty idle = (
    io,
    [],
    rw empty refl,
    refl,
    record { idle = idle; sent = sym (append-nil (sink.sent io.storage)) },
  )
  write_block v io type (words ws) stored kind (int, few, all, small) idle =
      let (io', went, sent) =
        write_ints v io [] ws stored (kind ∙ ap (λ (t : ℕ). t * 2 ^ 62) int) small idle in
      let fits : ltb (at_least_one v.count) 30 ≡ true = ground arith in
      (io', int_bytes ws, rw (fits, ← all) went, refl, sent)
  write_block v io type (texts ts) stored kind (str, few, all, short) idle =
      let (io', bytes, went, coded, sent) =
        write_texts v io [] ts stored (kind ∙ ap (λ (t : ℕ). t * 2 ^ 62) str) short idle in
      let fits : ltb (at_least_one v.count) 30 ≡ true = ground arith in
      (io', bytes, rw (fits, ← all) went, coded, sent)

  encode_meter_lem :
      (v : Meter) (io : IoPort S)
      → IsSendable v
      → IsIdle m sink io
      → (io' : IoPort S) × (code : List ℕ) × (encode_meter m shl write_encfrac io v ≡ some io')
        × ValuesCode v.d code
        × Sent io io' (octets (mid_of v) ++ code)
  unfolding encode_meter write_u64
  encode_meter_lem v io s idle =
      let (io₁, went, idle₁, sent₁) = write_lem m sink io (octets (mid_of v)) idle in
      let (io₂, code, went₂, coded, sent₂) =
        write_block v io₁ s.type v.d refl (id_type v s) s.content idle₁ in
      (
        io₂,
        code,
        rw went went₂,
        coded,
        Sent-trans io io₁ io₂ (octets (mid_of v)) code (record { idle = idle₁; sent = sent₁ })
            sent₂,
      )

  encode_from_lem :
      (fuel : ℕ) (heap : Heap Meter) (pr : Ptr) (xs : Cells Meter) (io : IoPort S)
      → Seg heap pr xs null
      → AllSendable xs
      → length xs < fuel
      → IsIdle m sink io
      → (io' : IoPort S) × (bytes : List ℕ) × (encode_from m shl write_encfrac fuel io heap
            (head_or null xs)
          ≡ some io')
        × HostCode xs bytes
        × Sent io io' bytes
  unfolding encode_from
  encode_from_lem zero heap pr xs io seg all f idle = absurd (omega arith)
  encode_from_lem (suc fuel) heap pr [] io seg all f idle =
      (io, [], refl, refl, record { idle = idle; sent = sym (append-nil (sink.sent io.storage)) })
  encode_from_lem (suc fuel) heap pr ((p, v) ∷ xs) io (ne, at, seg) (s, all) f idle =
      let some_p : (p == null) ≡ false = ground arith in
      let (io₁, code, went, coded, sent₁) = encode_meter_lem v io s idle in
      let (io₂, rest, went₂, coded₂, sent₂) =
        encode_from_lem fuel heap p xs io₁ seg all (omega arith) sent₁.idle in
      let whole = append_assoc (octets (mid_of v)) code rest in
      (
        io₂,
        octets (mid_of v) ++ (code ++ rest),
        rw (some_p, at, went) went₂,
        (code, rest, refl, coded, coded₂),
        subst (Sent io io₂) whole
            (Sent-trans io io₁ io₂ (octets (mid_of v) ++ code) rest sent₁ sent₂),
      )

  pub encode_host_lem :
      (h : Host) (xs : Cells Meter) (fuel : ℕ) (io : IoPort S)
      → IsHost h xs
      → AllSendable xs
      → length xs < fuel
      → IsIdle m sink io
      → (io' : IoPort S) × (bytes : List ℕ) × (encode_host m shl write_encfrac fuel io h ≡ some io')
        × HostCode xs bytes
        × Sent io io' bytes
  unfolding encode_host
  encode_host_lem h xs fuel io i all f idle =
      let (io', bytes, went, coded, sent) =
        encode_from_lem fuel h.heap null xs io i.list.nodes all f idle in
      (
        io',
        bytes,
        ap (encode_from m shl write_encfrac fuel io h.heap) i.list.first ∙ went,
        coded,
        sent,
      )
