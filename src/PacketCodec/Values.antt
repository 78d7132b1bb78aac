-- ===== src/PacketCodec/Values.antt =====
-- The meters that a packet carries: what their ids and values may be, and what is sent for them.
use opticon.Prelude.{
  ◌-◌, ℕ, ◌+◌, ◌*◌, ◌/◌, ◌^◌, ◌<◌, ◌≤◌, ◌≡◌, sym, ap, ap₂, ◌∙◌, List, [], ◌∷◌, ◌++◌, length, Each,
  arith, ◌==◌, if◌then◌else◌, bit_and, bit_or, false,
}
use opticon.Prelude.Bits.{bit_or-add, bit_or_comm, bit_and_ones, bit_and_shifted}
use opticon.MeterId.{mmask_name}
use opticon.Meter.{Meter, MeterData, no_data, words, texts, mmask_type, mmask_count, at_least_one}
use opticon.Host.{mmask_id}
use opticon.Ioport.Encint.Writing.{encoded}
use opticon.Ioport.Strings.Packing.{IsText}
use opticon.Ioport.Strings.RoundTrip.{Encoded}

abbrev pub IsShortText : List ℕ → Type 0
IsShortText t = (length t ≤ 127) × IsText t

-- Numbers below 2 ^ 28 and texts of at most 127 ASCII characters but 127, as many as the count says; or
-- no value.
abbrev pub Content : ℕ → ℕ → MeterData → Type 0
Content type count no_data = count ≡ 30
Content type count (words ws) =
    (type ≡ 0) × (count < 30) × (length ws ≡ at_least_one count) × Each (λ w. w < 2 ^ 28) ws
Content type count (texts ts) =
    (type ≡ 2) × (count < 30) × (length ts ≡ at_least_one count) × Each IsShortText ts

-- A meter with a name, and values of the type in its id.
pub record IsSendable (v : Meter) : Type 0 where
  pub type : ℕ
  pub name : ℕ
  pub id : v.id ≡ type * 2 ^ 62 + name * 32
  pub some_type : type < 4
  pub some_name : 0 < name
  pub short : name < 2 ^ 57
  pub count : v.count < 31
  pub content : Content type v.count v.d

-- the id as it is sent
abbrev pub mid_of : Meter → ℕ
mid_of v = bit_or v.id v.count

module _ (v : Meter) (s : IsSendable v) where
  pub mid_sum : mid_of v ≡ v.id + v.count
  mid_sum =
      let count = s.count in
      let shape : v.id ≡ (s.type * 2 ^ 57 + s.name) * 2 ^ 5 = omega (arith, s.id) in
      ap (λ (t : ℕ). bit_or t v.count) shape
      ∙ bit_or-add 5 (s.type * 2 ^ 57 + s.name) v.count (omega arith)
      ∙ ap (λ (t : ℕ). t + v.count) (sym shape)

  pub mid_range : (0 < mid_of v) × (mid_of v < 2 ^ 64)
  mid_range = (
    omega (arith, mid_sum, s.id, s.some_name),
    omega (arith, mid_sum, s.id, s.some_type, s.short, s.count),
  )

  pub mid_count : bit_and (mid_of v) mmask_count ≡ v.count
  mid_count =
      ap (λ (t : ℕ). bit_and t mmask_count) mid_sum
      ∙ bit_and_ones 5 (v.id + v.count)
      ∙ omega (arith, s.id, s.count)

  pub mid_id : bit_and (mid_of v) mmask_id ≡ v.id
  mid_id =
      ap (λ (t : ℕ). bit_and t mmask_id) mid_sum
      ∙ bit_and_shifted 5 (v.id + v.count) (2 ^ 59 - 1)
      ∙ ap (λ (t : ℕ). t * 32) (bit_and_ones 59 ((v.id + v.count) / 2 ^ 5))
      ∙ omega (arith, s.id, s.count, s.short, s.some_type)

  pub mid_type : bit_and (mid_of v) mmask_type ≡ s.type * 2 ^ 62
  mid_type =
      ap (λ (t : ℕ). bit_and t mmask_type) mid_sum
      ∙ bit_and_shifted 62 (v.id + v.count) 3
      ∙ ap (λ (t : ℕ). t * 2 ^ 62) (bit_and_ones 2 ((v.id + v.count) / 2 ^ 62))
      ∙ omega (arith, s.id, s.count, s.short, s.some_type)

  pub id_type : bit_and v.id mmask_type ≡ s.type * 2 ^ 62
  id_type =
      bit_and_shifted 62 v.id 3
      ∙ ap (λ (t : ℕ). t * 2 ^ 62) (bit_and_ones 2 (v.id / 2 ^ 62))
      ∙ omega (arith, s.id, s.short, s.some_type)

  pub mid_name : bit_and (mid_of v) mmask_name ≡ s.name * 32
  mid_name =
      ap (λ (t : ℕ). bit_and t mmask_name) mid_sum
      ∙ bit_and_shifted 5 (v.id + v.count) (2 ^ 57 - 1)
      ∙ ap (λ (t : ℕ). t * 32) (bit_and_ones 57 ((v.id + v.count) / 2 ^ 5))
      ∙ omega (arith, s.id, s.count, s.short, s.some_type)

  pub id_name : bit_and v.id mmask_name ≡ s.name * 32
  id_name =
      bit_and_shifted 5 v.id (2 ^ 57 - 1)
      ∙ ap (λ (t : ℕ). t * 32) (bit_and_ones 57 (v.id / 2 ^ 5))
      ∙ omega (arith, s.id, s.short, s.some_type)

  -- A meter that was made for the id keeps its id.
  pub retyped-id :
      bit_or (bit_and v.id (bit_or mmask_name mmask_count)) (bit_and (mid_of v) mmask_type) ≡ v.id
  retyped-id =
      let low : bit_and v.id (2 ^ 62 - 1) ≡ s.name * 32 =
        bit_and_ones 62 v.id ∙ omega (arith, s.id, s.short, s.some_type) in
      ap₂ bit_or low mid_type
      ∙ bit_or_comm (s.name * 32) (s.type * 2 ^ 62)
      ∙ bit_or-add 62 s.type (s.name * 32) (omega (arith, s.short))
      ∙ sym s.id

abbrev pub int_bytes : List ℕ → List ℕ
int_bytes [] = []
int_bytes (w ∷ ws) = (if w == 0 then 0 ∷ [] else encoded w 4 false) ++ int_bytes ws

abbrev pub TextsCode : List (List ℕ) → List ℕ → Type 0
TextsCode [] bytes = bytes ≡ []
TextsCode (t ∷ ts) bytes =
    (code : List ℕ) × (rest : List ℕ) × (bytes ≡ code ++ rest) × Encoded t code × TextsCode ts rest

-- the bytes of the values
abbrev pub ValuesCode : MeterData → List ℕ → Type 0
ValuesCode no_data bytes = bytes ≡ []
ValuesCode (words ws) bytes = bytes ≡ int_bytes ws
ValuesCode (texts ts) bytes = TextsCode ts bytes
