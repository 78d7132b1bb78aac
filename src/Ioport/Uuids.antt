-- ===== src/Ioport/Uuids.antt =====
-- Identifiers as 16 bytes, and words of 64 and 32 bits (src/libopticon/ioport.c). `htobe64`,
-- `htonl` and their inverses are the order of the bytes, the highest first.
pub mod RoundTrip
pub mod Words
use opticon.Prelude.{
  ℕ, ◌+◌, ◌*◌, ◌/◌, ◌^◌, bit_and, bit_or, Option, none, some, List, [], ◌∷◌, ◌++◌, get_or,
}
use opticon.Uuid.{Uuid, uuidnil}
use opticon.Ioport.{Methods, IoPort, write, read}

-- `(word & (0xff << k)) >> k`, with the mask written out in the source
abbrev pub octet : ℕ → ℕ → ℕ
octet word k = bit_and word (0xff * 2 ^ k) / 2 ^ k

abbrev pub octets : ℕ → List ℕ
octets word =
    octet word 56
    ∷ octet word 48
    ∷ octet word 40
    ∷ octet word 32
    ∷ octet word 24
    ∷ octet word 16
    ∷ octet word 8
    ∷ octet word 0
    ∷ []

-- eight bytes of a buffer from position `i`, as a word
abbrev pub word_at : List ℕ → ℕ → ℕ
word_at buf i =
    bit_or
      (bit_or
        (bit_or
          (bit_or
            (bit_or
              (bit_or (bit_or (get_or buf i 0 * 2 ^ 56) (get_or buf (i + 1) 0 * 2 ^ 48))
                (get_or buf (i + 2) 0 * 2 ^ 40))
              (get_or buf (i + 3) 0 * 2 ^ 32))
            (get_or buf (i + 4) 0 * 2 ^ 24))
          (get_or buf (i + 5) 0 * 2 ^ 16))
        (get_or buf (i + 6) 0 * 2 ^ 8))
      (get_or buf (i + 7) 0)

abbrev pub octets_32 : ℕ → List ℕ
octets_32 word = octet word 24 ∷ octet word 16 ∷ octet word 8 ∷ octet word 0 ∷ []

abbrev pub word_32 : List ℕ → ℕ
word_32 buf =
    bit_or
      (bit_or (bit_or (get_or buf 0 0 * 2 ^ 24) (get_or buf 1 0 * 2 ^ 16)) (get_or buf 2 0 * 2 ^ 8))
      (get_or buf 3 0)

-- `word` of the bytes, 0 where the read fails
abbrev pub word_or_zero : {S : Type 0} → (List ℕ → ℕ) → Option (List ℕ) × IoPort S → ℕ × IoPort S
word_or_zero word (none, io) = (0, io)
word_or_zero word (some dt, io) = (word dt, io)

abbrev pub uuid_or_nil : {S : Type 0} → Option (List ℕ) × IoPort S → Uuid × IoPort S
uuid_or_nil (none, io) = (uuidnil, io)
uuid_or_nil (some buf, io) = (record { msb = word_at buf 0; lsb = word_at buf 8 }, io)

module _ {S : Type 0} (m : Methods S) where
  pub write_uuid : IoPort S → Uuid → Option (IoPort S)
  write_uuid io u = write m io (octets u.msb ++ octets u.lsb)

  pub read_uuid : IoPort S → Uuid × IoPort S
  read_uuid io = uuid_or_nil (read m io 16)

  unfoldable pub write_u64 : IoPort S → ℕ → Option (IoPort S)
  write_u64 io i = write m io (octets i)

  pub write_u32 : IoPort S → ℕ → Option (IoPort S)
  write_u32 io i = write m io (octets_32 i)

  unfoldable pub read_u64 : IoPort S → ℕ × IoPort S
  read_u64 io =
      word_or_zero (λ dt. word_at dt 0) (read m (record io { bitpos = 0; bitbuffer = 0 }) 8)

  pub read_u32 : IoPort S → ℕ × IoPort S
  read_u32 io = word_or_zero word_32 (read m (record io { bitpos = 0; bitbuffer = 0 }) 4)
