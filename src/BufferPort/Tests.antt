-- ===== src/BufferPort/Tests.antt =====
-- Ports over a buffer at concrete strings and fields.
use opticon.Prelude.{◌+◌, length, ℕ, ◌≡◌, refl, true, false, some, none, List, [], ◌∷◌, ◌++◌, arith}
use opticon.Prelude.Text.{codes}
use opticon.Ioport.{IoPort, write_bits, read_bits}
use opticon.Ioport.Stream.{low_bits}
use opticon.Ioport.BitWriter.{IsOpen, bits_sent, write_bits_lem}
use opticon.Ioport.BitReader.{IsReading, bits_left, Took, read_bits_lem}
use opticon.Ioport.Strings.{code_of, write_encstring, read_encstring}
use opticon.BufferPort.{Storage, buffer_methods, buffer_write, create_owned}
use opticon.BufferPort.Laws.{IsValid, written}
use opticon.BufferPort.Port.{buffer_sink, buffer_source, encstring_round_trip, uuid_round_trip}
use opticon.Uuid.{Uuid}
use opticon.Ioport.Encint.{write_encint, read_encint}
use opticon.BufferPort.Encint.{encint_round_trip}
use opticon.Ioport.Uuids.{write_uuid, read_uuid}

-- two bytes written, one read
abbrev half_read : Storage
half_read = record { buf = 0xb1 ∷ 0x80 ∷ 0 ∷ []; bufsz = 3; pos = 2; rpos = 1; owned = true }

half_read-IsValid : IsValid half_read
half_read-IsValid = omega arith

-- A buffer that the port does not own refuses what does not fit.
full_buffer_refuses : buffer_write 7 (record half_read { owned = false }) (1 ∷ 2 ∷ []) ≡ none
unfolding buffer_write
full_buffer_refuses = refl

abbrev label : List ℕ
label = codes "load avg"

encstring_round_trip_example :
    (io : IoPort Storage) × (write_encstring (buffer_methods 7) (create_owned 7 4) label ≡ some io)
    × ((read_encstring (buffer_methods 7) io).0 ≡ some label)
encstring_round_trip_example = encstring_round_trip 7 4 label (omega arith) (omega arith)

-- The last ASCII character is packed as the letter.
del-code_of : code_of 127 ≡ code_of b'a'
unfolding code_of
del-code_of = refl

abbrev host : Uuid
host = record { msb = 0x0123456789abcdef; lsb = 0xfedcba9876543210 }

uuid_round_trip_example :
    (io : IoPort Storage) × (write_uuid (buffer_methods 7) (create_owned 7 4) host ≡ some io)
    × ((read_uuid (buffer_methods 7) io).0 ≡ host)
uuid_round_trip_example = uuid_round_trip 7 4 host (omega arith) (omega arith)

encint_round_trip_example :
    (io : IoPort Storage) × (back : IoPort Storage) × (write_encint
        (buffer_methods 7)
        (λ k. 1)
        (create_owned 7 4)
        1048577
      ≡ some io)
    × (read_encint (buffer_methods 7) 4 io ≡ some (1048577, back))
encint_round_trip_example = encint_round_trip 7 (λ k. 1) 4 1048577 (omega arith)

-- a port to read from, with one byte behind a word
abbrev served : List ℕ → IoPort Storage
served bytes = record {
  storage = record {
    buf = bytes ++ 9 ∷ [];
    bufsz = length bytes + 1;
    pos = length bytes + 1;
    rpos = 0;
    owned = false;
  };
  bitpos = 0;
  bitbuffer = 0;
}

-- six bits wait, of a byte that was begun
abbrev begun : IoPort Storage
begun = record { storage = record half_read { rpos = 0 }; bitpos = 6; bitbuffer = 0xa4 }

begun-IsOpen : IsOpen (buffer_methods 7) (buffer_sink 7) begun
begun-IsOpen = record {
  ready = record { valid = omega arith; owned = refl; unread = refl; count = refl };
  partial = omega arith;
  clear = refl;
  byte = omega arith;
}

write_bits_lem_example :
    (io : IoPort Storage) × (write_bits (buffer_methods 7) begun 0x2b 6 ≡ some io)
    × IsOpen (buffer_methods 7) (buffer_sink 7) io
    × (bits_sent (buffer_methods 7) (buffer_sink 7) io
        ≡ bits_sent (buffer_methods 7) (buffer_sink 7) begun ++ low_bits 6 0x2b)
    × (more : List ℕ) × (written io.storage ≡ (0xb1 ∷ 0x80 ∷ []) ++ more)
write_bits_lem_example =
    write_bits_lem (buffer_methods 7) (buffer_sink 7) begun 0x2b 6 begun-IsOpen (omega arith)

-- a reader that has taken six bits of the byte 0xa4
abbrev reading : IoPort Storage
reading = record { storage = half_read; bitpos = 6; bitbuffer = 0xa5 }

reading-IsReading : IsReading (buffer_methods 7) (buffer_source 7) reading
reading-IsReading = record {
  ready = record { valid = half_read-IsValid; some_bytes = omega arith; behind = omega arith };
  taken = omega arith;
}

read_bits_lem_example :
    Took
      (buffer_methods 7)
      (buffer_source 7)
      reading
      6
      (low_bits 6 0)
      (read_bits (buffer_methods 7) reading 4)
unfolding bits_left
read_bits_lem_example =
    read_bits_lem (buffer_methods 7) (buffer_source 7) reading 4 6 (low_bits 6 0) reading-IsReading
      (omega arith) (omega arith) (omega arith) refl

-- "I?" is no string of the six-bit set: its length and its bytes
abbrev plain_stored : IoPort Storage
plain_stored = record {
  storage = record { buf = 2 ∷ 73 ∷ 63 ∷ 9 ∷ []; bufsz = 4; pos = 4; rpos = 0; owned = false };
  bitpos = 0;
  bitbuffer = 0;
}
