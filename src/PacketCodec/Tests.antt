-- ===== src/PacketCodec/Tests.antt =====
-- Two meters through a packet.
use opticon.Prelude.{ℕ, ◌≡◌, refl, Option, none, some, [], ◌∷◌, arith}
use opticon.Prelude.Text.{codes}
use opticon.Links.{null, ends, Heap, node, update}
use opticon.Links.Cells.{Cells}
use opticon.MeterId.{idgetprefix}
use opticon.Meter.{Meter, words, texts}
use opticon.Host.{Host, alloc_host, begin_update}
use opticon.Host.Lists.{IsHost}
use opticon.Ioport.{IoPort}
use opticon.BufferPort.{Storage, buffer_methods, create_owned}
use opticon.PacketCodec.{decoded, read_values, Decoder, encode_host, decode_host, decode_meter}
use opticon.PacketCodec.Values.{IsSendable}
use opticon.PacketCodec.RoundTrip.{arrived}
use opticon.PacketCodec.Buffer.{host_round_trip}
use opticon.PacketCodec.Retype.{IsShort, decode_meter-overflows}

abbrev load_meter : Meter
load_meter = record { id = 0x1800; count = 2; d = words (7 ∷ 900 ∷ []); lastmodified = 1000 }

abbrev os_meter : Meter
os_meter = record {
  id = 0x8000000000002800;
  count = 0;
  d = texts (codes "BeOS 5" ∷ []);
  lastmodified = 1000;
}

abbrev two : Cells Meter
two = (8, load_meter) ∷ (16, os_meter) ∷ []

abbrev memory : Heap Meter
memory =
    update (update (λ a. none) 8 (some (node null 16 load_meter))) 16 (some (node 8 null os_meter))

abbrev two_meters : Host
two_meters = record {
  heap = memory;
  meters = ends 8 16;
  trash = null;
  mcount = 2;
  lastmodified = 1700;
}

two_meters-IsHost : IsHost two_meters two
two_meters-IsHost = record {
  list = record {
    first = refl;
    last = refl;
    nodes = (omega arith, refl, (omega arith, refl, tt));
    once = (refl, (refl, tt));
  };
  counted = refl;
}

load_meter-IsSendable : IsSendable load_meter
load_meter-IsSendable = record {
  type = 0;
  name = 0xc0;
  id = refl;
  some_type = omega arith;
  some_name = omega arith;
  short = omega arith;
  count = omega arith;
  content = (refl, omega arith, refl, (omega arith, (omega arith, tt)));
}

os_meter-IsSendable : IsSendable os_meter
os_meter-IsSendable = record {
  type = 2;
  name = 0x140;
  id = refl;
  some_type = omega arith;
  some_name = omega arith;
  short = omega arith;
  count = omega arith;
  content = (refl, omega arith, refl, ((omega arith, omega arith), tt));
}

-- functions for fractions that are never called
abbrev no_frac : IoPort Storage → ℕ → Option (IoPort Storage)
no_frac io d = none

abbrev zero_frac : IoPort Storage → ℕ × IoPort Storage
zero_frac io = (0, io)

host_round_trip_example :
    (io : IoPort Storage) × (s' : Decoder Storage) × (encode_host
        (buffer_methods 0xaa)
        (λ b. 0)
        no_frac
        4
        (create_owned 0xaa 16)
        two_meters
      ≡ some io)
    × (decode_host
          (buffer_methods 0xaa)
          zero_frac
          4
          256
          (24 ∷ 32 ∷ 40 ∷ [])
          (record { io = io; host = begin_update alloc_host 1800; lastpfx = 0; strbuf = [] })
        ≡ some (decoded s'))
    × IsHost s'.host (arrived 1800 two (24 ∷ 32 ∷ 40 ∷ []))
unfolding idgetprefix
host_round_trip_example =
    host_round_trip 0xaa (λ b. 0) no_frac zero_frac 16 4 256 1800 [] two_meters two
      (24 ∷ 32 ∷ 40 ∷ []) two_meters-IsHost (omega arith) (omega arith)
      (load_meter-IsSendable, (os_meter-IsSendable, tt)) ((refl, refl, tt), (tt, tt))
      (omega arith, (refl, (refl, tt)), (omega arith, (refl, tt), (omega arith, tt, tt)))
      (omega arith) (omega arith) (omega arith)

abbrev receiving : Decoder Storage
receiving = record { io = create_owned 0xaa 16; host = two_meters; lastpfx = 0; strbuf = [] }

-- the name of the first meter, as a text
decode_meter-overflows_example :
    (s2 : Decoder Storage) × (decode_meter
        (buffer_methods 0xaa)
        zero_frac
        4
        256
        24
        receiving
        0x8000000000001801
      ≡ read_values (buffer_methods 0xaa) zero_frac 4 1 s2 0x8000000000001801 8 0)
    × IsShort (buffer_methods 0xaa) zero_frac 4 s2 0x8000000000001801 [] 8 ((16, os_meter) ∷ [])
    × (decode_meter (buffer_methods 0xaa) zero_frac 4 256 24 receiving 0x8000000000001801 ≡ none)
unfolding idgetprefix
decode_meter-overflows_example =
    decode_meter-overflows (buffer_methods 0xaa) zero_frac 4 receiving 256 24 0x8000000000001801 []
      8 load_meter ((16, os_meter) ∷ []) two_meters-IsHost (omega arith) (refl, (refl, tt)) tt refl
      refl refl (omega arith)
