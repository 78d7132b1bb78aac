-- ===== src/PacketCodec/Buffer.antt =====
-- A host through the packet in one buffer.
use opticon.Prelude.{
  Bool, ℕ, ◌+◌, ◌<◌, ◌≤◌, ◌≡◌, refl, sym, ap, ◌∙◌, false, some, List, [], ◌∷◌, ◌++◌, append-nil,
  length, Each, arith, Option,
}
use opticon.Links.{Ptr}
use opticon.Links.Cells.{Cells}
use opticon.Meter.{Meter}
use opticon.Host.{Host, alloc_host, begin_update}
use opticon.Host.Lists.{IsHost, alloc_host-IsHost}
use opticon.Ioport.{IoPort}
use opticon.Ioport.Uuids.{read_u64}
use opticon.Ioport.Uuids.Words.{read_u64-end}
use opticon.BufferPort.{Storage, buffer_methods, create_owned}
use opticon.BufferPort.Laws.{written, unread}
use opticon.BufferPort.Port.{
  IsServing, end_of_buffer, buffer_sink, buffer_source, create_owned-IsIdle, IsServing-of_writing,
}
use opticon.PacketCodec.{decoded, Decoder, encode_host, decode_host}
use opticon.PacketCodec.Writing.{HostCode, AllSendable, encode_host_lem}
use opticon.PacketCodec.RoundTrip.{AllApart, AllFresh-nil, IsPlaces, arrived, decode_host_lem}

end_reads_zero :
    (junk : ℕ) (io : IoPort Storage)
    → IsServing io.storage
    → unread io.storage ≡ []
    → (read_u64 (buffer_methods junk) io).0 ≡ 0
end_reads_zero junk io v empty =
    read_u64-end (buffer_methods junk) io io.storage (end_of_buffer io.storage v empty)

length-HostCode :
    (xs : Cells Meter) (bytes : List ℕ) → HostCode xs bytes → 0 < length xs → 0 < length bytes
length-HostCode [] bytes coded some_meters = absurd (omega arith)
length-HostCode ((p, v) ∷ xs) bytes (code, rest, split, _, _) some_meters =
    omega (arith, ap length split)

outside_nil : (places : List Ptr) → Each (λ q. ◌≡◌ {A = Bool} false false) places
outside_nil [] = tt
outside_nil (p ∷ places) = (refl, outside_nil places)

-- A host with some meters, at most one more than the limit, whose names differ and of which none
-- has the prefix of a later one for its name, and whose values are integers below 2 ^ 28, texts of
-- at most 127 ASCII characters, none of them the last one (127), or none: it is encoded into a new buffer, and the decoder makes of the
-- buffer and a new host one with the same meters, in the same order, with the same ids, counts and
-- values, and the time of that host. The walks have fuel for one round more than there are meters,
-- and at least four rounds for an integer; each round of the decoder finds a place of its own.
pub host_round_trip :
    (junk : ℕ) (shl : ℕ → ℕ) (write_encfrac : IoPort Storage → ℕ → Option (IoPort Storage))
    (read_encfrac : IoPort Storage → ℕ × IoPort Storage) (sz fuel max_meters now : ℕ)
    (strbuf : List ℕ) (h : Host) (xs : Cells Meter) (places : List Ptr)
    → IsHost h xs
    → 0 < length xs
    → length xs ≤ max_meters + 1
    → AllSendable xs
    → AllApart xs
    → IsPlaces places
    → length xs < length places
    → length xs < fuel
    → 4 ≤ fuel
    → (io : IoPort Storage) × (s' : Decoder Storage) × (encode_host
          (buffer_methods junk)
          shl
          write_encfrac
          fuel
          (create_owned junk sz)
          h
        ≡ some io)
      × (decode_host
            (buffer_methods junk)
            read_encfrac
            fuel
            max_meters
            places
            (record { io = io; host = begin_update alloc_host now; lastpfx = 0; strbuf = strbuf })
          ≡ some (decoded s'))
      × IsHost s'.host (arrived now xs places)
unfolding begin_update
host_round_trip junk shl write_encfrac read_encfrac sz fuel max_meters now strbuf h xs places i
      some_meters room send apart ok many f enough =
    let (idle, empty) = create_owned-IsIdle junk sz in
    let (io, bytes, done, coded, sent) =
      encode_host_lem (buffer_methods junk) shl write_encfrac (buffer_sink junk) h xs fuel
        (create_owned junk sz) i send f idle in
    let all : written io.storage ≡ bytes = sent.sent ∙ ap (λ t. t ++ bytes) empty in
    let (serving, view) =
      IsServing-of_writing junk io.storage ((sent.idle).ready)
        (omega (arith, ap length all, length-HostCode xs bytes coded some_meters)) in
    let start : Decoder Storage = record {
      io = io;
      host = begin_update alloc_host now;
      lastpfx = 0;
      strbuf = strbuf;
    } in
    let (s', back, i') =
      decode_host_lem (buffer_methods junk) read_encfrac (buffer_source junk) fuel max_meters xs []
        places start bytes [] (end_reads_zero junk) send apart (AllFresh-nil xs)
        (alloc_host-IsHost now) ok (outside_nil places) many (omega arith) (omega arith) enough
        serving coded (view ∙ all ∙ sym (append-nil bytes)) in
    (io, s', done, back, i')
