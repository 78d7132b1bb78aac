-- ===== src/BufferPort/Encint.antt =====
-- Encoded integers through one buffer.
use opticon.Prelude.{
  false, ℕ, ◌^◌, ◌<◌, ◌≡◌, sym, ap, ◌∙◌, some, List, [], ◌∷◌, ◌++◌, append-nil, arith, length, ◌==◌,
  if◌then◌else◌,
}
use opticon.Ioport.{IoPort}
use opticon.Ioport.Encint.{write_encint, read_encint}
use opticon.Ioport.Encint.Writing.{encoded, write_encint_lem}
use opticon.Ioport.Encint.Reading.{length-sent, read_encint_lem}
use opticon.BufferPort.{Storage, buffer_methods, create_owned}
use opticon.BufferPort.Laws.{written}
use opticon.BufferPort.Port.{buffer_sink, buffer_source, create_owned-IsIdle, IsServing-of_writing}

-- A number below 2 ^ 28, written to a new buffer, is accepted and reads back as itself, whatever
-- the shifts of the mask are that C does not define.
pub encint_round_trip :
    (junk : ℕ) (shl : ℕ → ℕ) (sz i : ℕ)
    → i < 2 ^ 28
    → (io : IoPort Storage) × (back : IoPort Storage) × (write_encint
          (buffer_methods junk)
          shl
          (create_owned junk sz)
          i
        ≡ some io)
      × (read_encint (buffer_methods junk) 4 io ≡ some (i, back))
encint_round_trip junk shl sz i h =
    let (idle, empty) = create_owned-IsIdle junk sz in
    let (io, done, idle', sent) =
      write_encint_lem shl (buffer_methods junk) (buffer_sink junk) (create_owned junk sz) i idle
        h in
    let code : List ℕ = if i == 0 then 0 ∷ [] else encoded i 4 false in
    let all : written io.storage ≡ code = sent ∙ ap (λ t. t ++ code) empty in
    let (serving, view) =
      IsServing-of_writing junk io.storage idle'.ready
        (omega (arith, ap length all, length-sent i h)) in
    let (back, got, _, _) =
      read_encint_lem (buffer_methods junk) (buffer_source junk) io i [] h serving
        (view ∙ all ∙ sym (append-nil code)) in
    (io, back, done, got)
