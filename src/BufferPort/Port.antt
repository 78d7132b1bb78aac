-- ===== src/BufferPort/Port.antt =====
-- The buffer as a sink and as a source of a port, and what a port over one buffer gives back.
use opticon.Prelude.{
  ltb, none, ◌==◌, false, length-drop, length-take_le, ℕ, ◌+◌, ◌^◌, ◌<◌, ◌≤◌, ◌≡◌, refl, sym, ap,
  ◌∙◌, true, some, List, [], ◌++◌, append-nil, arith, length, length-append,
}
use opticon.Ioport.{IoPort}
use opticon.Ioport.Stream.{Sink, Source}
use opticon.Ioport.Flush.{IsIdle}
use opticon.Ioport.Strings.{write_encstring, read_encstring}
use opticon.Ioport.Strings.Packing.{IsText}
use opticon.Ioport.Strings.RoundTrip.{Encoded, write_encstring-Encoded, read_encstring-ReadBack}
use opticon.Uuid.{Uuid}
use opticon.Ioport.Uuids.{octets, write_uuid, read_uuid}
use opticon.Ioport.Uuids.RoundTrip.{write_uuid_lem, read_uuid_lem}
use opticon.BufferPort.{Storage, buffer_methods, buffer_write, buffer_read, create_owned}
use opticon.BufferPort.Laws.{
  IsValid, written, unread, buffer_write-Wrote, buffer_read_lem, length-fresh,
}

-- a buffer that only writes so far
pub record IsWriting (s : Storage) : Type 0 where
  pub valid : IsValid s
  pub owned : s.owned ≡ true
  pub unread : s.rpos ≡ 0
  pub count : length (written s) ≡ s.pos

-- a buffer with something written, and no more than that read
pub record IsServing (s : Storage) : Type 0 where
  pub valid : IsValid s
  pub some_bytes : 0 < s.pos
  pub behind : s.rpos ≤ s.pos

-- Behind the last byte a read fails.
pub end_of_buffer : (s : Storage) → IsServing s → unread s ≡ [] → buffer_read s 8 ≡ (none, s)
unfolding buffer_read
end_of_buffer s v empty =
    let inside : s.pos ≤ length s.buf = omega (arith, (v.valid).block, (v.valid).write_in) in
    let short : s.pos ≤ s.rpos =
      omega (
        arith,
        ap length empty,
        length-drop s.rpos (written s),
        length-take_le s.pos s.buf inside,
      ) in
    let past : ltb s.pos (s.rpos + 8) ≡ true = ground arith in
    let some_written : (s.pos == 0) ≡ false = ground (arith, v.some_bytes) in
    rw (past, some_written) (ground arith)

module _ (junk : ℕ) where
  pub IsWriting-write :
      (s : Storage) (bytes : List ℕ)
      → IsWriting s
      → (s' : Storage) × (buffer_write junk s bytes ≡ some s')
        × IsWriting s'
        × (written s' ≡ written s ++ bytes)
  IsWriting-write s bytes w =
      let (s', done, e) = buffer_write-Wrote junk s bytes w.valid w.owned in
      (
        s',
        done,
        record {
          valid = e.valid;
          owned = e.owned ∙ w.owned;
          unread = e.rpos ∙ w.unread;
          count =
              omega (arith, ap length e.appended, length-append (written s) bytes, e.pos, w.count);
        },
        e.appended,
      )

  abbrev pub buffer_sink : Sink (buffer_methods junk)
  buffer_sink = record { Ready = IsWriting; sent = written; write_ok = IsWriting-write }

  pub IsServing-read :
      (s : Storage) (bytes rest : List ℕ)
      → IsServing s
      → unread s ≡ bytes ++ rest
      → (s' : Storage) × (buffer_read s (length bytes) ≡ (some bytes, s'))
        × IsServing s'
        × (unread s' ≡ rest)
  IsServing-read s bytes rest v e =
      let (done, left, valid, behind) =
        buffer_read_lem s bytes rest v.valid v.some_bytes v.behind e in
      (
        record s { rpos = s.rpos + length bytes },
        done,
        record { valid = valid; some_bytes = v.some_bytes; behind = behind },
        left,
      )

  abbrev pub buffer_source : Source (buffer_methods junk)
  buffer_source = record { Ready = IsServing; pending = unread; read_ok = IsServing-read }

  pub create_owned-IsIdle :
      (sz : ℕ)
      → IsIdle (buffer_methods junk) buffer_sink (create_owned junk sz)
        × (written (create_owned junk sz).storage ≡ [])
  unfolding create_owned
  create_owned-IsIdle sz = (
    record {
      ready = record {
        valid = record {
          block = length-fresh junk sz;
          write_in = omega arith;
          read_in = omega arith;
        };
        owned = refl;
        unread = refl;
        count = refl;
      };
      bitpos = refl;
      bitbuffer = refl;
    },
    refl,
  )

  -- What was written to a buffer can be read from it.
  pub IsServing-of_writing :
      (s : Storage) → IsWriting s → 0 < length (written s) → IsServing s × (unread s ≡ written s)
  IsServing-of_writing s w some_bytes = (
    record {
      valid = w.valid;
      some_bytes = omega (arith, w.count);
      behind = omega (arith, w.unread);
    },
    rw w.unread,
  )

  length-Encoded : {str code : List ℕ} → Encoded str code → 0 < length code
  length-Encoded (Encoded.plain e) = omega arith
  length-Encoded (Encoded.packed bytes pad text e bits short) = omega arith

  -- A string of at most 127 ASCII characters, none of them the last one (127), written to a new
  -- buffer, is accepted and reads back as itself.
  pub encstring_round_trip :
      (sz : ℕ) (str : List ℕ)
      → length str ≤ 127
      → IsText str
      → (io : IoPort Storage) × (write_encstring (buffer_methods junk) (create_owned junk sz) str
          ≡ some io)
        × ((read_encstring (buffer_methods junk) io).0 ≡ some str)
  encstring_round_trip sz str h text =
      let (idle, empty) = create_owned-IsIdle sz in
      let (io, done, idle', code, encoded, sent) =
        write_encstring-Encoded (buffer_methods junk) buffer_sink (create_owned junk sz) str idle h
          text in
      let all : written io.storage ≡ code = sent ∙ ap (λ t. t ++ code) empty in
      let (serving, view) =
        IsServing-of_writing io.storage idle'.ready
          (omega (arith, ap length all, length-Encoded encoded)) in
      let back =
        read_encstring-ReadBack (buffer_methods junk) buffer_source io str code [] serving h encoded
          (view ∙ all ∙ sym (append-nil code)) in
      (io, done, back.string)

  -- An identifier of two 64-bit words, written to a new buffer, is accepted and reads back as
  -- itself.
  pub uuid_round_trip :
      (sz : ℕ) (u : Uuid)
      → u.msb < 2 ^ 64
      → u.lsb < 2 ^ 64
      → (io : IoPort Storage) × (write_uuid (buffer_methods junk) (create_owned junk sz) u
          ≡ some io)
        × ((read_uuid (buffer_methods junk) io).0 ≡ u)
  uuid_round_trip sz u h h' =
      let (idle, empty) = create_owned-IsIdle sz in
      let (io, done, idle', sent) =
        write_uuid_lem (buffer_methods junk) buffer_sink (create_owned junk sz) u idle in
      let code = octets u.msb ++ octets u.lsb in
      let all : written io.storage ≡ code = sent ∙ ap (λ t. t ++ code) empty in
      let (serving, view) =
        IsServing-of_writing io.storage idle'.ready (omega (arith, ap length all)) in
      let (io', back, _, _) =
        read_uuid_lem (buffer_methods junk) buffer_source io u [] serving
          (view ∙ all ∙ sym (append-nil code)) h h' in
      (io, done, ap (λ (r : Uuid × IoPort Storage). r.0) back)
