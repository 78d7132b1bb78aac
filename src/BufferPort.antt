-- ===== src/BufferPort.antt =====
-- src/libopticon/ioport_buffer.c: the storage of a port in memory.
pub mod Laws
pub mod Port
pub mod Encint
mod Tests
use opticon.Prelude.{
  ℕ, zero, suc, ◌+◌, ◌-◌, Bool, true, false, Option, none, some, List, [], ◌∷◌, ◌++◌, ltb, ◌==◌,
  if◌then◌else◌, not, ◌&&◌, ◌||◌, take, drop, length,
}
use opticon.Ioport.{Methods, IoPort}

-- `bufferstorage`. `buf` lists the `bufsz` bytes of the block.
pub record Storage : Type 0 where
  pub buf : List ℕ
  pub bufsz : ℕ
  pub pos : ℕ
  pub rpos : ℕ
  pub owned : Bool

-- `memcpy (buf + at, dat, …)`
pub overwrite : List ℕ → ℕ → List ℕ → List ℕ
overwrite [] at dat = []
overwrite (x ∷ buf) (suc at) dat = x ∷ overwrite buf at dat
overwrite (x ∷ buf) zero [] = x ∷ buf
overwrite (x ∷ buf) zero (d ∷ dat) = d ∷ overwrite buf zero dat

-- `while (need > bufsz) bufsz += 4096;`, in at most `fuel` rounds
pub grown : (fuel need bufsz : ℕ) → ℕ
grown zero need bufsz = bufsz
grown (suc fuel) need bufsz =
    let wider = grown fuel need (bufsz + 4096) in if ltb bufsz need then wider else bufsz

pub buffer_read : Storage → ℕ → Option (List ℕ) × Storage
buffer_read s sz =
    if ltb s.bufsz (s.rpos + sz) || (not (s.pos == 0) && ltb s.pos (s.rpos + sz))
    then (none, s)
    else (some (take sz (drop s.rpos s.buf)), record s { rpos = s.rpos + sz })

-- A byte of a new block holds whatever was there, here `junk`.
module _ (junk : ℕ) where
  pub fresh : ℕ → List ℕ
  fresh zero = []
  fresh (suc n) = junk ∷ fresh n

  -- The loop ends within `sz` rounds, since every round adds more than one byte.
  pub make_room : Storage → ℕ → Storage
  unfolding fresh grown
  make_room s sz =
      let bufsz = grown sz (s.pos + sz) s.bufsz in
      record s { bufsz = bufsz; buf = s.buf ++ fresh (bufsz - s.bufsz) }

  pub buffer_write : Storage → List ℕ → Option Storage
  unfolding make_room overwrite
  buffer_write s dat =
      let short = ltb s.bufsz (s.pos + length dat) in
      let room = if short then make_room s (length dat) else s in
      if short && not s.owned
      then none
      else some (record room { buf = overwrite room.buf room.pos dat; pos = room.pos + length dat })

  abbrev pub buffer_methods : Methods Storage
  buffer_methods = record { write = buffer_write; read = buffer_read }

  -- `ioport_create_buffer (NULL, sz)`
  pub create_owned : ℕ → IoPort Storage
  unfolding fresh
  create_owned sz = record {
    storage = record { buf = fresh sz; bufsz = sz; pos = 0; rpos = 0; owned = true };
    bitpos = 0;
    bitbuffer = 0;
  }

-- `ioport_create_buffer (buf, sz)`
pub create_over : List ℕ → IoPort Storage
create_over buf = record {
  storage = record { buf = buf; bufsz = length buf; pos = 0; rpos = 0; owned = false };
  bitpos = 0;
  bitbuffer = 0;
}

pub buffer_read_available : Storage → ℕ
buffer_read_available s = if s.pos == 0 then s.bufsz - s.rpos else s.pos - s.rpos

pub buffer_write_available : Storage → ℕ
buffer_write_available s = s.bufsz - s.pos

pub buffer_reset_read : Storage → Storage
buffer_reset_read s = record s { rpos = 0 }
