-- ===== src/BufferPort/Laws.antt =====
-- A buffer port that owns its block is a stream of bytes: what is written is appended, and what is
-- read comes in that order.
use opticon.Prelude.{
  ℕ, zero, suc, ◌+◌, ◌-◌, ◌≤◌, ◌<◌, ◌≡◌, refl, sym, ap, ◌∙◌, true, false, some, List, [], ◌∷◌, ◌++◌,
  arith, ltb, ◌==◌, take, drop, length, length-append, Bool-cases, inl, inr, take-append_le,
  drop-take, take-take, drop-add, length-drop-take, take_append, drop_append,
}
use opticon.BufferPort.{Storage, overwrite, grown, fresh, make_room, buffer_write, buffer_read}

pub record IsValid (s : Storage) : Type 0 where
  pub block : length s.buf ≡ s.bufsz
  pub write_in : s.pos ≤ s.bufsz
  pub read_in : s.rpos ≤ s.bufsz

-- the bytes written so far
abbrev pub written : Storage → List ℕ
written s = take s.pos s.buf

-- the bytes that a reader still gets, once something is written
abbrev pub unread : Storage → List ℕ
unread s = drop s.rpos (written s)

length-overwrite :
    (buf : List ℕ) (at : ℕ) (dat : List ℕ) → length (overwrite buf at dat) ≡ length buf
unfolding overwrite
length-overwrite [] at dat = refl
length-overwrite (x ∷ buf) (suc at) dat = ap suc (length-overwrite buf at dat)
length-overwrite (x ∷ buf) zero [] = refl
length-overwrite (x ∷ buf) zero (d ∷ dat) = ap suc (length-overwrite buf zero dat)

take-overwrite :
    (buf : List ℕ) (at : ℕ) (dat : List ℕ)
    → at + length dat ≤ length buf
    → take (at + length dat) (overwrite buf at dat) ≡ take at buf ++ dat
unfolding overwrite
take-overwrite [] zero [] h = refl
take-overwrite [] zero (d ∷ dat) h = absurd (omega arith)
take-overwrite [] (suc at) dat h = absurd (omega arith)
take-overwrite (x ∷ buf) (suc at) dat h =
    let e : suc at + length dat ≡ suc (at + length dat) = omega arith in
    rw e (ap (λ t. x ∷ t) (take-overwrite buf at dat (omega arith)))
take-overwrite (x ∷ buf) zero [] h = refl
take-overwrite (x ∷ buf) zero (d ∷ dat) h =
    let e : 0 + length (d ∷ dat) ≡ suc (0 + length dat) = omega arith in
    rw e (ap (λ t. d ∷ t) (take-overwrite buf zero dat (omega arith)))

grown_enough :
    (fuel need bufsz : ℕ)
    → need ≤ bufsz + fuel
    → (need ≤ grown fuel need bufsz) × (bufsz ≤ grown fuel need bufsz)
unfolding grown
grown_enough zero need bufsz h = (omega arith, omega arith)
grown_enough (suc fuel) need bufsz h = ground (arith, grown_enough fuel need (bufsz + 4096))

-- what a write leaves behind
pub record Wrote (s : Storage) (dat : List ℕ) (s' : Storage) : Type 0 where
  pub valid : IsValid s'
  pub owned : s'.owned ≡ s.owned
  pub rpos : s'.rpos ≡ s.rpos
  pub pos : s'.pos ≡ s.pos + length dat
  pub appended : written s' ≡ written s ++ dat

abbrev stored : Storage → List ℕ → Storage
stored r dat = record r { buf = overwrite r.buf r.pos dat; pos = r.pos + length dat }

stored-Wrote :
    (r : Storage) (dat : List ℕ)
    → IsValid r
    → r.pos + length dat ≤ r.bufsz
    → Wrote r dat (stored r dat)
stored-Wrote r dat v fits = record {
  valid = record {
    block = length-overwrite r.buf r.pos dat ∙ v.block;
    write_in = fits;
    read_in = v.read_in;
  };
  owned = refl;
  rpos = refl;
  pos = refl;
  appended = take-overwrite r.buf r.pos dat (omega (arith, v.block));
}

module _ (junk : ℕ) where
  pub length-fresh : (n : ℕ) → length (fresh junk n) ≡ n
  unfolding fresh
  length-fresh zero = refl
  length-fresh (suc n) = ap suc (length-fresh n)

  make_room-IsValid :
      (s : Storage) (sz : ℕ)
      → IsValid s
      → IsValid (make_room junk s sz)
        × (s.pos + sz ≤ (make_room junk s sz).bufsz)
        × (written (make_room junk s sz) ≡ written s)
  unfolding make_room
  make_room-IsValid s sz v =
      let bufsz = grown sz (s.pos + sz) s.bufsz in
      let (enough, wider) = grown_enough sz (s.pos + sz) s.bufsz (omega (arith, v.write_in)) in
      (
        record {
          block =
              length-append s.buf (fresh junk (bufsz - s.bufsz))
              ∙ omega (arith, length-fresh (bufsz - s.bufsz), v.block, wider);
          write_in = omega (arith, v.write_in, wider);
          read_in = omega (arith, v.read_in, wider);
        },
        enough,
        take-append_le s.pos s.buf (fresh junk (bufsz - s.bufsz))
            (omega (arith, v.block, v.write_in)),
      )

  -- A port that owns its block takes every write, and appends it.
  pub buffer_write-Wrote :
      (s : Storage) (dat : List ℕ)
      → IsValid s
      → s.owned ≡ true
      → (s' : Storage) × (buffer_write junk s dat ≡ some s') × Wrote s dat s'
  unfolding buffer_write make_room
  buffer_write-Wrote s dat v mine = elim (Bool-cases (ltb s.bufsz (s.pos + length dat))) [
    | inl short ↦
        let r = make_room junk s (length dat) in
        let (valid, fits, same) = make_room-IsValid s (length dat) v in
        let w = stored-Wrote r dat valid fits in
        (
          stored r dat,
          rw (short, mine),
          record {
            valid = w.valid;
            owned = refl;
            rpos = refl;
            pos = refl;
            appended = w.appended ∙ ap (λ t. t ++ dat) same;
          },
        )
    | inr room ↦ (stored s dat, rw room, stored-Wrote s dat v (ground arith))
  ]

-- What a reader still gets, in terms of the block.
unread_read :
    (s : Storage) (dat rest : List ℕ)
    → IsValid s
    → unread s ≡ dat ++ rest
    → (take (length dat) (drop s.rpos s.buf) ≡ dat)
      × (drop (s.rpos + length dat) (written s) ≡ rest)
      × (length dat ≤ s.pos - s.rpos)
unread_read s dat rest v e =
    let short : length dat ≤ s.pos - s.rpos =
      omega (arith, ap length e, length-append dat rest, length-drop-take s.rpos s.pos s.buf) in
    let view = take (s.pos - s.rpos) (drop s.rpos s.buf) in
    (
      sym (take-take (length dat) (s.pos - s.rpos) (drop s.rpos s.buf) short)
          ∙ ap (take (length dat)) (sym (drop-take s.rpos s.pos s.buf) ∙ e)
          ∙ take_append dat rest,
      drop-add s.rpos (length dat) (written s) ∙ ap (drop (length dat)) e ∙ drop_append dat rest,
      short,
    )

-- A read that the written bytes can serve gives the next ones, and moves past them.
pub buffer_read_lem :
    (s : Storage) (dat rest : List ℕ)
    → IsValid s
    → 0 < s.pos
    → s.rpos ≤ s.pos
    → unread s ≡ dat ++ rest
    → let s' = record s { rpos = s.rpos + length dat } in
      (buffer_read s (length dat) ≡ (some dat, s'))
      × (unread s' ≡ rest)
      × IsValid s'
      × (s'.rpos ≤ s'.pos)
unfolding buffer_read
buffer_read_lem s dat rest v pos behind e =
    let (got, left, short) = unread_read s dat rest v e in
    let s' = record s { rpos = s.rpos + length dat } in
    let inside : ltb s.bufsz (s.rpos + length dat) ≡ false = ground (arith, v.write_in) in
    let inside' : ltb s.pos (s.rpos + length dat) ≡ false = ground arith in
    let valid : IsValid s' = record {
      block = v.block;
      write_in = v.write_in;
      read_in = omega (arith, v.write_in);
    } in
    let some_written : (s.pos == 0) ≡ false = ground arith in
    (rw (inside, inside', got, some_written), left, valid, omega arith)
