-- ===== src/Ioport/Encint/Fuel.antt =====
-- More fuel for the reading of an encoded integer.
use opticon.Prelude.{
  ℕ, zero, suc, ◌+◌, ◌-◌, ◌*◌, ◌%◌, ◌^◌, ◌≤◌, ◌≡◌, subst, bit_and, bit_or, some, arith, ◌==◌,
  if◌then◌else◌, Bool-cases, inl, inr,
}
use opticon.Ioport.{Methods, IoPort, read_byte}
use opticon.Ioport.Encint.{read_bytes, read_encint}

module _ {S : Type 0} (m : Methods S) where
  read_bytes-suc :
      (fuel : ℕ) (io : IoPort S) (res : ℕ) (r : ℕ × IoPort S)
      → read_bytes m fuel io res ≡ some r
      → read_bytes m (suc fuel) io res ≡ some r
  unfolding read_bytes
  read_bytes-suc zero io res r done = absurd (cc)
  read_bytes-suc (suc fuel) io res r done =
      let (d, io') = read_byte m io in
      let res' = bit_or (if res == 0 then res else res * 2 ^ 7 % 2 ^ 64) (bit_and d 0x7f) in
      elim (Bool-cases (bit_and d 0x80 == 0)) [
        | inl e ↦ rw e (rw e at done)
        | inr e ↦ rw e (read_bytes-suc fuel io' res' r (rw e at done))
      ]

  read_bytes-add :
      (k fuel : ℕ) (io : IoPort S) (res : ℕ) (r : ℕ × IoPort S)
      → read_bytes m fuel io res ≡ some r
      → read_bytes m (k + fuel) io res ≡ some r
  read_bytes-add zero fuel io res r done =
      let e : fuel ≡ 0 + fuel = omega arith in subst (λ n. read_bytes m n io res ≡ some r) e done
  read_bytes-add (suc k) fuel io res r done =
      let e : suc (k + fuel) ≡ suc k + fuel = omega arith in
      subst (λ n. read_bytes m n io res ≡ some r) e
        (read_bytes-suc (k + fuel) io res r (read_bytes-add k fuel io res r done))

  pub read_encint-more :
      (fuel more : ℕ) (io : IoPort S) (r : ℕ × IoPort S)
      → fuel ≤ more
      → read_encint m fuel io ≡ some r
      → read_encint m more io ≡ some r
  unfolding read_encint
  read_encint-more fuel more io r h done =
      let e : more - fuel + fuel ≡ more = omega arith in
      subst (λ n. read_bytes m n io 0 ≡ some r) e (read_bytes-add (more - fuel) fuel io 0 r done)
