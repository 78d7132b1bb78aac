-- ===== src/Meter/Values.antt =====
-- Allocating and writing the values of a meter.
use opticon.Prelude.{
  none, ◌/◌, length-replicate, ℕ, zero, suc, ◌<◌, ◌≡◌, refl, ap, true, false, some, List, [], ◌∷◌,
  ◌++◌, length, length-append, arith, ltb, leb, ◌==◌, take, set, replicate, lt→ltb,
}
use opticon.Meter.{
  all_zero, Meter, no_data, words, texts, setcount, set_empty, set_uint, set_str, put, as_words,
  as_texts, sz_empty_val, type_of, at_least_one, mtype_int, mtype_str,
}

pub set_empty_lem :
    (now : ℕ) (m : Meter)
    → set_empty now m ≡ some (record m { count = sz_empty_val; lastmodified = now; d = no_data })
unfolding set_empty setcount
set_empty_lem now m = refl

set-append {ℓ} :
    {A : Type ℓ} (xs : List A) (y v : A) (ys : List A)
    → set (xs ++ y ∷ ys) (length xs) v ≡ xs ++ v ∷ ys
set-append [] y v ys = refl
set-append (x ∷ xs) y v ys = ap (λ t. x ∷ t) (set-append xs y v ys)

put-append {ℓ} :
    {A : Type ℓ} (xs : List A) (y v : A) (ys : List A)
    → put (xs ++ y ∷ ys) (length xs) v ≡ some (xs ++ v ∷ ys)
unfolding put
put-append xs y v ys =
    let low : ltb (length xs) (length (xs ++ y ∷ ys)) ≡ true =
      lt→ltb _ _ (omega (arith, length-append xs (y ∷ ys))) in
    rw low (ap some (set-append xs y v ys))

-- The next value of an integer meter that is filled in order.
pub set_uint-next :
    (now : ℕ) (m : Meter) (done : List ℕ) (old v : ℕ) (rest : List ℕ)
    → m.count < 30
    → (type_of m == mtype_int) ≡ true
    → length done < at_least_one m.count
    → m.d ≡ words (done ++ old ∷ rest)
    → set_uint now m (length done) v
      ≡ some (record m { lastmodified = now; d = words (done ++ v ∷ rest) })
unfolding set_uint as_words
set_uint-next now m done old v rest small type low stored =
    let small' : leb 30 m.count ≡ false = ground arith in
    let low' : ltb (length done) (at_least_one m.count) ≡ true = lt→ltb _ _ low in
    rw (small', low', type, stored, put-append done old v rest) refl

pub set_str-next :
    (now : ℕ) (m : Meter) (done : List (List ℕ)) (old v : List ℕ) (rest : List (List ℕ))
    → m.count < 30
    → (type_of m == mtype_str) ≡ true
    → length done < at_least_one m.count
    → m.d ≡ texts (done ++ old ∷ rest)
    → set_str now m (length done) v
      ≡ some (record m { lastmodified = now; d = texts (done ++ take 127 v ∷ rest) })
unfolding set_str as_texts
set_str-next now m done old v rest small type low stored =
    let small' : leb 30 m.count ≡ false = ground arith in
    let low' : ltb (length done) (at_least_one m.count) ≡ true = lt→ltb _ _ low in
    rw (small', low', type, stored, put-append done old (take 127 v) rest) refl

pub setcount-int :
    (now : ℕ) (m : Meter) (count : ℕ)
    → count < 30
    → type_of m ≡ mtype_int
    → setcount now m count
      ≡ some (record m {
        count = count;
        lastmodified = now;
        d = words (replicate (at_least_one count) 0);
      })
unfolding setcount
setcount-int now m count small type = rw type (ground arith)

pub setcount-str :
    (now : ℕ) (m : Meter) (count : ℕ)
    → count < 30
    → type_of m ≡ mtype_str
    → setcount now m count
      ≡ some (record m {
        count = count;
        lastmodified = now;
        d = texts (replicate (at_least_one count) []);
      })
unfolding setcount
setcount-str now m count small type = rw type (ground arith)

pub setcount-empty :
    (now : ℕ) (m : Meter) (count : ℕ)
    → count ≡ 30
    → setcount now m count ≡ some (record m { count = count; lastmodified = now; d = no_data })
unfolding setcount
setcount-empty now m count e = rw e refl

all_zero-replicate : (n : ℕ) → all_zero (replicate n 0) ≡ true
all_zero-replicate zero = refl
all_zero-replicate (suc n) = all_zero-replicate n

-- A text does not fit a block for fewer than 16 integers.
pub set_str-overflow :
    (now : ℕ) (m : Meter) (n : ℕ) (text : List ℕ)
    → m.count < 30
    → type_of m ≡ mtype_str
    → n < 16
    → m.d ≡ words (replicate n 0)
    → set_str now m 0 text ≡ none
unfolding set_str as_texts put
set_str-overflow now m n text small type few stored =
    let small' : leb 30 m.count ≡ false = ground arith in
    let low : ltb 0 (at_least_one m.count) ≡ true = ground arith in
    let too_few : length {A = ℕ} (replicate n 0) / 16 ≡ 0 =
      omega (arith, length-replicate {A = ℕ} n 0) in
    rw (small', low, type, stored, all_zero-replicate n, too_few) refl
