-- ===== src/Watch/Badness.antt =====
-- What `calculate_badness` adds up.
use opticon.Prelude.{
  ℕ, zero, suc, ◌+◌, ◌≡◌, ◌<◌, ◌≤◌, refl, sym, ap, ◌∙◌, Bool, true, false, Option, some, List, [],
  ◌∷◌, length, ltb, leb, ◌==◌, arith, Bool-cases, inl, inr, ◌⊎◌, replicate, length-replicate,
}
use opticon.Meter.{
  Meter, words, sz_empty_val, at_least_one, get_uint, mtype_int, element, as_words, type_of,
}
use opticon.Watch.{
  WatchType, uint_lt, uint_gt, count, WatchTrigger, level, WatchData, u64, WatchAdjust, MeterWatch,
  Doubles,
}
use opticon.Watch.Calculate.{is_bad, as_u64, adjusted, higher, badness_loop, calculate_badness}

-- The sum of `n` times the badness of a watch, from the left.
unfoldable pub times : Doubles → ℕ → ℕ → ℕ → ℕ
times dbl badness zero res = res
times dbl badness (suc n) res = times dbl badness n (dbl.plus res badness)

-- The level after `n` bad values.
abbrev pub level_after : WatchTrigger → ℕ → WatchTrigger → WatchTrigger
level_after trigger zero maxtrig = maxtrig
level_after trigger (suc n) maxtrig = higher trigger maxtrig

unfoldable pub count_true : List Bool → ℕ
count_true [] = 0
count_true (false ∷ bs) = count_true bs
count_true (true ∷ bs) = suc (count_true bs)

-- What the watch says of the values from `i` on.
abbrev pub Says : Doubles → MeterWatch → WatchData → Meter → ℕ → List Bool → Type 0
Says dbl w dat m i [] = Unit
Says dbl w dat m i (b ∷ bs) = (is_bad dbl w.tp dat m i ≡ some b) × Says dbl w dat m (i + 1) bs

higher_twice : (t u : WatchTrigger) → higher t (higher t u) ≡ higher t u
higher_twice t u = elim (Bool-cases (ltb (level u) (level t))) [
  | inl e ↦ let same : ltb (level t) (level t) ≡ false = ground arith in rw (e, same) refl
  | inr e ↦ rw (e, e) refl
]

level_after_one :
    (t u : WatchTrigger) (n : ℕ) → level_after t n (higher t u) ≡ level_after t (suc n) u
level_after_one t u zero = refl
level_after_one t u (suc n) = higher_twice t u

pub badness_loop_lem :
    (dbl : Doubles) (w : MeterWatch) (dat : WatchData) (m : Meter) (i res : ℕ) (u : WatchTrigger)
    (bs : List Bool)
    → Says dbl w dat m i bs
    → badness_loop dbl w dat m (length bs) i (res, u)
      ≡ some (times dbl w.badness (count_true bs) res, level_after w.trigger (count_true bs) u)
unfolding badness_loop times count_true
badness_loop_lem dbl w dat m i res u [] says = refl
badness_loop_lem dbl w dat m i res u (false ∷ bs) (e, says) =
    rw e (badness_loop_lem dbl w dat m (i + 1) res u bs says)
badness_loop_lem dbl w dat m i res u (true ∷ bs) (e, says) = rw e (
    badness_loop_lem dbl w dat m (i + 1) (dbl.plus res w.badness) (higher w.trigger u) bs says
    ∙ ap (λ t. some (times dbl w.badness (count_true bs) (dbl.plus res w.badness), t))
        (level_after_one w.trigger u (count_true bs)))

-- what a watch for integers says of one
abbrev pub compares : WatchType → ℕ → ℕ → Bool
compares uint_gt t v = ltb t v
compares uint_lt t v = ltb v t
compares _ t v = false

abbrev pub verdicts : (ℕ → Bool) → List ℕ → List Bool
verdicts test [] = []
verdicts test (v ∷ vs) = test v ∷ verdicts test vs

-- a meter of integers that holds these values
pub record HoldsWords (m : Meter) (ws : List ℕ) : Type 0 where
  pub type : type_of m ≡ mtype_int
  pub few : m.count < sz_empty_val
  pub block : m.d ≡ words ws
  pub size : length ws ≡ at_least_one m.count

element-below {ℓ} :
    {A : Type ℓ} (xs : List A) (v : A) (i : ℕ) → element xs i ≡ some v → i < length xs
unfolding element
element-below [] v i e = ground arith
element-below (x ∷ xs) v zero e = ground arith
element-below (x ∷ xs) v (suc i) e = omega (arith, element-below xs v i e)

get_uint-HoldsWords :
    (m : Meter) (ws : List ℕ) (i v : ℕ)
    → HoldsWords m ws
    → element ws i ≡ some v
    → get_uint m i ≡ some v
unfolding get_uint as_words
get_uint-HoldsWords m ws i v holds e =
    let few = holds.few in
    let size = holds.size in
    let below = element-below ws v i e in
    let small : leb sz_empty_val m.count ≡ false = ground arith in
    let low : ltb i (at_least_one m.count) ≡ true = ground arith in
    let type : (type_of m == mtype_int) ≡ true = ap (λ t. t == mtype_int) holds.type in
    rw (small, low, type, holds.block) e

is_bad-compares :
    (dbl : Doubles) (tp : WatchType) (t : ℕ) (m : Meter) (i v : ℕ)
    → (tp ≡ uint_gt) ⊎ (tp ≡ uint_lt)
    → get_uint m i ≡ some v
    → is_bad dbl tp (u64 t) m i ≡ some (compares tp t v)
unfolding is_bad as_u64
is_bad-compares dbl tp t m i v (inl e) at = rw (e, at) refl
is_bad-compares dbl tp t m i v (inr e) at = rw (e, at) refl

Says-verdicts :
    (dbl : Doubles) (w : MeterWatch) (t : ℕ) (m : Meter) (ws vs : List ℕ) (i : ℕ)
    → HoldsWords m ws
    → (w.tp ≡ uint_gt) ⊎ (w.tp ≡ uint_lt)
    → ((j : ℕ) → element ws (i + j) ≡ element vs j)
    → Says dbl w (u64 t) m i (verdicts (compares w.tp t) vs)
unfolding element
Says-verdicts dbl w t m ws [] i holds kind at = tt
Says-verdicts dbl w t m ws (v ∷ vs) i holds kind at =
    let here : i + 0 ≡ i = omega arith in
    (
      is_bad-compares dbl w.tp t m i v kind
          (get_uint-HoldsWords m ws i v holds (ap (element ws) (sym here) ∙ at 0)),
      Says-verdicts dbl w t m ws vs (i + 1) holds kind (λ j.
          let step : i + 1 + j ≡ i + suc j = omega arith in ap (element ws) step ∙ at (suc j)),
    )

length-verdicts : (test : ℕ → Bool) (vs : List ℕ) → length (verdicts test vs) ≡ length vs
length-verdicts test [] = refl
length-verdicts test (v ∷ vs) = omega (arith, length-verdicts test vs)

-- A watch for integers above or below a number, which the watch or the adjustment of its level
-- gives, on a meter that holds integers: the badness is added once for each of the values that is
-- above or below, in double arithmetic from 0.0 on, whatever the weight of the adjustment, and the
-- level goes up to that of the watch if there is such a value, never down.
pub calculate_badness_lem :
    (dbl : Doubles) (m : Meter) (w : MeterWatch) (adj : Option WatchAdjust) (u : WatchTrigger)
    (ws : List ℕ) (t : ℕ)
    → HoldsWords m ws
    → (w.tp ≡ uint_gt) ⊎ (w.tp ≡ uint_lt)
    → adjusted dbl w adj ≡ u64 t
    → let n = count_true (verdicts (compares w.tp t) ws) in
      calculate_badness dbl m w adj u ≡ some (times dbl w.badness n 0, level_after w.trigger n u)
unfolding calculate_badness
calculate_badness_lem dbl m w adj u ws t holds kind e =
    let vs = verdicts (compares w.tp t) ws in
    let rounds : length vs ≡ at_least_one m.count =
      length-verdicts (compares w.tp t) ws ∙ holds.size in
    ap (λ d. badness_loop dbl w d m (at_least_one m.count) 0 (0, u)) e
    ∙ ap (λ k. badness_loop dbl w (u64 t) m k 0 (0, u)) (sym rounds)
    ∙ badness_loop_lem dbl w (u64 t) m 0 0 u vs
        (Says-verdicts dbl w t m ws ws 0 holds kind (λ j. ap (element ws) (omega arith)))

Says-replicate :
    (dbl : Doubles) (w : MeterWatch) (dat : WatchData) (m : Meter) (b : Bool) (n i : ℕ)
    → ((j : ℕ) → is_bad dbl w.tp dat m j ≡ some b)
    → Says dbl w dat m i (replicate n b)
Says-replicate dbl w dat m b zero i all = tt
Says-replicate dbl w dat m b (suc n) i all = (all i, Says-replicate dbl w dat m b n (i + 1) all)

count_true-replicate : (n : ℕ) → count_true (replicate n true) ≡ n
unfolding count_true
count_true-replicate zero = refl
count_true-replicate (suc n) = ap suc (count_true-replicate n)

level_after-higher : (t u : WatchTrigger) (n : ℕ) → 0 < n → level_after t n u ≡ higher t u
level_after-higher t u zero pos = absurd (omega arith)
level_after-higher t u (suc n) pos = refl

no_values_bad :
    (dbl : Doubles) (w : MeterWatch) (m : Meter) (t : ℕ)
    → sz_empty_val ≤ m.count
    → ((w.tp ≡ uint_lt) × (0 < t)) ⊎ ((w.tp ≡ count) × (m.count ≡ sz_empty_val) × (t ≤ 30))
    → (j : ℕ) → is_bad dbl w.tp (u64 t) m j ≡ some true
unfolding is_bad as_u64 get_uint
no_values_bad dbl w m t mark (inl (tp, pos)) j =
    let empty : leb sz_empty_val m.count ≡ true = ground arith in
    let less : ltb 0 t ≡ true = ground arith in rw (tp, empty, less) refl
no_values_bad dbl w m t mark (inr (tp, value, low)) j =
    let less : leb t 30 ≡ true = ground arith in rw (tp, value) (ap some less)

-- A meter without values, whose count is the mark for that or for an empty array, is read as many
-- times as the mark says: a watch for integers below a positive number adds its badness 30 times
-- to a meter with an empty value and 31 times to one with an empty array, and a watch for a number
-- of values, which that mark reaches, does so as well, for an empty value.
pub calculate_badness-no_values :
    (dbl : Doubles) (m : Meter) (w : MeterWatch) (adj : Option WatchAdjust) (u : WatchTrigger)
    (t : ℕ)
    → sz_empty_val ≤ m.count
    → ((w.tp ≡ uint_lt) × (0 < t)) ⊎ ((w.tp ≡ count) × (m.count ≡ sz_empty_val) × (t ≤ 30))
    → adjusted dbl w adj ≡ u64 t
    → calculate_badness dbl m w adj u ≡ some (times dbl w.badness m.count 0, higher w.trigger u)
unfolding calculate_badness
calculate_badness-no_values dbl m w adj u t mark kind e =
    let rounds : at_least_one m.count ≡ m.count = ground arith in
    let length' = length-replicate m.count true in
    let all = no_values_bad dbl w m t mark kind in
    ap (λ d. badness_loop dbl w d m (at_least_one m.count) 0 (0, u)) e
    ∙ ap (λ k. badness_loop dbl w (u64 t) m k 0 (0, u)) (rounds ∙ sym length')
    ∙ badness_loop_lem dbl w (u64 t) m 0 0 u (replicate m.count true)
        (Says-replicate dbl w (u64 t) m true m.count 0 all)
    ∙ ap (λ n. some (times dbl w.badness n 0, level_after w.trigger n u))
        (count_true-replicate m.count)
    ∙ ap (λ l. some (times dbl w.badness m.count 0, l))
        (level_after-higher w.trigger u m.count (omega arith))
