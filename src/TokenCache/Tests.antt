-- ===== src/TokenCache/Tests.antt =====
-- The token cache with a few tokens.
use opticon.Prelude.{ℕ, ◌≡◌, ◌≢◌, refl, some, List, [], ◌∷◌, arith, Each-replicate, get_or, ap}
use opticon.Prelude.Text.{same, codes}
use opticon.Uuid.{Uuid}
use opticon.Hash.{hash_token, spread}
use opticon.TokenCache.{
  cleared, touched, init, entry, lookup, store_invalid, store_valid, Event, looked_up, valid,
  expired, run, step, auth_guest, auth_admin, find_invalid, find_valid, each_of, find_slot, answer,
  expire,
}
use opticon.TokenCache.Run.{IsCache, init-IsCache, run-IsCache}
use opticon.TokenCache.Store.{Lacks, IsFree-Lacks, lookup-store_valid}
use opticon.TokenCache.Revoked.{store_invalid-revokes}

abbrev token : List ℕ
token = codes "a4f"

abbrev other : List ℕ
other = codes "b7"

abbrev tenants : List Uuid
tenants = record { msb = 1; lsb = 2 } ∷ []

abbrev events : List Event
events = valid other tenants auth_admin 1010 3 ∷ looked_up other 1020 1020 ∷ expired 1070 ∷ []

run-IsCache_example : IsCache (run 5138 (init 1000) events)
run-IsCache_example = run-IsCache 5138 1000 events

lookup-store_valid_example :
    (lookup 5138 token 1900 1900 (store_valid 5138 token tenants auth_admin 1010 9 (init 1000))).0
    ≡ some (touched 1900 (entry 5138 token tenants auth_admin 1010))
unfolding init
lookup-store_valid_example =
    lookup-store_valid 5138 token tenants auth_admin 1010 9 1900 1900 (init 1000)
      (init-IsCache 1000) (omega arith)
      (Each-replicate (Lacks 5138 token) 256 cleared (IsFree-Lacks 5138 token cleared refl))
      (omega arith)

abbrev other_token : other ≢ token
other_token e = let f : 98 ≡ 97 = ap (λ (l : List ℕ). get_or l 0 0) e in omega (arith, f)

store_invalid-revokes_example :
    (touched 1030 (entry 5138 token [] auth_guest 1005)).userlevel ≡ auth_guest
unfolding same lookup run step store_invalid store_valid init hash_token spread find_invalid
    find_valid each_of find_slot answer expire
store_invalid-revokes_example =
    store_invalid-revokes 5138 token 1005 9 (valid other tenants auth_admin 1010 3 ∷ []) 1030 1030
      (init 1000) (touched 1030 (entry 5138 token [] auth_guest 1005)) (init-IsCache 1000)
      (omega arith) (other_token, tt) refl
