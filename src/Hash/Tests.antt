-- ===== src/Hash/Tests.antt =====
-- The hash at a short token.
use opticon.Prelude.{ℕ, ◌≡◌, List, refl}
use opticon.Prelude.Text.{codes}
use opticon.Hash.{hash_token, spread}

abbrev token : List ℕ
token = codes "a4f"

hash_token-case : hash_token 5138 token ≡ hash_token 5138 (codes "A4F")
unfolding hash_token spread
hash_token-case = refl
