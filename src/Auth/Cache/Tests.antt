-- ===== src/Auth/Cache/Tests.antt =====
-- A login that is remembered and then invalidated, and the theorems at it.
use mine_intelligence.Prelude.Table.{insert, lookup}
use mine_intelligence.Prelude.{List, String, [], false, refl, true, ◌++ₛ◌, ◌∷◌, ◌≡◌}
use mine_intelligence.Auth.Cache.{check, store}
use mine_intelligence.Auth.Cache.Log.{Call, cache_after, check-cache_after, is_verified, stored}

abbrev token : String → String
token password = "k" ++ₛ password

abbrev calls : List Call
calls = stored "ben" "pw2" "h2" 30 110 ∷ stored "ana" "pw" "h1" 30 100 ∷ []

changed_password : check token (cache_after token calls) "ana" "pw" "h9" 120 ≡ false
unfolding check lookup cache_after store insert
changed_password = refl

check-cache_after_example : check token (cache_after token calls) "ana" "pw" "h1" 120 ≡ true
unfolding is_verified
check-cache_after_example = check-cache_after token calls "ana" "pw" "h1" 120
