-- ===== src/Auth/Lockout/Tests.antt =====
-- Runs of the lockout, and the theorems at concrete inputs.
use mine_intelligence.Prelude.{String, [], false, refl, true, ◌∷◌, ◌≡◌}
use mine_intelligence.Prelude.Table.{Table, insert, lookup}
use mine_intelligence.Auth.Lockout.{AuthLockout, failures, is_locked, record_failure}
use mine_intelligence.Auth.Lockout.Laws.{failures-locked_iff}

-- Three failures at a threshold of three lock the account for 15 minutes.
three_lock : is_locked (failures [] "ana" 3 15 (1 ∷ 2 ∷ 3 ∷ [])) "ana" 900000002 ≡ true
unfolding failures is_locked record_failure lookup insert
three_lock = refl

failures-locked_iff_example :
    is_locked (failures [] "ana" 3 15 (1 ∷ 2 ∷ 3 ∷ [])) "ana" 900000003 ≡ false
unfolding lookup
failures-locked_iff_example = failures-locked_iff [] "ana" 3 15 3 900000003 (1 ∷ 2 ∷ []) refl

abbrev ben : String
ben = "ben"

abbrev locked_ana : Table AuthLockout
locked_ana = failures [] "ana" 1 15 (1 ∷ [])
