-- ===== src/Auth/Lockout/Laws.antt =====
-- When an account is locked, and whom an attempt concerns (src/minemonitor/auth/lockout.py).
use mine_intelligence.Prelude.{
  List, Option, Option-cases, String, [], arith, eq_iff, eq_refl, false, if◌then◌else◌, inl, inr,
  leb, length, ltb, none, refl, some, ℕ, ◌&&◌, ◌++◌, ◌+◌, ◌∙◌, ◌∷◌, ◌≡◌, ◌≢◌,
}
use mine_intelligence.Prelude.Table.{Table, lookup, lookup-insert}
use mine_intelligence.Auth.Lockout.{
  AuthLockout, clear, failures, is_locked, minutes, record_failure,
}

-- The count of failures on record for an account, 0 where it has no row.
pub count_of : Option AuthLockout → ℕ
count_of none = 0
count_of (some row) = row.failed_count

pub until_of : Option AuthLockout → Option ℕ
until_of none = none
until_of (some row) = row.locked_until

count-record_failure :
    (session : Table AuthLockout) (u : String) (max mins now : ℕ)
    → count_of (lookup (record_failure session u max mins now).0 u)
      ≡ count_of (lookup session u) + 1
unfolding record_failure count_of
count-record_failure session u max mins now = rw lookup-insert (ground (arith, eq_refl u))

until-record_failure :
    (session : Table AuthLockout) (u : String) (max mins now : ℕ)
    → until_of (lookup (record_failure session u max mins now).0 u) ≡ (
        if leb max (count_of (lookup session u) + 1)
        then some (now + minutes mins)
        else until_of (lookup session u))
unfolding record_failure count_of until_of
until-record_failure session u max mins now = rw lookup-insert (ground (arith, eq_refl u))

is_locked-until :
    (session : Table AuthLockout) (u : String) (now : ℕ)
    → is_locked session u now
      ≡ (elim (until_of (lookup session u)) [ none ↦ false | some until ↦ ltb now until ])
unfolding is_locked until_of
is_locked-until session u now = ground arith

until-failures :
    (session : Table AuthLockout) (u : String) (max mins last : ℕ) (times : List ℕ)
    → until_of (lookup (failures session u max mins (times ++ last ∷ [])) u) ≡ (
        if leb max (count_of (lookup session u) + length times + 1)
        then some (last + minutes mins)
        else until_of (lookup session u))
unfolding failures
until-failures session u max mins last [] =
    ground (arith, until-record_failure session u max mins last)
until-failures session u max mins last (t ∷ ts) = ground (
  arith,
  until-failures (record_failure session u max mins t).0 u max mins last ts,
  count-record_failure session u max mins t,
  until-record_failure session u max mins t,
)

-- From an account with no row, a run of failures leaves it locked at a time `now` exactly when
-- the run has at least `max_failures` attempts and `now` is before the last attempt's lock ends.
pub failures-locked_iff :
    (session : Table AuthLockout) (u : String) (max mins last now : ℕ) (times : List ℕ)
    → lookup session u ≡ none
    → is_locked (failures session u max mins (times ++ last ∷ [])) u now
      ≡ (leb max (length times + 1) && ltb now (last + minutes mins))
unfolding count_of until_of
failures-locked_iff session u max mins last now times h = ground (
  arith,
  is_locked-until (failures session u max mins (times ++ last ∷ [])) u now,
  until-failures session u max mins last times,
)

lookup-record_failure_ne :
    (session : Table AuthLockout) (u other : String) (max mins now : ℕ)
    → other ≢ u
    → lookup (record_failure session u max mins now).0 other ≡ lookup session other
unfolding record_failure
lookup-record_failure_ne session u other max mins now h =
    rw lookup-insert (ground (arith, eq_iff u other))

-- Failed attempts on one account leave the row of every other account as it was.
pub failures-other :
    (session : Table AuthLockout) (u other : String) (max mins : ℕ) (times : List ℕ)
    → other ≢ u
    → lookup (failures session u max mins times) other ≡ lookup session other
unfolding failures
failures-other session u other max mins [] h = refl
failures-other session u other max mins (t ∷ ts) h =
    failures-other (record_failure session u max mins t).0 u other max mins ts h
    ∙ lookup-record_failure_ne session u other max mins t h

lookup-clear_other :
    (session : Table AuthLockout) (u other : String) (at : ℕ)
    → other ≢ u
    → lookup (clear session u at) other ≡ lookup session other
unfolding clear
lookup-clear_other session u other at h = elim (Option-cases (lookup session u)) [
  | inl e ↦ rw (e, clear)
  | inr (row, e) ↦
      rw (e, clear)
        (ground (
          arith,
          eq_iff u other,
          lookup-insert session u other
              (record row { failed_count = 0; locked_until = none; updated_at = at }),
        ))
]

clear_reset :
    (session : Table AuthLockout) (u : String) (at : ℕ)
    → (until_of (lookup (clear session u at) u) ≡ none)
      × (count_of (lookup (clear session u at) u) ≡ 0)
unfolding clear until_of count_of
clear_reset session u at = elim (Option-cases (lookup session u)) [
  | inl e ↦ rw (e, clear) (ground arith)
  | inr (row, e) ↦ ground (
    arith,
    eq_refl u,
    lookup-insert session u u
        (record row { failed_count = 0; locked_until = none; updated_at = at }),
  )
]

-- After a successful login the account is not locked at any time, its count of failures is 0, and
-- every other account's row is unchanged.
pub clear-unlocks :
    (session : Table AuthLockout) (u other : String) (at now : ℕ)
    → (is_locked (clear session u at) u now ≡ false)
      × (count_of (lookup (clear session u at) u) ≡ 0)
      × (other ≢ u → lookup (clear session u at) other ≡ lookup session other)
clear-unlocks session u other at now = (
  ground (arith, is_locked-until (clear session u at) u now, clear_reset session u at),
  (clear_reset session u at).1,
  lookup-clear_other session u other at,
)
