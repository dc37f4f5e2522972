-- ===== src/Auth/Lockout.antt =====
-- src/minemonitor/auth/lockout.py: failed-login lockout kept in the table `auth_lockout`.
-- Times are whole microseconds in UTC, the resolution of a Python datetime.
pub mod Laws
mod Tests
use mine_intelligence.Prelude.{
  Bool, List, Option, String, [], false, if◌then◌else◌, is_some, leb, ltb, none, not, some, true, ℕ,
  ◌*◌, ◌+◌, ◌==◌, ◌||◌, ◌∷◌,
}
use mine_intelligence.Prelude.Table.{Table, insert, lookup}

pub record AuthLockout : Type 0 where
  pub username : String
  pub failed_count : ℕ
  pub locked_until : Option ℕ
  pub updated_at : ℕ

-- `timedelta(minutes=n)` in microseconds
abbrev pub minutes : ℕ → ℕ
minutes n = n * 60000000

row_locked : Option AuthLockout → ℕ → Bool
row_locked none now = false
row_locked (some row) now = elim row.locked_until [ none ↦ false | some until ↦ ltb now until ]

pub is_locked : Table AuthLockout → String → ℕ → Bool
unfolding row_locked
is_locked session username now = row_locked (lookup session username) now

-- the row that `session.get` finds, or the fresh one that is added
row_or_new : Option AuthLockout → String → ℕ → AuthLockout
row_or_new none username now = record {
  username = username;
  failed_count = 0;
  locked_until = none;
  updated_at = now;
}
row_or_new (some row) username now = row

counted : AuthLockout → ℕ → ℕ → ℕ → AuthLockout × Bool
counted row max_failures lockout_minutes now =
    let row' = record row { failed_count = row.failed_count + 1; updated_at = now } in
    if leb max_failures row'.failed_count
    then (record row' { locked_until = some (now + minutes lockout_minutes) }, true)
    else (row', false)

pub record_failure : Table AuthLockout → String → ℕ → ℕ → ℕ → Table AuthLockout × Bool
unfolding row_or_new counted
record_failure session username max_failures lockout_minutes now =
    let (row, locked) =
      counted (row_or_new (lookup session username) username now) max_failures lockout_minutes
        now in
    (insert session username row, locked)

cleared : Table AuthLockout → String → ℕ → Option AuthLockout → Table AuthLockout
cleared session username now none = session
cleared session username now (some row) =
    if not (row.failed_count == 0) || is_some row.locked_until
    then insert session username
        (record row { failed_count = 0; locked_until = none; updated_at = now })
    else session

pub clear : Table AuthLockout → String → ℕ → Table AuthLockout
unfolding cleared
clear session username now = cleared session username now (lookup session username)

-- A run of failed attempts, one at each of the times given.
pub failures : Table AuthLockout → String → ℕ → ℕ → List ℕ → Table AuthLockout
failures session username max_failures lockout_minutes [] = session
failures session username max_failures lockout_minutes (now ∷ later) =
    failures (record_failure session username max_failures lockout_minutes now).0 username
      max_failures lockout_minutes later
