-- ===== src/Auth/Cache.antt =====
-- src/minemonitor/auth/cache.py: verified credentials, remembered for a short time. The keyed hash
-- of a password under the salt of the process is an argument, `token`, and two tokens are compared
-- as texts.
pub mod Log
mod Tests
use mine_intelligence.Prelude.{
  Bool, String, [], false, if◌then◌else◌, leb, none, some, str_eq, ℕ, ◌&&◌, ◌+◌, ◌∷◌,
}
use mine_intelligence.Prelude.Table.{Table, insert, lookup}

-- A dictionary's value: when it expires, the password's token, and the stored password hash.
pub record Entry : Type 0 where
  pub expiry : ℕ
  pub token : String
  pub fingerprint : String

-- cache.pop(username, None)
unfoldable pub remove : Table Entry → String → Table Entry
remove [] k = []
remove ((j, v) ∷ t) k = let rest = remove t k in if str_eq j k then rest else (j, v) ∷ rest

module _ (token : String → String) where
  unfoldable pub check : Table Entry → String → String → String → ℕ → Bool
  check cache username password password_hash now = elim (lookup cache username) [
    | none ↦ false
    | some entry ↦
        if leb entry.expiry now
        then false
        else str_eq entry.fingerprint password_hash && str_eq entry.token (token password)
  ]

  unfoldable pub store : Table Entry → String → String → String → ℕ → ℕ → Table Entry
  store cache username password password_hash ttl_s now =
      insert cache username
        (record { expiry = now + ttl_s; token = token password; fingerprint = password_hash })

unfoldable pub invalidate : Table Entry → String → Table Entry
invalidate cache username = remove cache username

unfoldable pub clear_all : Table Entry → Table Entry
clear_all cache = []
