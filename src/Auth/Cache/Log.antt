-- ===== src/Auth/Cache/Log.antt =====
-- What the cache remembers of its calls (src/minemonitor/auth/cache.py).
use mine_intelligence.Prelude.{
  Bool, List, String, [], arith, eq_iff, false, if◌then◌else◌, ltb, none, refl, str_eq, ℕ, ◌&&◌,
  ◌+◌, ◌∷◌, ◌≡◌,
}
use mine_intelligence.Prelude.Table.{Table, lookup, lookup-insert}
use mine_intelligence.Auth.Cache.{Entry, check, clear_all, invalidate, remove, store}

-- A call that changes the cache.
pub data Call : Type 0 where
  stored : String → String → String → ℕ → ℕ → Call
  invalidated : String → Call
  cleared : Call

lookup-remove :
    (t : Table Entry) (k j : String)
    → lookup (remove t k) j ≡ (if str_eq k j then none else lookup t j)
unfolding remove lookup
lookup-remove [] k j = ground arith
lookup-remove ((i, v) ∷ t) k j =
    ground (arith, eq_iff k j, eq_iff i k, eq_iff i j, lookup-remove t k j)

module _ (token : String → String) where
  -- The cache after some calls, the newest first.
  unfoldable pub cache_after : List Call → Table Entry
  cache_after [] = []
  cache_after (stored u p h ttl t ∷ calls) = store token (cache_after calls) u p h ttl t
  cache_after (invalidated u ∷ calls) = invalidate (cache_after calls) u
  cache_after (cleared ∷ calls) = clear_all (cache_after calls)

  -- The newest call about the user is one that stored this credential, and it has not expired.
  unfoldable pub is_verified : List Call → String → String → String → ℕ → Bool
  is_verified [] username password password_hash now = false
  is_verified (stored u p h ttl t ∷ calls) username password password_hash now =
      let older = is_verified calls username password password_hash now in
      if str_eq u username
      then ltb now (t + ttl) && (str_eq h password_hash && str_eq (token p) (token password))
      else older
  is_verified (invalidated u ∷ calls) username password password_hash now =
      let older = is_verified calls username password password_hash now in
      if str_eq u username then false else older
  is_verified (cleared ∷ calls) username password password_hash now = false

  -- After any calls, a credential is taken from the cache exactly if the newest call about its user
  -- stored a password of the same token with the same stored hash and has not expired yet, and no
  -- call has cleared the cache since.
  pub check-cache_after :
      (calls : List Call) (username password password_hash : String) (now : ℕ)
      → check token (cache_after calls) username password password_hash now
        ≡ is_verified calls username password password_hash now
  unfolding check cache_after is_verified store invalidate clear_all lookup
  check-cache_after [] u p h now = refl
  check-cache_after (stored u' p' h' ttl t ∷ calls) u p h now =
      let entry : Entry = record { expiry = t + ttl; token = token p'; fingerprint = h' } in
      let found = lookup-insert (cache_after calls) u' u entry in
      ground (arith, found, check-cache_after calls u p h now)
  check-cache_after (invalidated u' ∷ calls) u p h now =
      ground (arith, lookup-remove (cache_after calls) u' u, check-cache_after calls u p h now)
  check-cache_after (cleared ∷ calls) u p h now = refl
