-- ===== src/Storage/Laws.antt =====
-- Keys in a table, and what a commit does.
use mine_intelligence.Prelude.{
  Bool, List, [], any, ap, append-nil, arith, eq_iff, eq_refl, false, not, refl, some, true, ◌&&◌,
  ◌++◌, ◌||◌, ◌∷◌, ◌≡◌,
}
use mine_intelligence.Storage.{
  Event, EventId, Session, commit, distinct, named, same_delivery, same_event, same_id, ulid,
}

pub same_id_refl : (i : EventId) → same_id i i ≡ true
unfolding same_id
same_id_refl (ulid n) = ground arith
same_id_refl (named s) = eq_refl s

pub same_id_iff : (i j : EventId) → same_id i j ≡ true → i ≡ j
unfolding same_id
same_id_iff (ulid m) (ulid n) h = ground arith
same_id_iff (named s) (named t) h = ap named ((eq_iff s t).0 h)
same_id_iff (ulid m) (named t) h = cc
same_id_iff (named s) (ulid n) h = cc

module _ {ℓ} {A : Type ℓ} where
  pub any-append : (p : A → Bool) (xs ys : List A) → any p (xs ++ ys) ≡ (any p xs || any p ys)
  any-append p [] ys = refl
  any-append p (x ∷ xs) ys = ground (arith, any-append p xs ys)

  -- Some row of the first list clashes with one of the second.
  abbrev pub clash : (A → A → Bool) → List A → List A → Bool
  clash same [] ys = false
  clash same (x ∷ xs) ys = any (same x) ys || clash same xs ys

  pub distinct-append :
      (same : A → A → Bool) (xs ys : List A)
      → distinct same (xs ++ ys)
        ≡ (distinct same xs && (distinct same ys && not (clash same xs ys)))
  unfolding distinct
  distinct-append same [] ys = ground arith
  distinct-append same (x ∷ xs) ys =
      ground (arith, distinct-append same xs ys, any-append (same x) xs ys)

-- The flushed rows keep their keys, and nothing waits.
pub record IsClean (s : Session) : Type 0 where
  pub no_events : s.added_events ≡ []
  pub no_notifications : s.added_notifications ≡ []
  pub events_distinct : distinct same_event s.events ≡ true
  pub notifications_distinct : distinct same_delivery s.notifications ≡ true

-- A commit that succeeds leaves the keys distinct and nothing waiting.
pub commit-IsClean : (s t : Session) → commit s ≡ some t → IsClean t
unfolding commit
commit-IsClean s t h = ground arith

pub commit-append :
    (s t : Session)
    → commit s ≡ some t
    → (t.events ≡ s.events ++ s.added_events) × (t.added_events ≡ [])
unfolding commit
commit-append s t h = ground arith

-- A commit with nothing waiting changes nothing.
pub commit_again : (s : Session) → IsClean s → commit s ≡ some s
unfolding commit
commit_again s c = ground (arith, append-nil s.events, append-nil s.notifications, c)

-- The rows of the alarm queue, those that wait for a flush last.
abbrev pub all_events : Session → List Event
all_events s = s.events ++ s.added_events
