-- ===== src/Notifications/Outbox/Laws.antt =====
-- What a call of `enqueue_for_event` adds (src/minemonitor/notifications/outbox.py).
use mine_intelligence.Storage.Laws.{any-append, clash, same_id_refl}
use mine_intelligence.Prelude.{
  Bool, Bool-cases, List, String, [], any, ap, append-nil, append_assoc, arith, eq_refl, false,
  if◌then◌else◌, inl, inr, length, map, refl, str_eq, true, ℕ, ◌&&◌, ◌++◌, ◌+◌, ◌||◌, ◌∷◌, ◌≡◌,
}
use mine_intelligence.Storage.{
  Event, EventId, Notification, Session, distinct, same_delivery, same_id,
}
use mine_intelligence.Notifications.Outbox.{enqueue_each, exists, new_row}

-- The rows that the loop adds: one for each target that no flushed row serves.
unfoldable pub fresh_rows : Session → Event → ℕ → ℕ → List (String × String) → List Notification
fresh_rows s event now drawn [] = []
fresh_rows s event now drawn (target ∷ targets) =
    let row = new_row event now drawn target in
    let skip = exists s row in
    let rest = fresh_rows s event now (if skip then drawn else drawn + 1) targets in
    if skip then rest else row ∷ rest

-- The state that the loop leaves, and its count.
unfoldable pub with_rows : Session → List Notification → Session
with_rows s rows = record s {
  added_notifications = s.added_notifications ++ rows;
  drawn = s.drawn + length rows;
}

same_skip :
    (s : Session) (event : Event) (now id j : ℕ) (target : String × String)
    → exists s (new_row event now id target) ≡ exists s (new_row event now j target)
unfolding exists new_row same_delivery
same_skip s event now id j target = refl

exists-with :
    (s t : Session) (n : Notification) → s.notifications ≡ t.notifications → exists s n ≡ exists t n
unfolding exists
exists-with s t n h = rw h

pub fresh_rows-with :
    (s t : Session) (event : Event) (now d : ℕ) (targets : List (String × String))
    → s.notifications ≡ t.notifications
    → fresh_rows s event now d targets ≡ fresh_rows t event now d targets
unfolding fresh_rows
fresh_rows-with s t event now d [] h = refl
fresh_rows-with s t event now d (x ∷ xs) h = ground (
  arith,
  exists-with s t (new_row event now d x) h,
  fresh_rows-with s t event now d xs h,
  fresh_rows-with s t event now (d + 1) xs h,
)

pub enqueue_each_lem :
    (s : Session) (event : Event) (now added : ℕ) (targets : List (String × String))
    → enqueue_each s event now added targets ≡ (
      with_rows s (fresh_rows s event now s.drawn targets),
      added + length (fresh_rows s event now s.drawn targets),
    )
unfolding enqueue_each fresh_rows with_rows
enqueue_each_lem s event now added [] = ground (arith, append-nil s.added_notifications)
enqueue_each_lem s event now added (x ∷ xs) =
    let row = new_row event now s.drawn x in
    let s' : Session = record s {
      added_notifications = s.added_notifications ++ row ∷ [];
      drawn = s.drawn + 1;
    } in
    ground (
      arith,
      enqueue_each_lem s event now added xs,
      enqueue_each_lem s' event now (added + 1) xs,
      fresh_rows-with s' s event now (s.drawn + 1) xs refl,
      append_assoc s.added_notifications (row ∷ []) (fresh_rows s event now (s.drawn + 1) xs),
    )

-- The target that a row is for.
unfoldable pub target_of : Notification → String × String
target_of n = (n.channel, n.target)

-- The rows of one event for a list of targets, when no row of that event is flushed.
abbrev pub IsUnserved : Session → EventId → Type 0
IsUnserved s i = any (λ (n : Notification). same_id n.event_id i) s.notifications ≡ false

any_weaken :
    (p q : Notification → Bool) (ns : List Notification)
    → ((n : Notification) → q n ≡ true → p n ≡ true)
    → any p ns ≡ false
    → any q ns ≡ false
any_weaken p q [] imp h = refl
any_weaken p q (n ∷ ns) imp h = ground (arith, imp n, any_weaken p q ns imp)

exists-IsUnserved :
    (s : Session) (event : Event) (now d : ℕ) (target : String × String)
    → IsUnserved s event.event_id
    → exists s (new_row event now d target) ≡ false
unfolding exists same_delivery new_row
exists-IsUnserved s event now d target h =
    any_weaken (λ n. same_id n.event_id event.event_id)
      (λ n. same_delivery n (new_row event now d target)) s.notifications (λ n e. ground arith) h

pub targets-fresh_rows :
    (s : Session) (event : Event) (now d : ℕ) (targets : List (String × String))
    → IsUnserved s event.event_id
    → map target_of (fresh_rows s event now d targets) ≡ targets
unfolding fresh_rows target_of new_row
targets-fresh_rows s event now d [] h = refl
targets-fresh_rows s event now d (x ∷ xs) h =
    rw (exists-IsUnserved s event now d x h, fresh_rows)
      (unfold new_row in
        ap (λ (r : List (String × String)). x ∷ r) (targets-fresh_rows s event now (d + 1) xs h))

abbrev pub same_target : String × String → String × String → Bool
same_target a b = str_eq a.0 b.0 && str_eq a.1 b.1

any-same_delivery :
    (s : Session) (event : Event) (now d e : ℕ) (x : String × String)
    (targets : List (String × String))
    → IsUnserved s event.event_id
    → any (same_delivery (new_row event now d x)) (fresh_rows s event now e targets)
      ≡ any (same_target x) targets
unfolding fresh_rows new_row same_delivery
any-same_delivery s event now d e x [] h = refl
any-same_delivery s event now d e x (y ∷ ys) h =
    rw (exists-IsUnserved s event now e y h, fresh_rows)
      (rw (any-same_delivery s event now d (e + 1) x ys h) (rw (same_id_refl event.event_id)))

pub distinct-fresh_rows :
    (s : Session) (event : Event) (now d : ℕ) (targets : List (String × String))
    → IsUnserved s event.event_id
    → distinct same_delivery (fresh_rows s event now d targets) ≡ distinct same_target targets
unfolding fresh_rows distinct
distinct-fresh_rows s event now d [] h = refl
distinct-fresh_rows s event now d (x ∷ xs) h =
    rw (exists-IsUnserved s event now d x h, fresh_rows)
      (rw (any-same_delivery s event now d (d + 1) x xs h)
        (rw (distinct-fresh_rows s event now (d + 1) xs h)))

-- The flushed rows do not clash with the added ones.
any-other_event :
    (s : Session) (event : Event) (n : Notification) (now d : ℕ) (targets : List (String × String))
    → same_id n.event_id event.event_id ≡ false
    → any (same_delivery n) (fresh_rows s event now d targets) ≡ false
unfolding fresh_rows new_row same_delivery
any-other_event s event n now d [] h = refl
any-other_event s event n now d (x ∷ xs) h =
    unfold new_row same_delivery in
    ground (arith, any-other_event s event n now d xs h, any-other_event s event n now (d + 1) xs h)

pub clash-fresh_rows :
    (s : Session) (event : Event) (ns : List Notification) (now d : ℕ)
    (targets : List (String × String))
    → any (λ (n : Notification). same_id n.event_id event.event_id) ns ≡ false
    → clash same_delivery ns (fresh_rows s event now d targets) ≡ false
clash-fresh_rows s event [] now d targets h = refl
clash-fresh_rows s event (n ∷ ns) now d targets h =
    ground
      (arith, any-other_event s event n now d targets, clash-fresh_rows s event ns now d targets)

same_delivery_self :
    (event : Event) (now now' d e : ℕ) (x : String × String)
    → same_delivery (new_row event now d x) (new_row event now' e x) ≡ true
unfolding same_delivery new_row
same_delivery_self event now now' d e x =
    ground (arith, same_id_refl event.event_id, eq_refl x.0, eq_refl x.1)

-- A row is found among the flushed ones, whichever draw and time it is built with.
exists_left :
    (s t : Session) (event : Event) (now now' d d' : ℕ) (more : List Notification)
    (x : String × String)
    → t.notifications ≡ s.notifications ++ more
    → exists s (new_row event now d x) ≡ true
    → exists t (new_row event now' d' x) ≡ true
unfolding exists new_row same_delivery
exists_left s t event now now' d d' more x h e =
    rw (h, exists)
      (rw any-append
        (ap (λ (b : Bool). b || any (λ n. same_delivery n (new_row event now' d' x)) more) e))

exists_right :
    (s t : Session) (event : Event) (now now' d d' : ℕ) (pre more : List Notification)
    (x : String × String)
    → t.notifications ≡ s.notifications ++ (pre ++ new_row event now d x ∷ more)
    → exists t (new_row event now' d' x) ≡ true
unfolding exists
exists_right s t event now now' d d' pre more x h =
    let p = λ (n : Notification). same_delivery n (new_row event now' d' x) in
    rw (h, exists)
      (ground (
        arith,
        any-append p s.notifications (pre ++ new_row event now d x ∷ more),
        any-append p pre (new_row event now d x ∷ more),
        same_delivery_self event now now' d d' x,
      ))

-- Once the rows of a list of targets are flushed, the same call finds nothing to add.
pub fresh_rows-again :
    (s t : Session) (event : Event) (now now' d d' : ℕ) (pre : List Notification)
    (targets : List (String × String))
    → t.notifications ≡ s.notifications ++ (pre ++ fresh_rows s event now d targets)
    → fresh_rows t event now' d' targets ≡ []
unfolding fresh_rows
fresh_rows-again s t event now now' d d' pre [] h = refl
fresh_rows-again s t event now now' d d' pre (x ∷ xs) h =
    elim (Bool-cases (exists s (new_row event now d x))) [
      | inl e ↦
          rw (exists_left s t event now now' d d' _ x h e, fresh_rows)
            (fresh_rows-again s t event now now' d d' pre xs (rw (e, fresh_rows) at h))
      | inr e ↦
          let h' = rw (e, fresh_rows) at h in
          rw (exists_right s t event now now' d d' pre _ x h', fresh_rows)
            (fresh_rows-again s t event now now' (d + 1) d' (pre ++ new_row event now d x ∷ []) xs
              (rw append_assoc h'))
    ]
