-- ===== src/Notifications/Dispatch/Batch.antt =====
-- Rows by id, and the batch that a drain takes: the order by time and the limit keep the rows.
use mine_intelligence.Prelude.{
  Bool, List, Option, [], any, arith, false, find, if◌then◌else◌, length, none, not, refl, select,
  some, suc, take, true, zero, ℕ, ◌&&◌, ◌==◌, ◌||◌, ◌∷◌, ◌≡◌, ◌≤◌,
}
use mine_intelligence.Storage.{Notification, distinct}
use mine_intelligence.Notifications.Dispatch.{by_time, insert_by_time}

abbrev pub row_of : List Notification → ℕ → Option Notification
row_of ns i = find (λ (n : Notification). n.id == i) ns

abbrev pub same_row : Notification → Notification → Bool
same_row n m = m.id == n.id

pub row_of-none :
    (ns : List Notification) (n : Notification)
    → any (same_row n) ns ≡ false
    → row_of ns n.id ≡ none
row_of-none [] n h = refl
row_of-none (m ∷ ms) n h = ground (arith, row_of-none ms n)

any-insert_by_time :
    (p : Notification → Bool) (n : Notification) (ns : List Notification)
    → any p (insert_by_time n ns) ≡ (p n || any p ns)
unfolding insert_by_time
any-insert_by_time p n [] = ground arith
any-insert_by_time p n (m ∷ ms) = ground (arith, any-insert_by_time p n ms)

pub any-by_time : (p : Notification → Bool) (ns : List Notification) → any p (by_time ns) ≡ any p ns
unfolding by_time
any-by_time p [] = refl
any-by_time p (n ∷ ns) = ground (arith, any-insert_by_time p n (by_time ns), any-by_time p ns)

distinct-insert_by_time :
    (n : Notification) (ns : List Notification)
    → distinct same_row (insert_by_time n ns) ≡ (not (any (same_row n) ns) && distinct same_row ns)
unfolding insert_by_time distinct
distinct-insert_by_time n [] = refl
distinct-insert_by_time n (m ∷ ms) =
    ground (arith, distinct-insert_by_time n ms, any-insert_by_time (same_row m) n ms)

pub distinct-by_time :
    (ns : List Notification) → distinct same_row (by_time ns) ≡ distinct same_row ns
unfolding by_time distinct
distinct-by_time [] = refl
distinct-by_time (n ∷ ns) = ground (
  arith,
  distinct-insert_by_time n (by_time ns),
  any-by_time (same_row n) ns,
  distinct-by_time ns,
)

row_of-insert_by_time :
    (n : Notification) (ns : List Notification) (i : ℕ)
    → any (same_row n) ns ≡ false
    → row_of (insert_by_time n ns) i ≡ (if n.id == i then some n else row_of ns i)
unfolding insert_by_time
row_of-insert_by_time n [] i h = refl
row_of-insert_by_time n (m ∷ ms) i h = ground (arith, row_of-insert_by_time n ms i)

pub row_of-by_time :
    (ns : List Notification) (i : ℕ)
    → distinct same_row ns ≡ true
    → row_of (by_time ns) i ≡ row_of ns i
unfolding by_time distinct
row_of-by_time [] i d = refl
row_of-by_time (n ∷ ns) i d = ground (
  arith,
  row_of-insert_by_time n (by_time ns) i,
  any-by_time (same_row n) ns,
  row_of-by_time ns i,
)

pub any-select :
    (p q : Notification → Bool) (ns : List Notification)
    → any p ns ≡ false
    → any p (select q ns) ≡ false
any-select p q [] h = refl
any-select p q (n ∷ ns) h = ground (arith, any-select p q ns)

pub distinct-select :
    (q : Notification → Bool) (ns : List Notification)
    → distinct same_row ns ≡ true
    → distinct same_row (select q ns) ≡ true
unfolding distinct
distinct-select q [] d = refl
distinct-select q (n ∷ ns) d = ground (arith, distinct-select q ns, any-select (same_row n) q ns)

unfoldable pub keep_if : (Notification → Bool) → Option Notification → Option Notification
keep_if q none = none
keep_if q (some n) = if q n then some n else none

pub row_of-select :
    (q : Notification → Bool) (ns : List Notification) (i : ℕ)
    → distinct same_row ns ≡ true
    → row_of (select q ns) i ≡ keep_if q (row_of ns i)
unfolding distinct keep_if
row_of-select q [] i d = refl
row_of-select q (n ∷ ns) i d =
    ground (arith, row_of-select q ns i, row_of-none (select q ns) n, any-select (same_row n) q ns)

pub any-take :
    (p : Notification → Bool) (k : ℕ) (ns : List Notification)
    → any p ns ≡ false
    → any p (take k ns) ≡ false
any-take p zero ns h = refl
any-take p (suc k) [] h = refl
any-take p (suc k) (n ∷ ns) h = ground (arith, any-take p k ns)

pub distinct-take :
    (k : ℕ) (ns : List Notification)
    → distinct same_row ns ≡ true
    → distinct same_row (take k ns) ≡ true
unfolding distinct
distinct-take zero ns d = refl
distinct-take (suc k) [] d = refl
distinct-take (suc k) (n ∷ ns) d = ground (arith, distinct-take k ns, any-take (same_row n) k ns)

pub row_of-take :
    (k : ℕ) (ns : List Notification) (i : ℕ) → length ns ≤ k → row_of (take k ns) i ≡ row_of ns i
row_of-take zero [] i h = refl
row_of-take zero (n ∷ ns) i h = absurd (omega arith)
row_of-take (suc k) [] i h = refl
row_of-take (suc k) (n ∷ ns) i h = ground (arith, row_of-take k ns i)

length-insert_by_time :
    (n : Notification) (ns : List Notification) → length (insert_by_time n ns) ≡ suc (length ns)
unfolding insert_by_time
length-insert_by_time n [] = refl
length-insert_by_time n (m ∷ ms) = ground (arith, length-insert_by_time n ms)

pub length-by_time : (ns : List Notification) → length (by_time ns) ≡ length ns
unfolding by_time
length-by_time [] = refl
length-by_time (n ∷ ns) = omega (arith, length-insert_by_time n (by_time ns), length-by_time ns)
