-- ===== src/Rules/Occupancy/Marks.antt =====
-- The episodes of zones as an alarm is marked (src/minemonitor/rules/occupancy.py).
use mathlib.Core.Path.{subst}
use mathlib.Core.Option
use mine_intelligence.Prelude.{
  All, All-any, All-weaken, Bool, Bool-cases, List, Option, Option-cases, String, [], any, arith,
  eq_iff, false, if◌then◌else◌, inl, inr, ltb, none, refl, some, str_eq, sym, true, ℕ, ◌∙◌, ◌∷◌,
  ◌≡◌,
}
use mine_intelligence.Storage.{Event, EventId, distinct, same_event, same_id}
use mine_intelligence.Storage.Laws.{same_id_iff, same_id_refl}
use mine_intelligence.Rules.Occupancy.{is_alarm_of, is_named, latest, mark_cleared}
use mine_intelligence.Rules.Occupancy.Latest.{under_way}

marked : EventId → ℕ → Event → Event
marked i now e = if same_id e.event_id i then record e { cleared_at = some now } else e

-- Marking an alarm does not change which is the latest of a zone.
latest-mark_cleared :
    (site_id zone_id : String) (i : EventId) (now : ℕ) (es : List Event)
    → latest (is_alarm_of site_id zone_id) (mark_cleared i now es)
      ≡ Option.map (marked i now) (latest (is_alarm_of site_id zone_id) es)
unfolding latest mark_cleared marked is_alarm_of
latest-mark_cleared site_id zone_id i now [] = refl
latest-mark_cleared site_id zone_id i now (e ∷ es) =
    ground (arith, latest-mark_cleared site_id zone_id i now es)

any-latest :
    (p q : Event → Bool) (es : List Event) (e : Event)
    → latest p es ≡ some e
    → any q es ≡ false
    → (p e ≡ true) × (q e ≡ false)
unfolding latest
any-latest p q [] e h k = cc
any-latest p q (x ∷ xs) e h k = elim (Option-cases (latest p xs)) [
  | inl l ↦
      let same : (p x ≡ true) × (x ≡ e) = ground (arith, l, h) in
      subst (λ (y : Event). (p y ≡ true) × (q y ≡ false)) (same.1) (same.0, ground (arith, k))
  | inr (f, l) ↦
      let (a, b) = any-latest p q xs f l (ground (arith, k)) in
      let of_f =
        λ (same : f ≡ e). subst (λ (y : Event). (p y ≡ true) × (q y ≡ false)) same (a, b) in
      elim (Bool-cases (p x)) [
        | inr m ↦ of_f (ground (arith, l, h, m))
        | inl m ↦ elim (Bool-cases (ltb x.ts f.ts)) [
          | inl u ↦ of_f (ground (arith, l, h, m, u))
          | inr u ↦
              let same : x ≡ e = ground (arith, l, h, m, u) in
              subst (λ (y : Event). (p y ≡ true) × (q y ≡ false)) same (m, ground (arith, k))
        ]
      ]
]

All-latest {ℓ} :
    (P : Event → Type ℓ) (p : Event → Bool) (es : List Event) (e : Event)
    → All P es
    → latest p es ≡ some e
    → P e
unfolding latest
All-latest P p [] e a h = cc
All-latest P p (x ∷ xs) e a h = elim (Option-cases (latest p xs)) [
  | inl l ↦ subst P (ground (arith, l, h)) a.0
  | inr (f, l) ↦ elim (Bool-cases (p x)) [
    | inr m ↦ subst P (ground (arith, l, h, m)) (All-latest P p xs f a.1 l)
    | inl m ↦ elim (Bool-cases (ltb x.ts f.ts)) [
      | inl u ↦ subst P (ground (arith, l, h, m, u)) (All-latest P p xs f a.1 l)
      | inr u ↦ subst P (ground (arith, l, h, m, u)) a.0
    ]
  ]
]

-- Every row with the id of that one passes the test.
abbrev Shares : (Event → Bool) → Event → List Event → Type 0
Shares p e es = All (λ (x : Event). same_id x.event_id e.event_id ≡ true → p x ≡ true) es

Shares-first :
    (p : Event → Bool) (x : Event) (xs : List Event)
    → p x ≡ true
    → any (same_event x) xs ≡ false
    → Shares p x (x ∷ xs)
unfolding same_event
Shares-first p x xs k d = (
  (λ _. k),
  All-weaken _ _ xs
      (λ y differ same.
        let e = same_id_iff y.event_id x.event_id same in
        absurd (
          ground (
            arith,
            differ,
            subst (λ (i : EventId). same_id x.event_id i ≡ true) (sym e) (same_id_refl x.event_id),
          )))
      (All-any (same_event x) xs d),
)

Shares-rest :
    (p : Event → Bool) (x f : Event) (xs : List Event)
    → latest p xs ≡ some f
    → any (same_event x) xs ≡ false
    → Shares p f xs
    → Shares p f (x ∷ xs)
unfolding same_event
Shares-rest p x f xs l d s =
    ((λ same. absurd (ground (arith, same, (any-latest p (same_event x) xs f l d).1))), s)

-- A row that passes a test, and whose id is that of the latest of another test, passes that too.
Shares-latest :
    (p : Event → Bool) (es : List Event) (e : Event)
    → distinct same_event es ≡ true
    → latest p es ≡ some e
    → Shares p e es
unfolding latest distinct
Shares-latest p [] e d h = tt
Shares-latest p (x ∷ xs) e d h =
    let alone : any (same_event x) xs ≡ false = ground (arith, d) in
    elim (Option-cases (latest p xs)) [
      | inl l ↦
          let same : (p x ≡ true) × (x ≡ e) = ground (arith, l, h) in
          subst (λ (y : Event). Shares p y (x ∷ xs)) (same.1) (Shares-first p x xs (same.0) alone)
      | inr (f, l) ↦
          let of_f = λ (same : f ≡ e).
            subst (λ (y : Event). Shares p y (x ∷ xs)) same
              (Shares-rest p x f xs l alone (Shares-latest p xs f (ground (arith, d)) l)) in
          elim (Bool-cases (p x)) [
            | inr m ↦ of_f (ground (arith, l, h, m))
            | inl m ↦ elim (Bool-cases (ltb x.ts f.ts)) [
              | inl u ↦ of_f (ground (arith, l, h, m, u))
              | inr u ↦
                  let same : x ≡ e = ground (arith, l, h, m, u) in
                  subst (λ (y : Event). Shares p y (x ∷ xs)) same (Shares-first p x xs m alone)
            ]
          ]
    ]

-- Marking the latest alarm of a zone ends that zone's episode.
pub ends-mark_cleared :
    (site_id zone_id : String) (now : ℕ) (es : List Event) (e : Event)
    → latest (is_alarm_of site_id zone_id) es ≡ some e
    → under_way (latest (is_alarm_of site_id zone_id) (mark_cleared e.event_id now es)) ≡ false
unfolding under_way marked
ends-mark_cleared site_id zone_id now es e h =
    ground
      (arith, latest-mark_cleared site_id zone_id e.event_id now es, h, same_id_refl e.event_id)

any_never {ℓ} : {A : Type ℓ} (xs : List A) → any (λ (_ : A). false) xs ≡ false
any_never [] = refl
any_never (x ∷ xs) = any_never xs

one_named :
    (o : Option String) (a b : String)
    → is_named o a ≡ true
    → is_named o b ≡ true
    → str_eq a b ≡ true
unfolding is_named
one_named none a b h k = cc
one_named (some z) a b h k = (eq_iff a b).1 (sym ((eq_iff z a).0 h) ∙ (eq_iff z b).0 k)

pub one_zone :
    (site_id a b : String) (e : Event)
    → is_alarm_of site_id a e ≡ true
    → is_alarm_of site_id b e ≡ true
    → str_eq a b ≡ true
unfolding is_alarm_of
one_zone site_id a b e h k = one_named e.zone_id a b (ground (arith, h)) (ground (arith, k))

-- It leaves the episode of any other zone as it is.
pub keeps-mark_cleared :
    (site_id zone_id other : String) (now : ℕ) (es : List Event) (e : Event)
    → distinct same_event es ≡ true
    → latest (is_alarm_of site_id zone_id) es ≡ some e
    → str_eq zone_id other ≡ false
    → under_way (latest (is_alarm_of site_id other) (mark_cleared e.event_id now es))
      ≡ under_way (latest (is_alarm_of site_id other) es)
unfolding under_way marked is_alarm_of is_named
keeps-mark_cleared site_id zone_id other now es e d h differ =
    elim (Option-cases (latest (is_alarm_of site_id other) es)) [
      | inl l ↦ ground (arith, l, latest-mark_cleared site_id other e.event_id now es)
      | inr (g, l) ↦
          let p = is_alarm_of site_id zone_id in
          let its : is_alarm_of site_id other g ≡ true =
            (any-latest (is_alarm_of site_id other) (λ _. false) es g l (any_never es)).0 in
          let shares =
            All-latest (λ (x : Event). same_id x.event_id e.event_id ≡ true → p x ≡ true)
              (is_alarm_of site_id other) es g (Shares-latest p es e d h) l in
          elim (Bool-cases (same_id g.event_id e.event_id)) [
            | inl k ↦
                absurd (ground (arith, differ, one_zone site_id zone_id other g (shares k) its))
            | inr k ↦ ground (arith, l, k, latest-mark_cleared site_id other e.event_id now es)
          ]
    ]
