-- ===== src/Rules/Occupancy/Latest.antt =====
-- The latest alarm of a zone, as alarms are marked and added (src/minemonitor/rules/occupancy.py).
use mine_intelligence.Prelude.{
  All, Bool, Bool-cases, List, Option, Option-cases, [], any, arith, false, inl, inr, is_some, none,
  not, refl, some, true, ℕ, ◌++◌, ◌<◌, ◌∷◌, ◌≡◌,
}
use mine_intelligence.Storage.{Event}
use mine_intelligence.Rules.Occupancy.{latest, uncleared}

-- An episode is under way.
unfoldable pub under_way : Option Event → Bool
under_way none = false
under_way (some e) = not (is_some e.cleared_at)

pub under_way-uncleared : (o : Option Event) → is_some (uncleared o) ≡ under_way o
unfolding uncleared under_way
under_way-uncleared none = refl
under_way-uncleared (some e) = ground arith

latest-false : (p : Event → Bool) (news : List Event) → any p news ≡ false → latest p news ≡ none
unfolding latest
latest-false p [] h = refl
latest-false p (e ∷ es) h = ground (arith, h, latest-false p es)

pub latest-append :
    (p : Event → Bool) (es news : List Event)
    → any p news ≡ false
    → latest p (es ++ news) ≡ latest p es
unfolding latest
latest-append p [] news h = latest-false p news h
latest-append p (e ∷ es) news h = ground (arith, latest-append p es news h)

-- Alarms of one time, none of them cleared.
abbrev pub AreNew : ℕ → List Event → Type 0
AreNew now news = All (λ (e : Event). (e.ts ≡ now) × (e.cleared_at ≡ none)) news

abbrev pub AreOlder : ℕ → (Event → Bool) → List Event → Type 0
AreOlder now p es = All (λ (e : Event). p e ≡ true → e.ts < now) es

new_latest :
    (p : Event → Bool) (now : ℕ) (news : List Event) (f : Event)
    → AreNew now news
    → latest p news ≡ some f
    → f.ts ≡ now
unfolding latest
new_latest p now [] f a h = cc
new_latest p now (x ∷ xs) f a h = elim (Option-cases (latest p xs)) [
  | inl l ↦ ground (arith, l, h, a.0.0)
  | inr (g, l) ↦ ground (arith, l, h, a.0.0, new_latest p now xs g a.1 l)
]

latest_of_new :
    (p : Event → Bool) (now : ℕ) (news : List Event)
    → AreNew now news
    → any p news ≡ true
    → (e : Event) × (latest p news ≡ some e) × (e.ts ≡ now) × (e.cleared_at ≡ none)
unfolding latest
latest_of_new p now [] a h = absurd (ground (arith, h))
latest_of_new p now (x ∷ xs) a h = elim (Bool-cases (p x)) [
  | inl k ↦ elim (Option-cases (latest p xs)) [
    | inl l ↦ (x, ground (arith, k, l), a.0.0, a.0.1)
    | inr (f, l) ↦
        let e : f.ts ≡ now = new_latest p now xs f a.1 l in
        (x, ground (arith, k, l, e, a.0.0), a.0.0, a.0.1)
  ]
  | inr k ↦
      let (f, l, t, c) = latest_of_new p now xs a.1 (ground (arith, k, h)) in
      (f, ground (arith, k, l), t, c)
]

-- The alarms of this time come before all that are older.
pub latest-append_new :
    (p : Event → Bool) (now : ℕ) (es news : List Event)
    → AreOlder now p es
    → AreNew now news
    → any p news ≡ true
    → (e : Event) × (latest p (es ++ news) ≡ some e) × (e.ts ≡ now) × (e.cleared_at ≡ none)
unfolding latest
latest-append_new p now [] news older a h = latest_of_new p now news a h
latest-append_new p now (e ∷ es) news older a h =
    let (f, l, t, c) = latest-append_new p now es news older.1 a h in
    elim (Bool-cases (p e)) [
      | inl k ↦
          let lt : e.ts < f.ts = omega (arith, older.0 k, t) in (f, ground (arith, k, l, lt), t, c)
      | inr k ↦ (f, ground (arith, k, l), t, c)
    ]
