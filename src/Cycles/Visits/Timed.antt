-- ===== src/Cycles/Visits/Timed.antt =====
-- A visit's times are those of its fixes (src/minemonitor/cycles/statemachine.py).
use mathlib.Core.List.{reverse, reverse-cons}
use mine_intelligence.Prelude.{
  All, Bool, Bool-cases, List, Option, [], arith, drop, false, inl, inr, length, ltb, ltb→lt, map,
  none, refl, some, suc, true, zero, ℕ, ◌++◌, ◌+◌, ◌<◌, ◌∷◌, ◌≡◌, ◌≤◌,
}
use mine_intelligence.Cycles.Visits.{Visit, add_run, scan, time_at, visits}

pub time_at_out : (times : List ℕ) (k : ℕ) → length times ≤ k → time_at times k ≡ 0
unfolding time_at
time_at_out [] zero h = refl
time_at_out [] (suc k) h = refl
time_at_out (t ∷ times) zero h = absurd (omega arith)
time_at_out (t ∷ times) (suc k) h = time_at_out times k (omega arith)

at_drop :
    (times : List ℕ) (i t : ℕ) (rest : List ℕ)
    → drop i times ≡ t ∷ rest
    → (time_at times i ≡ t) × (i < length times) × (drop (i + 1) times ≡ rest)
unfolding time_at
at_drop [] zero t rest h = cc
at_drop [] (suc i) t rest h = cc
at_drop (u ∷ times) zero t rest h = (ground (arith, h), omega arith, ground (arith, h))
at_drop (u ∷ times) (suc i) t rest h =
    let (a, b, c) = at_drop times i t rest h in
    let e : suc i + 1 ≡ suc (i + 1) = omega arith in (a, omega (arith, b), rw e c)

length-drop_nil {ℓ} : {A : Type ℓ} (xs : List A) (i : ℕ) → drop i xs ≡ [] → length xs ≤ i
length-drop_nil [] i h = omega arith
length-drop_nil (x ∷ xs) zero h = cc
length-drop_nil (x ∷ xs) (suc i) h = omega (arith, length-drop_nil xs i h)

-- The times never go back.
abbrev pub IsMonotone : List ℕ → Type 0
IsMonotone times = (j k : ℕ) → j ≤ k → k < length times → time_at times j ≤ time_at times k

abbrev NotBefore : List ℕ → ℕ → ℕ → Type 0
NotBefore times start enter = (k : ℕ) → start ≤ k → k < length times → enter ≤ time_at times k

-- The visit has a fix, it begins no later than its fixes, and no earlier fix, nor the one after
-- it, is later than its end.
abbrev pub IsTimed : List ℕ → Visit → Type 0
IsTimed times v =
    (v.start < v.end)
    × (v.start < length times)
    × ((k : ℕ) → v.start ≤ k → k < length times → v.enter_ts ≤ time_at times k)
    × ((k : ℕ) → k ≤ v.end → time_at times k ≤ v.exit_ts)

-- Each visit is timed, and over by the fix `i`.
abbrev Before : List ℕ → ℕ → List Visit → Type 0
Before times i out = All (λ (v : Visit). (v.end ≤ i) × IsTimed times v) out

Before-le :
    (times : List ℕ) (i j : ℕ) (out : List Visit) → i ≤ j → Before times i out → Before times j out
Before-le times i j [] h b = tt
Before-le times i j (v ∷ out) h (b, bs) = ((omega (arith, b.0), b.1), Before-le times i j out h bs)

add_run-Before :
    (times : List ℕ) (min_exit : ℕ) (run : Visit) (out : List Visit)
    → IsTimed times run
    → Before times run.start out
    → Before times run.end (add_run min_exit run out)
unfolding add_run
add_run-Before times min_exit run [] r b = ((omega arith, r), tt)
add_run-Before times min_exit run (prev ∷ out) r (b, bs) =
    let le : run.start ≤ run.end = omega (arith, r.0) in
    let outs : Before times run.end out = Before-le times run.start run.end out le bs in
    elim (Bool-cases (ltb run.enter_ts (prev.exit_ts + min_exit))) [
      | inl e ↦ rw e ((omega arith, (omega (arith, b.0, b.1.0, r.0), b.1.1, b.1.2, r.3)), outs)
      | inr e ↦ rw e ((omega arith, r), ((omega (arith, b.0, r.0), b.1), outs))
    ]

-- The run that is open at the fix `i`.
abbrev Open : List ℕ → ℕ → Option (ℕ × ℕ) → List Visit → Type 0
Open times i none out = Before times i out
Open times i (some (start, enter)) out =
    (start < i) × (start < length times) × NotBefore times start enter × Before times start out

module _ (times : List ℕ) (mono : IsMonotone times) (min_exit : ℕ) where
  -- No fix up to `i` is later than `last`.
  abbrev Until : ℕ → ℕ → Type 0
  Until i last = (k : ℕ) → k < i → time_at times k ≤ last

  close :
      (start enter i last : ℕ) (out : List Visit)
      → Open times i (some (start, enter)) out
      → ((k : ℕ) → k ≤ i → time_at times k ≤ last)
      → Before times i (
          add_run min_exit
            (record { enter_ts = enter; exit_ts = last; start = start; end = i })
            out)
  close start enter i last out (lt, in_range, lower, b) upper =
      add_run-Before times min_exit
        (record { enter_ts = enter; exit_ts = last; start = start; end = i }) out
        (lt, in_range, lower, upper) b

  Until-next : (i t : ℕ) → time_at times i ≡ t → i < length times → Until (i + 1) t
  Until-next i t e h = λ k lt. omega (arith, mono k i (omega arith) h)

  Until-end :
      (i last : ℕ) → length times ≤ i → Until i last → (k : ℕ) → k ≤ i → time_at times k ≤ last
  Until-end i last h u k le = elim (Bool-cases (ltb k i)) [
    | inl e ↦ u k (ltb→lt k i e)
    | inr e ↦ omega (arith, time_at_out times k (ground (arith, e)))
  ]

  scan-Before :
      (flags : List (Bool × ℕ)) (i last : ℕ) (open_run : Option (ℕ × ℕ)) (out : List Visit)
      → drop i times ≡ map (λ (x : Bool × ℕ). x.1) flags
      → Until i last
      → Open times i open_run out
      → (j : ℕ) × Before times j (scan min_exit i open_run last flags out)
  unfolding scan
  scan-Before [] i last none out d u o = (i, o)
  scan-Before [] i last (some (start, enter)) out d u o =
      (i, close start enter i last out o (Until-end i last (length-drop_nil times i d) u))
  scan-Before ((true, t) ∷ flags) i last none out d u o =
      let (e, lt, d') = at_drop times i t (map (λ (x : Bool × ℕ). x.1) flags) d in
      scan-Before flags (i + 1) t (some (i, t)) out d' (Until-next i t e lt)
        (omega arith, lt, (λ k le r. omega (arith, mono i k le r)), o)
  scan-Before ((false, t) ∷ flags) i last none out d u o =
      let (e, lt, d') = at_drop times i t (map (λ (x : Bool × ℕ). x.1) flags) d in
      scan-Before flags (i + 1) t none out d' (Until-next i t e lt)
        (Before-le times i (i + 1) out (omega arith) o)
  scan-Before ((true, t) ∷ flags) i last (some (start, enter)) out d u o =
      let (e, lt, d') = at_drop times i t (map (λ (x : Bool × ℕ). x.1) flags) d in
      scan-Before flags (i + 1) t (some (start, enter)) out d' (Until-next i t e lt)
        (omega (arith, o.0), o.1, o.2, o.3)
  scan-Before ((false, t) ∷ flags) i last (some (start, enter)) out d u o =
      let (e, lt, d') = at_drop times i t (map (λ (x : Bool × ℕ). x.1) flags) d in
      scan-Before flags (i + 1) t none
        (add_run min_exit (record { enter_ts = enter; exit_ts = t; start = start; end = i }) out) d'
        (Until-next i t e lt)
        (Before-le times i (i + 1) _ (omega arith)
          (close start enter i t out o (λ k le. omega (arith, mono k i le lt))))

All-append {ℓ κ} :
    {A : Type ℓ} (P : A → Type κ) (xs ys : List A) → All P xs → All P ys → All P (xs ++ ys)
All-append P [] ys hx hy = hy
All-append P (x ∷ xs) ys hx hy = (hx.0, All-append P xs ys hx.1 hy)

pub All-reverse {ℓ κ} : {A : Type ℓ} (P : A → Type κ) (xs : List A) → All P xs → All P (reverse xs)
All-reverse P [] h = tt
All-reverse P (x ∷ xs) h =
    rw (reverse-cons x xs) (All-append P (reverse xs) (x ∷ []) (All-reverse P xs h.1) (h.0, tt))

IsTimed-of_Before :
    (times : List ℕ) (i : ℕ) (out : List Visit) → Before times i out → All (IsTimed times) out
IsTimed-of_Before times i [] b = tt
IsTimed-of_Before times i (v ∷ out) b = (b.0.1, IsTimed-of_Before times i out b.1)

-- Every visit's fixes lie within its times.
pub visits-IsTimed :
    (times : List ℕ) (flags : List (Bool × ℕ)) (min_exit : ℕ)
    → IsMonotone times
    → times ≡ map (λ (x : Bool × ℕ). x.1) flags
    → All (IsTimed times) (visits flags min_exit)
unfolding visits
visits-IsTimed times flags min_exit mono e =
    let (j, b) =
      scan-Before times mono min_exit flags 0 0 none [] e (λ k h. absurd (omega arith)) tt in
    All-reverse (IsTimed times) (scan min_exit 0 none 0 flags []) (IsTimed-of_Before times j _ b)
