-- ===== src/Cycles/Analyse/Sums.antt =====
-- Every cycle that is reported adds up (src/minemonitor/cycles/statemachine.py).
use mathlib.Core.Path.{subst}
use mine_intelligence.Prelude.{
  All, Bool, Bool-cases, List, Option, Option-cases, String, [], ap, arith, find, inl, inr, length,
  ltb, map, refl, select, some, suc, sym, true, zero, ℕ, ◌+◌, ◌<◌, ◌∙◌, ◌∷◌, ◌≡◌, ◌≤◌,
}
use mine_intelligence.Cycles.Visits.{Visit, time_at}
use mine_intelligence.Cycles.Visits.Timed.{IsMonotone, IsTimed, visits-IsTimed}
use mine_intelligence.Cycles.Stops.{Fix, Geometry}
use mine_intelligence.Cycles.Analyse.{
  Cycle, Parameters, Stream, analyse_cycles, by_ts, compute_cycles, cycle_of, cycle_through,
  cycles_of, flags_of, insert_by_ts, is_between, load_runs, long_enough, stream_of, zone_at,
}
use mine_intelligence.Cycles.Analyse.Laws.{AddsUp, AddsUp-cycle_through}

-- Times in order, each no later than those behind it.
abbrev pub IsSorted : List ℕ → Type 0
IsSorted [] = Unit
IsSorted (t ∷ ts) = All (λ (u : ℕ). t ≤ u) ts × IsSorted ts

All-time_at :
    (t : ℕ) (ts : List ℕ) (k : ℕ) → All (λ (u : ℕ). t ≤ u) ts → k < length ts → t ≤ time_at ts k
unfolding time_at
All-time_at t [] k a h = absurd (omega arith)
All-time_at t (u ∷ ts) zero a h = a.0
All-time_at t (u ∷ ts) (suc k) a h = All-time_at t ts k a.1 (omega (arith, h))

pub IsSorted-IsMonotone : (ts : List ℕ) → IsSorted ts → IsMonotone ts
unfolding time_at
IsSorted-IsMonotone [] s j k le h = absurd (omega arith)
IsSorted-IsMonotone (t ∷ ts) s zero zero le h = omega arith
IsSorted-IsMonotone (t ∷ ts) s zero (suc k) le h = All-time_at t ts k s.0 (omega (arith, h))
IsSorted-IsMonotone (t ∷ ts) s (suc j) zero le h = absurd (omega (arith, le))
IsSorted-IsMonotone (t ∷ ts) s (suc j) (suc k) le h =
    IsSorted-IsMonotone ts s.1 j k (omega (arith, le)) (omega (arith, h))

abbrev pub times_of : List Fix → List ℕ
times_of fs = map (λ (f : Fix). f.ts) fs

All-le : (t u : ℕ) (ts : List ℕ) → t ≤ u → All (λ (v : ℕ). u ≤ v) ts → All (λ (v : ℕ). t ≤ v) ts
All-le t u [] h a = tt
All-le t u (v ∷ ts) h a = (omega (arith, a.0), All-le t u ts h a.1)

All-insert_by_ts :
    (t : ℕ) (f : Fix) (fs : List Fix)
    → t ≤ f.ts
    → All (λ (v : ℕ). t ≤ v) (times_of fs)
    → All (λ (v : ℕ). t ≤ v) (times_of (insert_by_ts f fs))
unfolding insert_by_ts
All-insert_by_ts t f [] h a = (h, tt)
All-insert_by_ts t f (g ∷ gs) h a = elim (Bool-cases (ltb g.ts f.ts)) [
  | inl e ↦ rw e (a.0, All-insert_by_ts t f gs h a.1)
  | inr e ↦ rw e (h, a)
]

IsSorted-insert_by_ts :
    (f : Fix) (fs : List Fix) → IsSorted (times_of fs) → IsSorted (times_of (insert_by_ts f fs))
unfolding insert_by_ts
IsSorted-insert_by_ts f [] s = (tt, tt)
IsSorted-insert_by_ts f (g ∷ gs) s = elim (Bool-cases (ltb g.ts f.ts)) [
  | inl e ↦
      rw e (All-insert_by_ts g.ts f gs (ground (arith, e)) s.0, IsSorted-insert_by_ts f gs s.1)
  | inr e ↦
      rw e (
        let le : f.ts ≤ g.ts = ground (arith, e) in
        ((le, All-le f.ts g.ts (times_of gs) le s.0), s))
]

pub IsSorted-by_ts : (fs : List Fix) → IsSorted (times_of (by_ts fs))
unfolding by_ts
IsSorted-by_ts [] = tt
IsSorted-by_ts (f ∷ fs) = IsSorted-insert_by_ts f (by_ts fs) (IsSorted-by_ts fs)

pub times-flags_of :
    (label : Fix → Option String) (fs : List Fix)
    → times_of fs ≡ map (λ (x : Bool × ℕ). x.1) (flags_of (times_of fs) (map label fs))
unfolding flags_of
times-flags_of label [] = refl
times-flags_of label (f ∷ fs) = ap (λ (ts : List ℕ). f.ts ∷ ts) (times-flags_of label fs)

length-map {ℓ κ} :
    {A : Type ℓ} {B : Type κ} (g : A → B) (xs : List A) → length (map g xs) ≡ length xs
length-map g [] = refl
length-map g (x ∷ xs) = omega (arith, length-map g xs)

pub All-select {ℓ κ} :
    {A : Type ℓ} (P : A → Type κ) (q : A → Bool) (xs : List A) → All P xs → All P (select q xs)
All-select P q [] a = tt
All-select P q (x ∷ xs) a = elim (Bool-cases (q x)) [
  | inl e ↦ rw e (a.0, All-select P q xs a.1)
  | inr e ↦ rw e (All-select P q xs a.1)
]

pub IsTimed-forward : (times : List ℕ) (v : Visit) → IsTimed times v → v.enter_ts ≤ v.exit_ts
IsTimed-forward times v t =
    omega (arith, t.2 v.start (omega arith) t.1, t.3 v.start (omega (arith, t.0)))

-- What `find` returns is of the list and passes the test.
find_found {ℓ κ} :
    {A : Type ℓ} (P : A → Type κ) (q : A → Bool) (xs : List A) (x : A)
    → All P xs
    → find q xs ≡ some x
    → P x × (q x ≡ true)
find_found P q [] x a h = absurd (ground (arith, h))
find_found P q (y ∷ ys) x a h = elim (Bool-cases (q y)) [
  | inl e ↦
      let same : y ≡ x = ground (arith, e, h) in (subst P same a.0, subst (λ z. q z ≡ true) same e)
  | inr e ↦ find_found P q ys x a.1 (ground (arith, e, h))
]

module _ (geometry : Geometry) (p : Parameters) (asset_id : String) (st : Stream)
    (dumps : List Visit) (same : length st.fixes ≡ length st.times)
    (timed : All (IsTimed st.times) dumps) where
  cycle_of-AddsUp :
      (index : ℕ) (lv next : Visit) (c : Cycle)
      → IsTimed st.times lv
      → cycle_of geometry p asset_id st dumps index lv next ≡ some c
      → AddsUp c
  unfolding cycle_of is_between
  cycle_of-AddsUp index lv next c t h = elim (Option-cases (find (is_between lv next) dumps)) [
    | inl e ↦ absurd (ground (arith, e, h))
    | inr (dv, e) ↦
        let (td, between) = find_found (IsTimed st.times) (is_between lv next) dumps dv timed e in
        let same_cycle : cycle_through geometry p asset_id st index lv next dv ≡ c =
          ground (arith, e, h) in
        subst AddsUp same_cycle (
          AddsUp-cycle_through geometry p asset_id st index lv next dv same t
            (IsTimed-forward st.times lv t) (IsTimed-forward st.times dv td)
            (ground (arith, between)) (ground (arith, between)))
  ]

  cycles_of-AddsUp :
      (index : ℕ) (loads : List Visit)
      → All (IsTimed st.times) loads
      → All AddsUp (cycles_of geometry p asset_id st dumps index loads)
  unfolding cycles_of
  cycles_of-AddsUp index [] a = tt
  cycles_of-AddsUp index (lv ∷ []) a = tt
  cycles_of-AddsUp index (lv ∷ next ∷ rest) a =
      elim (Option-cases (cycle_of geometry p asset_id st dumps index lv next)) [
        | inl e ↦ rw (cycles_of, e) (cycles_of-AddsUp index (next ∷ rest) a.1)
        | inr (c, e) ↦
            rw (cycles_of, e)
              (
                cycle_of-AddsUp index lv next c a.0 e,
                cycles_of-AddsUp (index + 1) (next ∷ rest) a.1,
              )
      ]

-- Whatever the positions and in whatever order they come, each reported cycle runs from its start
-- to its end, and its queue, load, haul, dump and return add up to its whole time, where the
-- return counts as negative if the next load visit begins before the dump visit is left.
pub compute_cycles-AddsUp :
    (geometry : Geometry) (p : Parameters) (asset_id : String) (fixes : List Fix)
    → All AddsUp (compute_cycles geometry p asset_id fixes)
unfolding compute_cycles analyse_cycles stream_of load_runs
compute_cycles-AddsUp geometry p asset_id [] = tt
compute_cycles-AddsUp geometry p asset_id (f ∷ fs) =
    let fixes = by_ts (f ∷ fs) in
    let st = stream_of geometry p asset_id fixes in
    let mono = IsSorted-IsMonotone (times_of fixes) (IsSorted-by_ts (f ∷ fs)) in
    let timed = λ (label : Fix → Option String).
      visits-IsTimed (times_of fixes) (flags_of (times_of fixes) (map label fixes)) p.min_exit mono
        (times-flags_of label fixes) in
    let kept = λ (vs : List Visit) (a : All (IsTimed st.times) vs).
      All-select (IsTimed st.times) (long_enough p.min_visit) vs a in
    cycles_of-AddsUp geometry p asset_id st _ (length-map _ fixes ∙ sym (length-map _ fixes))
      (kept _ (timed (λ (f : Fix). zone_at geometry f p.dump_zones))) 0 _
      (kept _ (timed (λ (f : Fix). zone_at geometry f p.load_zones)))
