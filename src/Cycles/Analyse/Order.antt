-- ===== src/Cycles/Analyse/Order.antt =====
-- Reported cycles follow one another (src/minemonitor/cycles/statemachine.py).
use mine_intelligence.Prelude.{
  All, Bool, Bool-cases, List, Option, Option-cases, String, [], arith, inl, inr, map, select, some,
  true, ℕ, ◌+◌, ◌-◌, ◌∷◌, ◌≡◌, ◌≤◌,
}
use mine_intelligence.Cycles.Visits.{Visit, visits}
use mine_intelligence.Cycles.Visits.Timed.{IsTimed, visits-IsTimed}
use mine_intelligence.Cycles.Visits.Laws.{InOrder, visits-InOrder}
use mine_intelligence.Cycles.Stops.{Fix, Geometry}
use mine_intelligence.Cycles.Analyse.{
  Cycle, Parameters, Stream, analyse_cycles, by_ts, compute_cycles, cycle_of, cycle_through,
  cycles_of, flags_of, load_runs, long_enough, stream_of, within_cap, zone_at,
}
use mine_intelligence.Cycles.Analyse.Sums.{
  All-select, IsSorted-IsMonotone, IsSorted-by_ts, IsTimed-forward, times-flags_of, times_of,
}

-- The visits begin one after the other, from a time on.
abbrev Chain : ℕ → List Visit → Type 0
Chain t [] = Unit
Chain t (v ∷ vs) = (t ≤ v.enter_ts) × Chain v.exit_ts vs

Chain-le : (s t : ℕ) (vs : List Visit) → s ≤ t → Chain t vs → Chain s vs
Chain-le s t [] h c = tt
Chain-le s t (v ∷ vs) h c = (omega (arith, c.0), c.1)

Chain-InOrder :
    (times : List ℕ) (min_exit : ℕ) (vs : List Visit)
    → All (IsTimed times) vs
    → InOrder min_exit vs
    → Chain 0 vs
Chain-InOrder times min_exit [] a o = tt
Chain-InOrder times min_exit (v ∷ []) a o = (omega arith, tt)
Chain-InOrder times min_exit (v ∷ u ∷ vs) a o =
    (omega arith, (omega (arith, o.0), (Chain-InOrder times min_exit (u ∷ vs) a.1 o.2).1))

Chain-select :
    (times : List ℕ) (q : Visit → Bool) (t : ℕ) (vs : List Visit)
    → All (IsTimed times) vs
    → Chain t vs
    → Chain t (select q vs)
Chain-select times q t [] a c = tt
Chain-select times q t (v ∷ vs) a c = elim (Bool-cases (q v)) [
  | inl e ↦ rw e (c.0, Chain-select times q v.exit_ts vs a.1 c.1)
  | inr e ↦ rw e (
      Chain-le t v.exit_ts (select q vs) (omega (arith, c.0, IsTimed-forward times v a.0))
        (Chain-select times q v.exit_ts vs a.1 c.1))
]

-- Cycles numbered from `index` on that begin no earlier than `t`: none begins before the one
-- before it has ended, and none is longer than the cap.
abbrev pub Follow : Option ℕ → ℕ → ℕ → List Cycle → Type 0
Follow most index t [] = Unit
Follow most index t (c ∷ cs) =
    (c.cycle_index ≡ index)
    × (t ≤ c.start_ts)
    × (c.start_ts ≤ c.end_ts)
    × ((m : ℕ) → most ≡ some m → c.end_ts ≤ c.start_ts + m)
    × Follow most (index + 1) c.end_ts cs

module _ (geometry : Geometry) (p : Parameters) (asset_id : String) (st : Stream)
    (dumps : List Visit) where
  cycle_of_times :
      (index : ℕ) (lv next : Visit) (c : Cycle)
      → cycle_of geometry p asset_id st dumps index lv next ≡ some c
      → (c.cycle_index ≡ index)
        × (c.start_ts ≡ lv.enter_ts)
        × (c.end_ts ≡ next.enter_ts)
        × (within_cap p.max_cycle (next.enter_ts - lv.enter_ts) ≡ true)
  unfolding cycle_of cycle_through
  cycle_of_times index lv next c h = ground (arith, h)

  cap_of : (m d : ℕ) → p.max_cycle ≡ some m → within_cap p.max_cycle d ≡ true → d ≤ m
  unfolding within_cap
  cap_of m d e h = ground (arith, e, h)

  cycles_of-Follow :
      (index t : ℕ) (loads : List Visit)
      → All (IsTimed st.times) loads
      → Chain t loads
      → Follow p.max_cycle index t (cycles_of geometry p asset_id st dumps index loads)
  unfolding cycles_of
  cycles_of-Follow index t [] a c = tt
  cycles_of-Follow index t (lv ∷ []) a c = tt
  cycles_of-Follow index t (lv ∷ next ∷ rest) a c =
      let f = IsTimed-forward st.times lv a.0 in
      elim (Option-cases (cycle_of geometry p asset_id st dumps index lv next)) [
        | inl e ↦
            rw (cycles_of, e)
              (cycles_of-Follow index t (next ∷ rest) a.1 (omega (arith, c.0, c.1.0, f), c.1.1))
        | inr (cy, e) ↦
            let (i, s, en, w) = cycle_of_times index lv next cy e in
            rw (cycles_of, e)
              (
                i,
                omega (arith, s, c.0),
                omega (arith, s, en, f, c.1.0),
                (λ m k. omega (arith, s, en, cap_of m (next.enter_ts - lv.enter_ts) k w)),
                cycles_of-Follow (index + 1) cy.end_ts (next ∷ rest) a.1 (omega (arith, en), c.1.1),
              )
      ]

-- Whatever the positions, the reported cycles are numbered from 0 on; each ends no earlier than it
-- starts and starts no earlier than the one before it ends; and none is longer than the cap on a
-- cycle, if there is one.
pub compute_cycles-Follow :
    (geometry : Geometry) (p : Parameters) (asset_id : String) (fixes : List Fix)
    → Follow p.max_cycle 0 0 (compute_cycles geometry p asset_id fixes)
unfolding compute_cycles analyse_cycles stream_of load_runs
compute_cycles-Follow geometry p asset_id [] = tt
compute_cycles-Follow geometry p asset_id (f ∷ fs) =
    let fixes = by_ts (f ∷ fs) in
    let st = stream_of geometry p asset_id fixes in
    let mono = IsSorted-IsMonotone (times_of fixes) (IsSorted-by_ts (f ∷ fs)) in
    let label : Fix → Option String = λ f. zone_at geometry f p.load_zones in
    let flags = flags_of (times_of fixes) (map label fixes) in
    let timed =
      visits-IsTimed (times_of fixes) flags p.min_exit mono (times-flags_of label fixes) in
    let runs = visits flags p.min_exit in
    cycles_of-Follow geometry p asset_id st _ 0 0 (select (long_enough p.min_visit) runs)
      (All-select (IsTimed st.times) (long_enough p.min_visit) runs timed)
      (Chain-select st.times (long_enough p.min_visit) 0 runs timed
        (Chain-InOrder st.times p.min_exit runs timed (visits-InOrder flags p.min_exit)))
