-- ===== src/Cycles/Analyse/Laws.antt =====
-- The segments of a cycle add up (src/minemonitor/cycles/statemachine.py).
use mathlib.Core.Path.{subst}
use mine_intelligence.Prelude.{
  All, Bool, List, Option-cases, String, [], arith, get_elem?, inl, inr, length, min, negsuc, pos,
  some, suc, zero, ℕ, ℤ, ◌+◌, ◌-◌, ◌<◌, ◌∷◌, ◌≡◌, ◌≤◌,
}
use mine_intelligence.Cycles.Visits.{Visit}
use mine_intelligence.Cycles.Visits.Timed.{IsTimed}
use mine_intelligence.Cycles.Stops.{Fix, Geometry, LoaderFix, Stop, stops}
use mine_intelligence.Cycles.Stops.Within.{IsWithin, stops-Within}
use mine_intelligence.Cycles.Queue.{queue_seconds, waited}
use mine_intelligence.Cycles.Analyse.{Cycle, Parameters, Stream, cycle_through, sub_ℕ}

All-get_elem? {ℓ κ} :
    {A : Type ℓ} (P : A → Type κ) (xs : List A) (k : ℕ) (x : A)
    → All P xs
    → get_elem? xs k ≡ some x
    → P x
All-get_elem? P [] k x a h = absurd (ground (arith, h))
All-get_elem? P (y ∷ ys) zero x a h = subst P (ground (arith, h)) a.0
All-get_elem? P (y ∷ ys) (suc k) x a h = All-get_elem? P ys k x a.1 h

waited-le :
    (times : List ℕ) (v : Visit) (found : List Stop) (loading : ℕ)
    → IsTimed times v
    → All (IsWithin v.start (min v.end (length times))) found
    → waited times found loading ≤ v.exit_ts - v.enter_ts
unfolding waited
waited-le times v [] loading t w = omega arith
waited-le times v (first ∷ rest) zero t w = omega arith
waited-le times v (first ∷ rest) (suc k) t w = elim (Option-cases (get_elem? (first ∷ rest) k)) [
  | inl e ↦ rw (e, waited) (omega arith)
  | inr (before, e) ↦
      let b =
        All-get_elem? (IsWithin v.start (min v.end (length times))) (first ∷ rest) k before w e in
      rw (e, waited)
        (omega (
          arith,
          b,
          w.0,
          t.2 first.start w.0.0 (omega (arith, w.0)),
          t.3 before.end (omega (arith, b)),
        ))
]

-- The time a truck queues in a visit is never longer than the visit.
queue_seconds-le :
    (geometry : Geometry) (times : List ℕ) (fixes : List (Bool × Fix)) (v : Visit)
    (ls : List (String × List LoaderFix)) (pairing_m : ℕ)
    → length fixes ≡ length times
    → IsTimed times v
    → (queue_seconds geometry times fixes v ls pairing_m).0 ≤ v.exit_ts - v.enter_ts
unfolding queue_seconds
queue_seconds-le geometry times fixes v ls pairing_m same t =
    waited-le times v (stops geometry fixes v) _ t
      (rw same at (stops-Within geometry fixes v t.0 (omega (arith, t.1))))

abbrev pub pos_part : ℤ → ℕ
pos_part (pos n) = n
pos_part (negsuc n) = 0

abbrev pub neg_part : ℤ → ℕ
neg_part (pos n) = 0
neg_part (negsuc n) = suc n

-- The five segments add up to the whole cycle; the return is negative where the dump visit is
-- left after the next load visit begins.
pub record AddsUp (c : Cycle) : Type 0 where
  pub whole : c.start_ts + c.cycle_time ≡ c.end_ts
  pub segments :
      c.queue + c.load + c.haul + c.dump + pos_part c.return ≡ c.cycle_time + neg_part c.return

pub AddsUp-cycle_through :
    (geometry : Geometry) (p : Parameters) (asset_id : String) (st : Stream) (index : ℕ)
    (lv next dv : Visit)
    → length st.fixes ≡ length st.times
    → IsTimed st.times lv
    → lv.enter_ts ≤ lv.exit_ts
    → dv.enter_ts ≤ dv.exit_ts
    → lv.exit_ts ≤ dv.enter_ts
    → dv.enter_ts < next.enter_ts
    → AddsUp (cycle_through geometry p asset_id st index lv next dv)
unfolding cycle_through sub_ℕ
AddsUp-cycle_through geometry p asset_id st index lv next dv same t a b c d =
    let q = queue_seconds-le geometry st.times st.fixes lv st.ls p.pairing_m same t in
    ground (arith, q)
