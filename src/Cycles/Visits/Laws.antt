-- ===== src/Cycles/Visits/Laws.antt =====
-- Visits lie apart and in order (src/minemonitor/cycles/statemachine.py).
use mathlib.Core.List.{reverse, reverse-cons}
use mine_intelligence.Prelude.{
  Bool, Bool-cases, List, Option, [], arith, false, inl, inr, ltb, none, some, true, ℕ, ◌++◌, ◌+◌,
  ◌∷◌, ◌≤◌,
}
use mine_intelligence.Cycles.Visits.{Visit, add_run, scan, visits}

-- The newest first: each begins `min_exit` or more after the one before it was left.
abbrev AreApart : ℕ → List Visit → Type 0
AreApart min_exit [] = Unit
AreApart min_exit (v ∷ []) = Unit
AreApart min_exit (v ∷ u ∷ out) =
    (u.exit_ts + min_exit ≤ v.enter_ts) × (u.end ≤ v.start) × AreApart min_exit (u ∷ out)

-- The newest visit is over by the fix `i`.
abbrev EndBy : ℕ → List Visit → Type 0
EndBy i [] = Unit
EndBy i (v ∷ out) = v.end ≤ i

EndBy-le : (i j : ℕ) (out : List Visit) → i ≤ j → EndBy i out → EndBy j out
EndBy-le i j [] h e = tt
EndBy-le i j (v ∷ out) h e = omega arith

add_run-AreApart :
    (min_exit : ℕ) (run : Visit) (out : List Visit)
    → EndBy run.start out
    → AreApart min_exit out
    → AreApart min_exit (add_run min_exit run out) × EndBy run.end (add_run min_exit run out)
unfolding add_run
add_run-AreApart min_exit run [] e a = (tt, omega arith)
add_run-AreApart min_exit run (prev ∷ []) e a =
    elim (Bool-cases (ltb run.enter_ts (prev.exit_ts + min_exit))) [
      | inl h ↦ rw h (tt, omega arith)
      | inr h ↦ rw h ((ground (arith, h), e, tt), omega arith)
    ]
add_run-AreApart min_exit run (prev ∷ u ∷ out) e a =
    elim (Bool-cases (ltb run.enter_ts (prev.exit_ts + min_exit))) [
      | inl h ↦ rw h (a, omega arith)
      | inr h ↦ rw h ((ground (arith, h), e, a), omega arith)
    ]

-- The run that is open begins where the visits are over.
abbrev Ready : ℕ → Option (ℕ × ℕ) → List Visit → Type 0
Ready i none out = EndBy i out
Ready i (some (start, enter)) out = (start ≤ i) × EndBy start out

scan-AreApart :
    (min_exit i : ℕ) (open_run : Option (ℕ × ℕ)) (last : ℕ) (flags : List (Bool × ℕ))
    (out : List Visit)
    → Ready i open_run out
    → AreApart min_exit out
    → AreApart min_exit (scan min_exit i open_run last flags out)
unfolding scan
scan-AreApart min_exit i none last [] out r a = a
scan-AreApart min_exit i (some (start, enter)) last [] out r a =
    (add_run-AreApart min_exit (record { enter_ts = enter; exit_ts = last; start = start; end = i })
      out r.1 a).0
scan-AreApart min_exit i none last ((true, t) ∷ flags) out r a =
    scan-AreApart min_exit (i + 1) (some (i, t)) t flags out (omega arith, r) a
scan-AreApart min_exit i none last ((false, t) ∷ flags) out r a =
    scan-AreApart min_exit (i + 1) none t flags out (EndBy-le i (i + 1) out (omega arith) r) a
scan-AreApart min_exit i (some (start, enter)) last ((true, t) ∷ flags) out r a =
    scan-AreApart min_exit (i + 1) (some (start, enter)) t flags out (omega (arith, r.0), r.1) a
scan-AreApart min_exit i (some (start, enter)) last ((false, t) ∷ flags) out r a =
    let run : Visit = record { enter_ts = enter; exit_ts = t; start = start; end = i } in
    let (b, e) = add_run-AreApart min_exit run out r.1 a in
    scan-AreApart min_exit (i + 1) none t flags (add_run min_exit run out)
      (EndBy-le i (i + 1) (add_run min_exit run out) (omega arith) e) b

-- In the order of time, each visit is left `min_exit` or more before the next begins, at a later
-- fix.
abbrev pub InOrder : ℕ → List Visit → Type 0
InOrder min_exit [] = Unit
InOrder min_exit (v ∷ []) = Unit
InOrder min_exit (v ∷ u ∷ vs) =
    (v.exit_ts + min_exit ≤ u.enter_ts) × (v.end ≤ u.start) × InOrder min_exit (u ∷ vs)

InOrder-snoc :
    (min_exit : ℕ) (vs : List Visit) (u v : Visit)
    → InOrder min_exit (vs ++ u ∷ [])
    → u.exit_ts + min_exit ≤ v.enter_ts
    → u.end ≤ v.start
    → InOrder min_exit ((vs ++ u ∷ []) ++ v ∷ [])
InOrder-snoc min_exit [] u v o t e = (t, e, tt)
InOrder-snoc min_exit (w ∷ []) u v o t e = (o.0, o.1, (t, e, tt))
InOrder-snoc min_exit (w ∷ x ∷ vs) u v o t e =
    (o.0, o.1, InOrder-snoc min_exit (x ∷ vs) u v o.2 t e)

InOrder-reverse :
    (min_exit : ℕ) (out : List Visit) → AreApart min_exit out → InOrder min_exit (reverse out)
InOrder-reverse min_exit [] a = tt
InOrder-reverse min_exit (v ∷ []) a = tt
InOrder-reverse min_exit (v ∷ u ∷ out) a =
    rw (reverse-cons v (u ∷ out), reverse-cons u out)
      (InOrder-snoc min_exit (reverse out) u v
        (rw (reverse-cons u out) at (InOrder-reverse min_exit (u ∷ out) a.2)) a.0 a.1)

-- Whatever the fixes, each visit is left at least the time outside that ends one before the next
-- visit begins, and no fix is of two visits.
pub visits-InOrder :
    (flags : List (Bool × ℕ)) (min_exit : ℕ) → InOrder min_exit (visits flags min_exit)
unfolding visits
visits-InOrder flags min_exit =
    InOrder-reverse min_exit (scan min_exit 0 none 0 flags [])
      (scan-AreApart min_exit 0 none 0 flags [] tt tt)
