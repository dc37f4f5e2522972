-- ===== src/Cycles/Stops/Within.antt =====
-- Stops lie within their visit (src/minemonitor/cycles/statemachine.py).
use mine_intelligence.Cycles.Visits.Timed.{All-reverse}
use mine_intelligence.Prelude.{
  All, Bool, Bool-cases, List, Option, [], arith, drop, false, inl, inr, length, length-drop,
  length-take, ltb, min, none, some, suc, take, true, ℕ, ◌+◌, ◌-◌, ◌<◌, ◌∷◌, ◌≤◌,
}
use mine_intelligence.Cycles.Visits.{Visit}
use mine_intelligence.Cycles.Stops.{
  Fix, Geometry, Stop, add_spell, grow, min_step_m, one_point, scan_stops, stops,
}

abbrev pub IsWithin : ℕ → ℕ → Stop → Type 0
IsWithin lo hi s = (lo ≤ s.start) × (s.start < s.end) × (s.end ≤ hi)

Within-le :
    (lo i j : ℕ) (out : List Stop) → i ≤ j → All (IsWithin lo i) out → All (IsWithin lo j) out
Within-le lo i j [] h w = tt
Within-le lo i j (s ∷ out) h (w, ws) = (omega (arith, w), Within-le lo i j out h ws)

add_spell-Within :
    (geometry : Geometry) (lo hi : ℕ) (spell : Stop) (out : List Stop)
    → IsWithin lo hi spell
    → All (IsWithin lo spell.start) out
    → All (IsWithin lo hi) (add_spell geometry spell out)
unfolding add_spell
add_spell-Within geometry lo hi spell [] s w = (s, tt)
add_spell-Within geometry lo hi spell (prev ∷ out) s (w, ws) =
    let le : spell.start ≤ hi = omega (arith, s) in
    let outs = Within-le lo spell.start hi out le ws in
    elim (Bool-cases (ltb (geometry.haversine_m prev.place spell.place) min_step_m)) [
      | inl e ↦ rw e ((w.0, omega (arith, w, s), s.2), outs)
      | inr e ↦ rw e (s, ((w.0, w.1, omega (arith, w, s)), outs))
    ]

abbrev Spell : ℕ → ℕ → Option Stop → List Stop → Type 0
Spell lo i none out = All (IsWithin lo i) out
Spell lo i (some spell) out =
    (lo ≤ spell.start) × (spell.start < i) × All (IsWithin lo spell.start) out

next :
    (i n lo : ℕ) (out : List Stop)
    → All (IsWithin lo (i + 1 + n)) out
    → All (IsWithin lo (i + suc n)) out
next i n lo out w = Within-le lo (i + 1 + n) (i + suc n) out (omega arith) w

scan_stops-Within :
    (geometry : Geometry) (lo i : ℕ) (spell : Option Stop) (fixes : List (Bool × Fix))
    (out : List Stop)
    → lo ≤ i
    → Spell lo i spell out
    → All (IsWithin lo (i + length fixes)) (scan_stops geometry i spell fixes out)
unfolding scan_stops grow
scan_stops-Within geometry lo i none [] out h w = Within-le lo i (i + 0) out (omega arith) w
scan_stops-Within geometry lo i (some spell) [] out h w =
    add_spell-Within geometry lo (i + 0) (record spell { end = i }) out (w.0, w.1, omega arith) w.2
scan_stops-Within geometry lo i none ((true, f) ∷ fixes) out h w = next i (length fixes) lo _ (
    scan_stops-Within geometry lo (i + 1) none fixes out (omega arith)
      (Within-le lo i (i + 1) out (omega arith) w))
scan_stops-Within geometry lo i none ((false, f) ∷ fixes) out h w = next i (length fixes) lo _ (
    scan_stops-Within geometry lo (i + 1)
      (some (record { start = i; end = i; place = one_point f.lat f.lon })) fixes out (omega arith)
      (h, omega arith, w))
scan_stops-Within geometry lo i (some spell) ((false, f) ∷ fixes) out h w =
    next i (length fixes) lo _ (
      scan_stops-Within geometry lo (i + 1) (some (grow spell f)) fixes out (omega arith)
        (w.0, omega (arith, w.1), w.2))
scan_stops-Within geometry lo i (some spell) ((true, f) ∷ fixes) out h w =
    next i (length fixes) lo _ (
      scan_stops-Within geometry lo (i + 1) none fixes
        (add_spell geometry (record spell { end = i }) out) (omega arith)
        (Within-le lo i (i + 1) _ (omega arith) (
          add_spell-Within geometry lo i (record spell { end = i }) out (w.0, w.1, omega arith)
            w.2)))

-- The stops of a visit stand at its fixes, and each has one.
pub stops-Within :
    (geometry : Geometry) (fixes : List (Bool × Fix)) (visit : Visit)
    → visit.start < visit.end
    → visit.start < length fixes
    → All (IsWithin visit.start (min visit.end (length fixes))) (stops geometry fixes visit)
unfolding stops
stops-Within geometry fixes visit some_fix in_range =
    let n = visit.end - visit.start in
    let slice = take n (drop visit.start fixes) in
    let found = scan_stops geometry visit.start none slice [] in
    let lengths : visit.start + length slice ≤ min visit.end (length fixes) =
      omega (arith, length-take n (drop visit.start fixes), length-drop visit.start fixes) in
    let w = scan_stops-Within geometry visit.start visit.start none slice [] (omega arith) tt in
    All-reverse (IsWithin visit.start (min visit.end (length fixes))) found (
      Within-le visit.start (visit.start + length slice) (min visit.end (length fixes)) found
        lengths w)
