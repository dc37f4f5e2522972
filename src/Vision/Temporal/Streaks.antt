-- ===== src/Vision/Temporal/Streaks.antt =====
-- A streak is a function of the observations it has seen (src/minemonitor/vision/temporal.py).
use mine_intelligence.Prelude.{
  Bool, List, [], arith, false, if◌then◌else◌, leb, max, not, refl, some, true, ℕ, ◌&&◌, ◌+◌, ◌<◌,
  ◌==◌, ◌||◌, ◌∷◌, ◌≡◌,
}
use mine_intelligence.Vision.Temporal.{Parameters, Streak, advance, millis, new_streak}

-- An observation that qualifies or not, and its time.
pub record Sight : Type 0 where
  pub hit : Bool
  pub ts : ℕ

module _ (p : Parameters) where
  -- What the engine does with one observation: a call that fires marks the streak.
  unfoldable pub observe : Streak → Sight → Streak × Bool
  observe st x =
      let (st', fire) = advance st x.hit x.ts p in
      (record st' { fired = if fire then true else st'.fired }, fire)

  -- The streak after some observations, the newest first.
  unfoldable pub seen : List Sight → Streak
  seen [] = new_streak
  seen (x ∷ h) = (observe (seen h) x).0

  unfoldable pub run : List Sight → ℕ
  run [] = 0
  run (x ∷ h) = let before = run h in if x.hit then before + 1 else 0

  unfoldable pub run_start : List Sight → ℕ
  run_start [] = 0
  run_start (x ∷ h) = let before = run_start h in if run h == 0 then x.ts else before

  unfoldable pub misses : List Sight → ℕ
  misses [] = 0
  misses (x ∷ h) = let before = misses h in if x.hit then 0 else before + 1

  -- Confirmed by enough hits in a row, released by enough misses in a row.
  unfoldable pub holds : List Sight → Bool
  holds [] = false
  holds (x ∷ h) =
      let before = holds h in
      if before
      then x.hit || not (leb (max 1 p.hysteresis_observations) (misses (x ∷ h)))
      else x.hit && leb p.min_observations (run (x ∷ h))

  -- When the confirmed condition began: with the first hit of the run that confirmed it.
  unfoldable pub began : List Sight → ℕ
  began [] = 0
  began (x ∷ h) = let before = began h in if holds h then before else run_start (x ∷ h)

  -- The dwell has been reached at some hit since the condition was confirmed.
  unfoldable pub reached : List Sight → Bool
  reached [] = false
  reached (x ∷ h) =
      let before = reached h in
      holds (x ∷ h)
      && ((holds h && before) || (x.hit && leb (began (x ∷ h) + millis p.min_dwell_ms) x.ts))

  record Agrees (st : Streak) (h : List Sight) : Type 0 where
    confirmed : st.confirmed ≡ holds h
    streak_in : st.confirmed ≡ false → st.streak_in ≡ run h
    start : st.confirmed ≡ false → 0 < st.streak_in → st.start ≡ some (run_start h)
    since : st.confirmed ≡ true → st.since ≡ some (began h)
    streak_out : st.confirmed ≡ true → st.streak_out ≡ misses h
    fired : st.fired ≡ reached h

  holds_of_reached : (h : List Sight) → reached h ≡ true → holds h ≡ true
  unfolding reached
  holds_of_reached [] e = cc
  holds_of_reached (x ∷ h) e = ground arith

  observe-Agrees :
      (st : Streak) (x : Sight) (h : List Sight) → Agrees st h → Agrees (observe st x).0 (x ∷ h)
  unfolding observe advance run run_start misses holds began reached
  observe-Agrees st x h a = ground (arith, holds_of_reached h)

  seen-Agrees : (h : List Sight) → Agrees (seen h) h
  unfolding seen new_streak run holds reached
  seen-Agrees [] = record {
    confirmed = refl;
    streak_in = λ e. refl;
    start = λ e pos. absurd (omega arith);
    since = λ e. cc;
    streak_out = λ e. cc;
    fired = refl;
  }
  seen-Agrees (x ∷ h) = observe-Agrees (seen h) x h (seen-Agrees h)

  -- Over any observations, a new streak is confirmed by `min_observations` hits in a row and
  -- released by `hysteresis_observations` misses in a row (one at least), and by nothing else.
  pub confirmed-seen : (h : List Sight) → (seen h).confirmed ≡ holds h
  confirmed-seen h = (seen-Agrees h).confirmed

  -- The event fires at an observation exactly when there the dwell since the first hit of the
  -- confirming run is first reached: once for each confirmed presence.
  pub fires-seen :
      (x : Sight) (h : List Sight)
      → (observe (seen h) x).1 ≡ (reached (x ∷ h) && not (reached h && holds h))
  unfolding observe advance run run_start misses holds began reached
  fires-seen x h = let a = seen-Agrees h in ground (arith, holds_of_reached h, a)

  -- Misses alone, or fewer hits in a row than `min_observations`, never confirm a condition, and
  -- never fire.
  pub flicker-seen :
      (x : Sight) (h : List Sight)
      → holds h ≡ false
      → run (x ∷ h) < p.min_observations
      → ((observe (seen h) x).0.confirmed ≡ false) × ((observe (seen h) x).1 ≡ false)
  unfolding observe advance run run_start misses holds began reached
  flicker-seen x h e few = let a = seen-Agrees h in ground (arith, holds_of_reached h, a)
