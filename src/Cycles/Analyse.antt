-- ===== src/Cycles/Analyse.antt =====
-- Cycles and the resume point (src/minemonitor/cycles/statemachine.py).
pub mod Laws
pub mod Sums
pub mod Order
mod Tests
use mine_intelligence.Prelude.{
  Bool, List, Option, String, [], false, find, if◌then◌else◌, is_empty, is_some, leb, ltb, map,
  negsuc, none, pos, select, some, true, ℕ, ℤ, ◌&&◌, ◌+◌, ◌-◌, ◌==◌, ◌||◌, ◌∷◌,
}
use mine_intelligence.Cycles.Visits.{Visit, credited_zone, visits}
use mine_intelligence.Cycles.Queue.{queue_seconds}
use mine_intelligence.Cycles.Stops.{Fix, Geometry, LoaderFix, loaders_of}

-- The difference of two times.
unfoldable pub sub_ℕ : ℕ → ℕ → ℤ
sub_ℕ a b = if leb b a then pos (a - b) else negsuc (b - a - 1)

pub record Cycle : Type 0 where
  pub asset_id : String
  pub cycle_index : ℕ
  pub start_ts : ℕ
  pub end_ts : ℕ
  pub cycle_time : ℕ
  pub queue : ℕ
  pub load : ℕ
  pub haul : ℕ
  pub dump : ℕ
  pub return : ℤ
  pub load_zone_id : Option String
  pub dump_zone_id : Option String
  pub loader_id : Option String

pub record Resume : Type 0 where
  pub ts : ℕ
  pub entry_known : Bool
  pub inside : Bool

-- A zone is its id and its polygon.
pub record Parameters : Type 0 where
  pub load_zones : List (String × String)
  pub dump_zones : List (String × String)
  pub move_threshold_kph : ℕ
  pub min_visit : ℕ
  pub min_exit : ℕ
  pub max_cycle : Option ℕ
  pub leading_entry_known : Bool
  pub opens_from : Option ℕ
  pub loaders : List LoaderFix
  pub pairing_m : ℕ

-- _zone_at
unfoldable pub zone_at : Geometry → Fix → List (String × String) → Option String
zone_at geometry f [] = none
zone_at geometry f ((id, polygon) ∷ zones) =
    let rest = zone_at geometry f zones in
    if geometry.point_in_polygon f.lat f.lon polygon then some id else rest

unfoldable pub insert_by_ts : Fix → List Fix → List Fix
insert_by_ts f [] = f ∷ []
insert_by_ts f (g ∷ gs) =
    let rest = insert_by_ts f gs in if ltb g.ts f.ts then g ∷ rest else f ∷ g ∷ gs

unfoldable pub by_ts : List Fix → List Fix
unfolding insert_by_ts
by_ts [] = []
by_ts (f ∷ fs) = insert_by_ts f (by_ts fs)

unfoldable pub moves : ℕ → Fix → Bool
moves threshold f = elim f.speed_kph [ none ↦ leb threshold 0 | some v ↦ leb threshold v ]

unfoldable pub long_enough : ℕ → Visit → Bool
long_enough min_visit v = leb min_visit (v.exit_ts - v.enter_ts)

unfoldable pub can_open : Parameters → Visit → Bool
can_open p v =
    elim p.opens_from [ none ↦ true | some from ↦ leb from v.enter_ts ]
    && (ltb 0 v.start || p.leading_entry_known)

-- What the analysis works out from the fixes before it pairs the visits.
pub record Stream : Type 0 where
  pub times : List ℕ
  pub fixes : List (Bool × Fix)
  pub load_at : List (Option String)
  pub dump_at : List (Option String)
  pub ls : List (String × List LoaderFix)

unfoldable pub within_cap : Option ℕ → ℕ → Bool
within_cap none d = true
within_cap (some cap_ts) d = leb d cap_ts

unfoldable pub is_between : Visit → Visit → Visit → Bool
is_between lv next d = leb lv.exit_ts d.enter_ts && ltb d.enter_ts next.enter_ts

unfoldable pub cycle_through :
    Geometry → Parameters → String → Stream → ℕ → Visit → Visit → Visit → Cycle
cycle_through geometry p asset_id st index lv next dv =
    let (queue, loader_id) = queue_seconds geometry st.times st.fixes lv st.ls p.pairing_m in
    record {
      asset_id = asset_id;
      cycle_index = index;
      start_ts = lv.enter_ts;
      end_ts = next.enter_ts;
      cycle_time = next.enter_ts - lv.enter_ts;
      queue = queue;
      load = lv.exit_ts - lv.enter_ts - queue;
      haul = dv.enter_ts - lv.exit_ts;
      dump = dv.exit_ts - dv.enter_ts;
      return = sub_ℕ next.enter_ts dv.exit_ts;
      load_zone_id = credited_zone lv st.load_at;
      dump_zone_id = credited_zone dv st.dump_at;
      loader_id = loader_id;
    }

-- The cycle from one load visit to the next, if there is one.
unfoldable pub cycle_of :
    Geometry → Parameters → String → Stream → List Visit → ℕ → Visit → Visit → Option Cycle
unfolding within_cap is_between
cycle_of geometry p asset_id st dumps index lv next =
    if can_open p lv && within_cap p.max_cycle (next.enter_ts - lv.enter_ts)
    then elim (find (is_between lv next) dumps) [
      | none ↦ none
      | some dv ↦ some (cycle_through geometry p asset_id st index lv next dv)
    ]
    else none

unfoldable pub cycles_of :
    Geometry → Parameters → String → Stream → List Visit → ℕ → List Visit → List Cycle
cycles_of geometry p asset_id st dumps index [] = []
cycles_of geometry p asset_id st dumps index (lv ∷ []) = []
cycles_of geometry p asset_id st dumps index (lv ∷ next ∷ rest) =
    elim (cycle_of geometry p asset_id st dumps index lv next) [
      | none ↦ cycles_of geometry p asset_id st dumps index (next ∷ rest)
      | some c ↦ c ∷ cycles_of geometry p asset_id st dumps (index + 1) (next ∷ rest)
    ]

unfoldable pub last_of {ℓ} : {A : Type ℓ} → List A → Option A
last_of [] = none
last_of (x ∷ []) = some x
last_of (x ∷ y ∷ ys) = last_of (y ∷ ys)

-- The last load run, if a later fix may still extend it.
unfoldable pub tail_of : Option Visit → Bool → ℕ → ℕ → Option Visit
tail_of none in_load last min_exit = none
tail_of (some run) in_load last min_exit =
    if in_load || ltb last (run.exit_ts + min_exit) then some run else none

-- _may_still_close
unfoldable pub may_still_close : Option ℕ → ℕ → Option Visit → Visit → Bool
may_still_close none last pending opener = true
may_still_close (some most) last pending opener =
    ltb last (opener.enter_ts + most)
    || elim pending [ none ↦ false | some v ↦ leb v.enter_ts (opener.enter_ts + most) ]

unfoldable pub resume_point : Parameters → ℕ → Option Visit → Option Visit → Resume
resume_point p last opener pending =
    let opening : Resume = elim pending [
      | none ↦ record { ts = last; entry_known = false; inside = false }
      | some v ↦
          if can_open p v
          then record { ts = v.enter_ts; entry_known = true; inside = false }
          else record { ts = last; entry_known = false; inside = false }
    ] in
    elim opener [
      | none ↦ opening
      | some v ↦
          if may_still_close p.max_cycle last pending v
          then record { ts = v.enter_ts; entry_known = true; inside = false }
          else opening
    ]

-- The point at which the stream ends within the load visit that it would be rebuilt from.
unfoldable pub mark_inside : Bool → Option Visit → Resume → Resume
mark_inside in_load none resume = resume
mark_inside in_load (some run) resume =
    if resume.entry_known && (in_load && run.enter_ts == resume.ts)
    then record resume { inside = true }
    else resume

unfoldable pub flags_of : List ℕ → List (Option String) → List (Bool × ℕ)
flags_of [] labels = []
flags_of (t ∷ times) [] = []
flags_of (t ∷ times) (z ∷ labels) = (is_some z, t) ∷ flags_of times labels

unfoldable pub stream_of : Geometry → Parameters → String → List Fix → Stream
unfolding moves
stream_of geometry p asset_id fixes = record {
  times = map (λ (f : Fix). f.ts) fixes;
  fixes = map (λ (f : Fix). (moves p.move_threshold_kph f, f)) fixes;
  load_at = map (λ (f : Fix). zone_at geometry f p.load_zones) fixes;
  dump_at = map (λ (f : Fix). zone_at geometry f p.dump_zones) fixes;
  ls = loaders_of p.loaders asset_id;
}

unfoldable pub is_too_short : ℕ → Option Visit → Option Visit
is_too_short min_visit none = none
is_too_short min_visit (some v) = if long_enough min_visit v then none else some v

unfoldable pub load_runs : Parameters → Stream → List Visit
unfolding flags_of
load_runs p st = visits (flags_of st.times st.load_at) p.min_exit

unfoldable pub resume_of : Parameters → Stream → Resume
unfolding mark_inside resume_point last_of is_too_short
resume_of p st =
    let runs = load_runs p st in
    let last : ℕ = elim (last_of st.times) [ none ↦ 0 | some t ↦ t ] in
    let in_load : Bool = elim (last_of st.load_at) [ none ↦ false | some z ↦ is_some z ] in
    let pending = is_too_short p.min_visit (tail_of (last_of runs) in_load last p.min_exit) in
    let openers = select (can_open p) (select (long_enough p.min_visit) runs) in
    mark_inside in_load (last_of runs) (resume_point p last (last_of openers) pending)

-- analyse_cycles
unfoldable pub analyse_cycles :
    Geometry → Parameters → String → List Fix → List Cycle × Option Resume
unfolding flags_of
analyse_cycles geometry p asset_id fixes =
    let st = stream_of geometry p asset_id (by_ts fixes) in
    let loads = select (long_enough p.min_visit) (load_runs p st) in
    let dumps =
      select (long_enough p.min_visit) (visits (flags_of st.times st.dump_at) p.min_exit) in
    if is_empty fixes
    then ([], none)
    else (cycles_of geometry p asset_id st dumps 0 loads, some (resume_of p st))

-- compute_cycles
unfoldable pub compute_cycles : Geometry → Parameters → String → List Fix → List Cycle
compute_cycles geometry p asset_id fixes = (analyse_cycles geometry p asset_id fixes).0
