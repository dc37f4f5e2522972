-- ===== src/Cycles/Stops.antt =====
-- Stops within a visit, and the queue in front of the loader
-- (src/minemonitor/cycles/statemachine.py). Coordinates are whole numbers of a fixed small angle from
-- a corner of the map, distances whole millimetres and speeds metres per hour.
pub mod Within
use Prim.Native.Nat.{Ordering}
use Prim.Native.String.{compare}
use mathlib.Core.List.{reverse}
use mine_intelligence.Prelude.{
  Bool, List, Option, String, [], drop, false, if◌then◌else◌, is_empty, leb, length, ltb, map, none,
  not, select, some, str_eq, take, true, ℕ, ◌%◌, ◌&&◌, ◌*◌, ◌+◌, ◌-◌, ◌/◌, ◌==◌, ◌∷◌,
}
use mine_intelligence.Cycles.Visits.{Visit}

pub record Fix : Type 0 where
  pub ts : ℕ
  pub lat : ℕ
  pub lon : ℕ
  pub speed_kph : Option ℕ

pub record LoaderFix : Type 0 where
  pub asset_id : String
  pub ts : ℕ
  pub lat : ℕ
  pub lon : ℕ

-- A point as a sum of `n` points, of which it is the centroid.
pub record Centroid : Type 0 where
  pub n : ℕ
  pub lat_sum : ℕ
  pub lon_sum : ℕ

-- haversine_m, to a point and to a centroid; and point_in_polygon, where a GeoJSON polygon is its
-- text.
pub record Geometry : Type 0 where
  pub haversine_m : Centroid → Centroid → ℕ
  pub point_in_polygon : ℕ → ℕ → String → Bool

abbrev pub seconds : ℕ → ℕ
seconds n = n * 1000000

abbrev pub min_load : ℕ
min_load = seconds 30

abbrev pub min_step_m : ℕ
min_step_m = 5000

abbrev pub loader_match : ℕ
loader_match = seconds 30

-- The fixes from `start` up to `end`, of which `place.n` are stationary.
pub record Stop : Type 0 where
  pub start : ℕ
  pub end : ℕ
  pub place : Centroid

unfoldable pub merge : Centroid → Centroid → Centroid
merge a b = record {
  n = a.n + b.n;
  lat_sum = a.lat_sum + b.lat_sum;
  lon_sum = a.lon_sum + b.lon_sum;
}

unfoldable pub one_point : ℕ → ℕ → Centroid
one_point lat lon = record { n = 1; lat_sum = lat; lon_sum = lon }

-- A stationary spell joins the stop before it if they are less than a step apart. The stops are the
-- newest first here.
unfoldable pub add_spell : Geometry → Stop → List Stop → List Stop
unfolding merge
add_spell geometry spell [] = spell ∷ []
add_spell geometry spell (prev ∷ out) =
    if ltb (geometry.haversine_m prev.place spell.place) min_step_m
    then record prev { end = spell.end; place = merge prev.place spell.place } ∷ out
    else spell ∷ prev ∷ out

unfoldable pub grow : Stop → Fix → Stop
unfolding merge one_point
grow spell f = record spell { place = merge spell.place (one_point f.lat f.lon) }

-- The scan at fix `i` of a visit's fixes, each with whether it moves, and the spell that is open.
unfoldable pub scan_stops : Geometry → ℕ → Option Stop → List (Bool × Fix) → List Stop → List Stop
unfolding grow one_point
scan_stops geometry i none [] out = out
scan_stops geometry i (some spell) [] out = add_spell geometry (record spell { end = i }) out
scan_stops geometry i none ((true, f) ∷ rest) out = scan_stops geometry (i + 1) none rest out
scan_stops geometry i none ((false, f) ∷ rest) out =
    scan_stops geometry (i + 1)
      (some (record { start = i; end = i; place = one_point f.lat f.lon })) rest out
scan_stops geometry i (some spell) ((false, f) ∷ rest) out =
    scan_stops geometry (i + 1) (some (grow spell f)) rest out
scan_stops geometry i (some spell) ((true, f) ∷ rest) out =
    scan_stops geometry (i + 1) none rest (add_spell geometry (record spell { end = i }) out)

-- _stops
unfoldable pub stops : Geometry → List (Bool × Fix) → Visit → List Stop
stops geometry fixes visit = reverse (
    scan_stops geometry visit.start none (take (visit.end - visit.start) (drop visit.start fixes))
      [])

-- _Loaders: the fixes of each loader in time order, the loaders in the order of their ids.
insert_fix : LoaderFix → List LoaderFix → List LoaderFix
insert_fix f [] = f ∷ []
insert_fix f (g ∷ gs) = let rest = insert_fix f gs in if ltb f.ts g.ts then f ∷ g ∷ gs else g ∷ rest

is_less : Ordering → Bool
is_less Ordering.lt = true
is_less _ = false

insert_loader : LoaderFix → List (String × List LoaderFix) → List (String × List LoaderFix)
insert_loader f [] = (f.asset_id, f ∷ []) ∷ []
insert_loader f ((id, fs) ∷ ls) =
    let rest = insert_loader f ls in
    if str_eq id f.asset_id
    then (id, insert_fix f fs) ∷ ls
    else if is_less (compare f.asset_id id)
    then (f.asset_id, f ∷ []) ∷ (id, fs) ∷ ls
    else (id, fs) ∷ rest

group : List LoaderFix → List (String × List LoaderFix) → List (String × List LoaderFix)
group [] ls = ls
group (f ∷ fs) ls = group fs (insert_loader f ls)

unfoldable pub loaders_of : List LoaderFix → String → List (String × List LoaderFix)
unfolding group insert_loader insert_fix is_less
loaders_of fixes exclude =
    group (select (λ (f : LoaderFix). not (str_eq f.asset_id exclude)) fixes) []

insert_number : ℕ → List ℕ → List ℕ
insert_number x [] = x ∷ []
insert_number x (y ∷ ys) = let rest = insert_number x ys in if ltb y x then y ∷ rest else x ∷ y ∷ ys

sorted : List ℕ → List ℕ
sorted [] = []
sorted (x ∷ xs) = insert_number x (sorted xs)

sum_of : List ℕ → ℕ
sum_of [] = 0
sum_of (x ∷ xs) = x + sum_of xs

-- Twice `statistics.median`: the middle number twice, or the two middle ones.
unfoldable pub twice_median : List ℕ → ℕ
unfolding insert_number sorted sum_of
twice_median xs =
    let n = length xs in
    let ys = sorted xs in
    if n % 2 == 1
    then 2 * sum_of (take 1 (drop (n / 2) ys))
    else sum_of (take 2 (drop (n / 2 - 1) ys))

-- beside, from the best loader so far with twice its distance
unfoldable pub nearest :
    Geometry
    → Centroid
    → ℕ
    → ℕ
    → ℕ
    → List (String × List LoaderFix)
    → Option (ℕ × String)
    → Option String
unfolding twice_median one_point
nearest geometry place since until pairing_m [] none = none
nearest geometry place since until pairing_m [] (some (d, id)) = some id
nearest geometry place since until pairing_m ((id, fs) ∷ ls) best =
    let near = select (λ (f : LoaderFix). leb since f.ts && leb f.ts until) fs in
    let d =
      twice_median
        (map (λ (f : LoaderFix). geometry.haversine_m place (one_point f.lat f.lon)) near) in
    let closer : Bool = elim best [ none ↦ true | some (b, j) ↦ ltb d b ] in
    nearest geometry place since until pairing_m ls
      (if not (is_empty near) && (leb d (2 * pairing_m) && closer) then some (d, id) else best)

unfoldable pub beside :
    Geometry → List (String × List LoaderFix) → Centroid → ℕ → ℕ → ℕ → Option String
beside geometry ls place since until pairing_m =
    nearest geometry place since until pairing_m ls none
