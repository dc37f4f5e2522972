-- ===== src/Ingest/Teltonika/Format.antt =====
-- The AVL frame as the protocol describes it, written out by a tracker: an independent description
-- of what src/minemonitor/ingest/adapters/teltonika.py reads.
use mine_intelligence.Prelude.{
  All, Bool, List, [], false, if◌then◌else◌, length, negsuc, pos, true, ℕ, ℤ, ◌%◌, ◌*◌, ◌++◌, ◌+◌,
  ◌-◌, ◌<◌, ◌^◌, ◌∷◌,
}
use mine_intelligence.Ingest.Teltonika.{AvlRecord, crc16_ibm, end_of_time, set_io, to_big, width}

-- What a tracker reports: the values by their size in bytes, and for Codec 8E also entries of
-- variable length.
pub record Report : Type 0 where
  pub ts_ms : ℕ
  pub priority : ℕ
  pub lon : ℤ
  pub lat : ℤ
  pub altitude : ℤ
  pub angle : ℕ
  pub satellites : ℕ
  pub speed : ℕ
  pub event_io_id : ℕ
  pub io1 : List (ℕ × ℕ)
  pub io2 : List (ℕ × ℕ)
  pub io4 : List (ℕ × ℕ)
  pub io8 : List (ℕ × ℕ)
  pub entries : List (ℕ × List ℕ)

-- The pattern of a signed number in `n` bytes.
abbrev pub word : ℕ → ℤ → ℕ
word n (pos x) = x
word n (negsuc x) = 256 ^ n - 1 - x

-- The parts of a frame, each in front of what follows it.
unfoldable pub put_values : ℕ → ℕ → List (ℕ × ℕ) → List ℕ → List ℕ
put_values w size [] rest = rest
put_values w size ((id, value) ∷ io) rest =
    to_big w id (to_big size value (put_values w size io rest))

abbrev pub put_size : ℕ → ℕ → List (ℕ × ℕ) → List ℕ → List ℕ
put_size w size io rest = to_big w (length io) (put_values w size io rest)

unfoldable pub put_entries : List (ℕ × List ℕ) → List ℕ → List ℕ
put_entries [] rest = rest
put_entries ((id, bytes) ∷ es) rest =
    to_big 2 id (to_big 2 (length bytes) (bytes ++ put_entries es rest))

abbrev pub put_variable : Bool → List (ℕ × List ℕ) → List ℕ → List ℕ
put_variable true es rest = to_big 2 (length es) (put_entries es rest)
put_variable false es rest = rest

abbrev pub total : Report → ℕ
total r = length r.io1 + length r.io2 + length r.io4 + length r.io8

unfoldable pub put_io : Bool → Report → List ℕ → List ℕ
put_io extended r rest =
    let w = width extended in
    to_big w r.event_io_id (
      to_big w (total r % 256 ^ w) (
        put_size w 1 r.io1 (
          put_size w 2 r.io2
            (put_size w 4 r.io4 (put_size w 8 r.io8 (put_variable extended r.entries rest))))))

unfoldable pub put_report : Bool → Report → List ℕ → List ℕ
put_report extended r rest = to_big 8 r.ts_ms (
    to_big 1 r.priority (
      to_big 4 (word 4 r.lon) (
        to_big 4 (word 4 r.lat) (
          to_big 2 (word 2 r.altitude) (
            to_big 2 r.angle
              (to_big 1 r.satellites (to_big 2 r.speed (put_io extended r rest))))))))

unfoldable pub put_reports : Bool → List Report → List ℕ → List ℕ
put_reports extended [] rest = rest
put_reports extended (r ∷ rs) rest = put_report extended r (put_reports extended rs rest)

abbrev pub codec : Bool → ℕ
codec extended = if extended then 0x8E else 0x08

unfoldable pub field_of : Bool → List Report → List ℕ
field_of extended rs = codec extended ∷ length rs ∷ put_reports extended rs (length rs ∷ [])

unfoldable pub frame_of : Bool → List Report → List ℕ
frame_of extended rs =
    let bytes = field_of extended rs in
    to_big 4 0 (to_big 4 (length bytes) (bytes ++ to_big 4 (crc16_ibm bytes) []))

-- What the report says: of two values of one id the later one, where the first one stood.
abbrev pub set_all : List (ℕ × ℕ) → List (ℕ × ℕ) → List (ℕ × ℕ)
set_all io [] = io
set_all io ((id, value) ∷ vs) = set_all (set_io io id value) vs

abbrev pub record_of : Report → AvlRecord
record_of r = record {
  ts_ms = r.ts_ms;
  priority = r.priority;
  lon = r.lon;
  lat = r.lat;
  altitude_m = r.altitude;
  angle_deg = r.angle;
  satellites = r.satellites;
  speed_kph = r.speed;
  event_io_id = r.event_io_id;
  io = set_all (set_all (set_all (set_all [] r.io1) r.io2) r.io4) r.io8;
}

-- Each number has room in its bytes, and the time is before the year 10000.
abbrev pub InRange : ℕ → ℤ → Type 0
InRange n (pos x) = x < 128 * 256 ^ (n - 1)
InRange n (negsuc x) = x < 128 * 256 ^ (n - 1)

abbrev pub ValuesFit : ℕ → ℕ → List (ℕ × ℕ) → Type 0
ValuesFit w size io =
    All (λ (v : ℕ × ℕ). (v.0 < 256 ^ w) × (v.1 < 256 ^ size)) io × (length io < 256 ^ w)

abbrev pub EntriesFit : List (ℕ × List ℕ) → Type 0
EntriesFit es =
    All (λ (e : ℕ × List ℕ). (e.0 < 256 ^ 2) × (length e.1 < 256 ^ 2)) es × (length es < 256 ^ 2)

pub record Fits (extended : Bool) (r : Report) : Type 0 where
  pub time : r.ts_ms < end_of_time
  pub one_byte : (r.priority < 256 ^ 1) × (r.satellites < 256 ^ 1)
  pub two_bytes : (r.angle < 256 ^ 2) × (r.speed < 256 ^ 2)
  pub places : InRange 4 r.lon × InRange 4 r.lat × InRange 2 r.altitude
  pub event : r.event_io_id < 256 ^ width extended
  pub values1 : ValuesFit (width extended) 1 r.io1
  pub values2 : ValuesFit (width extended) 2 r.io2
  pub values4 : ValuesFit (width extended) 4 r.io4
  pub values8 : ValuesFit (width extended) 8 r.io8
  pub variable : EntriesFit r.entries
