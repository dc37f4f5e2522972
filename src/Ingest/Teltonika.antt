-- ===== src/Ingest/Teltonika.antt =====
-- src/minemonitor/ingest/adapters/teltonika.py: the codec of Teltonika trackers. A text of bytes is a
-- list of numbers below 256, and coordinates stay the whole numbers of 1e-7 degree that are sent.
pub mod Format
pub mod Reads
pub mod RoundTrip
mod Tests
use Prim.Native.Nat.{bit_xor}
use mine_intelligence.Prelude.{
  Bool, List, Option, [], drop, get_elem?, if◌then◌else◌, inl, inr, is_empty, leb, length, ltb,
  negsuc, none, not, pos, select, some, suc, take, true, zero, ℕ, ℤ, ◌%◌, ◌&&◌, ◌*◌, ◌+◌, ◌-◌, ◌/◌,
  ◌==◌, ◌^◌, ◌||◌, ◌∷◌, ◌⊎◌,
}

pub data Failure : Type 0 where
  too_short bad_preamble truncated missing_crc crc_mismatch : Failure
  unsupported_codec count_mismatch bad_timestamp index_error : Failure

-- `crc = (crc >> 1) ^ 0xA001 if crc & 1 else crc >> 1`, so many times
crc_bits : ℕ → ℕ → ℕ
crc_bits zero crc = crc
crc_bits (suc k) crc = crc_bits k (if crc % 2 == 1 then bit_xor (crc / 2) 0xA001 else crc / 2)

crc_bytes : List ℕ → ℕ → ℕ
crc_bytes [] crc = crc
crc_bytes (b ∷ bs) crc = crc_bytes bs (crc_bits 8 (bit_xor crc b))

unfoldable pub crc16_ibm : List ℕ → ℕ
unfolding crc_bytes crc_bits
crc16_ibm bytes = crc_bytes bytes 0 % 0x10000

-- int.from_bytes(…, "big"), after `acc`
unfoldable pub from_big : ℕ → List ℕ → ℕ
from_big acc [] = acc
from_big acc (b ∷ bs) = from_big (acc * 256 + b) bs

-- data[off : off + n]
unfoldable pub slice : List ℕ → ℕ → ℕ → List ℕ
slice bytes off n = take n (drop off bytes)

-- _u
unfoldable pub u : List ℕ → ℕ → ℕ → ℕ × ℕ
unfolding slice from_big
u bytes off n = (from_big 0 (slice bytes off n), off + n)

-- The integer that a pattern of `n` bytes stands for.
unfoldable pub signed : ℕ → ℕ → ℤ
signed n w = if ltb w (128 * 256 ^ (n - 1)) then pos w else negsuc (256 ^ n - 1 - w)

-- _s
unfoldable pub s : List ℕ → ℕ → ℕ → ℤ × ℕ
unfolding signed
s bytes off n = let (w, off') = u bytes off n in (signed n w, off')

unfoldable pub set_io : List (ℕ × ℕ) → ℕ → ℕ → List (ℕ × ℕ)
set_io [] id value = (id, value) ∷ []
set_io ((j, w) ∷ io) id value =
    let rest = set_io io id value in if j == id then (id, value) ∷ io else (j, w) ∷ rest

-- the values of one size
unfoldable pub read_values : List ℕ → ℕ → ℕ → ℕ → ℕ → List (ℕ × ℕ) → List (ℕ × ℕ) × ℕ
read_values bytes w size zero off io = (io, off)
read_values bytes w size (suc count) off io =
    let (id, off1) = u bytes off w in
    let (value, off2) = u bytes off1 size in
    read_values bytes w size count off2 (set_io io id value)

unfoldable pub read_sizes : List ℕ → ℕ → List ℕ → ℕ → List (ℕ × ℕ) → List (ℕ × ℕ) × ℕ
read_sizes bytes w [] off io = (io, off)
read_sizes bytes w (size ∷ sizes) off io =
    let (count, off1) = u bytes off w in
    let (io', off2) = read_values bytes w size count off1 io in read_sizes bytes w sizes off2 io'

-- the entries of variable length, which are stepped over
unfoldable pub skip_entries : List ℕ → ℕ → ℕ → ℕ
skip_entries bytes zero off = off
skip_entries bytes (suc nx) off =
    let (id, off1) = u bytes off 2 in
    let (len, off2) = u bytes off1 2 in skip_entries bytes nx (off2 + len)

abbrev pub width : Bool → ℕ
width extended = if extended then 2 else 1

-- _parse_io
unfoldable pub parse_io : List ℕ → ℕ → Bool → ℕ × List (ℕ × ℕ) × ℕ
parse_io bytes off extended =
    let (event_io_id, off1) = u bytes off (width extended) in
    let (total, off2) = u bytes off1 (width extended) in
    let (io, off3) = read_sizes bytes (width extended) (1 ∷ 2 ∷ 4 ∷ 8 ∷ []) off2 [] in
    let (nx, off4) = u bytes off3 2 in
    (event_io_id, io, if extended then skip_entries bytes nx off4 else off3)

-- `ts_ms` is the device time in milliseconds, which the datetime stands for.
pub record AvlRecord : Type 0 where
  pub ts_ms : ℕ
  pub priority : ℕ
  pub lon : ℤ
  pub lat : ℤ
  pub altitude_m : ℤ
  pub angle_deg : ℕ
  pub satellites : ℕ
  pub speed_kph : ℕ
  pub event_io_id : ℕ
  pub io : List (ℕ × ℕ)

pub record DecodedPacket : Type 0 where
  pub codec_id : ℕ
  pub records : List AvlRecord

-- The first millisecond of the year 10000, which no datetime can hold.
abbrev pub end_of_time : ℕ
end_of_time = 253402300800000

-- _parse_record
unfoldable pub parse_record : List ℕ → ℕ → Bool → Failure ⊎ (AvlRecord × ℕ)
parse_record bytes off extended =
    let (ts_ms, off1) = u bytes off 8 in
    let (priority, off2) = u bytes off1 1 in
    let (lon_raw, off3) = s bytes off2 4 in
    let (lat_raw, off4) = s bytes off3 4 in
    let (altitude, off5) = s bytes off4 2 in
    let (angle, off6) = u bytes off5 2 in
    let (satellites, off7) = u bytes off6 1 in
    let (speed, off8) = u bytes off7 2 in
    let (event_io_id, io, off9) = parse_io bytes off8 extended in
    if ltb ts_ms end_of_time
    then inr (
      record {
        ts_ms = ts_ms;
        priority = priority;
        lon = lon_raw;
        lat = lat_raw;
        altitude_m = altitude;
        angle_deg = angle;
        satellites = satellites;
        speed_kph = speed;
        event_io_id = event_io_id;
        io = io;
      },
      off9,
    )
    else inl bad_timestamp

unfoldable pub parse_records : List ℕ → Bool → ℕ → ℕ → Failure ⊎ (List AvlRecord × ℕ)
parse_records bytes extended zero off = inr ([], off)
parse_records bytes extended (suc count) off = elim (parse_record bytes off extended) [
  | inl e ↦ inl e
  | inr (r, off') ↦ elim (parse_records bytes extended count off') [
    | inl e ↦ inl e
    | inr (rs, off'') ↦ inr (r ∷ rs, off'')
  ]
]

-- the part of decode_packet after the checks of the frame
unfoldable pub decode_field : List ℕ → Failure ⊎ DecodedPacket
decode_field bytes = elim (get_elem? bytes 0) [
  | none ↦ inl index_error
  | some codec_id ↦
      if not (codec_id == 0x08 || codec_id == 0x8E)
      then inl unsupported_codec
      else elim (get_elem? bytes 1) [
        | none ↦ inl index_error
        | some count ↦ elim (parse_records bytes (codec_id == 0x8E) count 2) [
          | inl e ↦ inl e
          | inr (records, off) ↦ elim (get_elem? bytes off) [
            | none ↦ inl index_error
            | some trailing_count ↦
                if trailing_count == count
                then inr (record { codec_id = codec_id; records = records })
                else inl count_mismatch
          ]
        ]
      ]
]

unfoldable pub decode_packet : List ℕ → Failure ⊎ DecodedPacket
decode_packet frame =
    let data_len = from_big 0 (slice frame 4 4) in
    let bytes = slice frame 8 data_len in
    let crc_field = slice frame (8 + data_len) 4 in
    if ltb (length frame) 12
    then inl too_short
    else if not (from_big 0 (slice frame 0 4) == 0)
    then inl bad_preamble
    else if not (length bytes == data_len)
    then inl truncated
    else if not (length crc_field == 4)
    then inl missing_crc
    else if not (crc16_ibm bytes == from_big 0 crc_field)
    then inl crc_mismatch
    else decode_field bytes

-- n.to_bytes(width, "big"), in front of `rest`
unfoldable pub to_big : ℕ → ℕ → List ℕ → List ℕ
to_big zero v rest = rest
to_big (suc n) v rest = (v / 256 ^ n) ∷ to_big n (v % 256 ^ n) rest

-- ack_bytes, for a count that four bytes hold
unfoldable pub ack_bytes : ℕ → List ℕ
unfolding to_big
ack_bytes n = to_big 4 n []

is_digit : ℕ → Bool
is_digit b = leb b'0' b && leb b b'9'

all_digits : List ℕ → Bool
all_digits [] = true
all_digits (b ∷ bs) = is_digit b && all_digits bs

-- what `decode("ascii", "ignore")` keeps
ascii : List ℕ → List ℕ
ascii bytes = select (λ (b : ℕ). ltb b 128) bytes

-- parse_imei, with the digits as their character codes
unfoldable pub parse_imei : List ℕ → Option (List ℕ)
unfolding is_digit all_digits ascii
parse_imei bytes =
    let len = from_big 0 (slice bytes 0 2) in
    let imei = slice bytes 2 len in
    if ltb (length bytes) 2
    then none
    else if not (length imei == len)
    then none
    else if not (is_empty (ascii imei)) && all_digits (ascii imei)
    then some (ascii imei)
    else none
