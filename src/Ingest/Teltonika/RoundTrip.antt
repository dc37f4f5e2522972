-- ===== src/Ingest/Teltonika/RoundTrip.antt =====
-- Reading back what a tracker sends (src/minemonitor/ingest/adapters/teltonika.py).
use mine_intelligence.Prelude.{
  All, Bool, List, [], ap, arith, drop, drop-append, get_elem?, inr, length, length-append, lt→ltb,
  map, refl, some, suc, take, zero, ℕ, ◌%◌, ◌++◌, ◌+◌, ◌<◌, ◌^◌, ◌∙◌, ◌∷◌, ◌≡◌, ◌≤◌,
}
use mine_intelligence.Ingest.Teltonika.{
  crc16_ibm, decode_field, decode_packet, end_of_time, from_big, parse_record, parse_records, slice,
  to_big, u,
}
use mine_intelligence.Ingest.Teltonika.Format.{
  Fits, Report, codec, field_of, frame_of, put_io, put_report, put_reports, record_of, word,
}
use mine_intelligence.Ingest.Teltonika.Reads.{
  At, drop-add, parse_io-put_io, s2-to_big, s4-to_big, take-to_big, u-to_big,
}

parse_record-put_report :
    (bytes : List ℕ) (extended : Bool) (r : Report) (off : ℕ) (rest : List ℕ)
    → Fits extended r
    → At bytes off (put_report extended r rest)
    → (off' : ℕ) × (parse_record bytes off extended ≡ inr (record_of r, off')) × At bytes off' rest
unfolding parse_record put_report
parse_record-put_report bytes extended r off rest f at =
    let io = put_io extended r rest in
    let p8 = to_big 2 r.speed io in
    let p7 = to_big 1 r.satellites p8 in
    let p6 = to_big 2 r.angle p7 in
    let p5 = to_big 2 (word 2 r.altitude) p6 in
    let p4 = to_big 4 (word 4 r.lat) p5 in
    let p3 = to_big 4 (word 4 r.lon) p4 in
    let p2 = to_big 1 r.priority p3 in
    let in_time : r.ts_ms < 256 ^ 8 = omega (arith, f.time) in
    let (e1, at1) = u-to_big bytes off 8 r.ts_ms p2 in_time at in
    let (e2, at2) = u-to_big bytes (off + 8) 1 r.priority p3 f.one_byte.0 at1 in
    let o2 = off + 8 + 1 in
    let (e3, at3) = s4-to_big bytes o2 r.lon p4 f.places.0 at2 in
    let (e4, at4) = s4-to_big bytes (o2 + 4) r.lat p5 f.places.1 at3 in
    let o4 = o2 + 4 + 4 in
    let (e5, at5) = s2-to_big bytes o4 r.altitude p6 f.places.2 at4 in
    let (e6, at6) = u-to_big bytes (o4 + 2) 2 r.angle p7 f.two_bytes.0 at5 in
    let o6 = o4 + 2 + 2 in
    let (e7, at7) = u-to_big bytes o6 1 r.satellites p8 f.one_byte.1 at6 in
    let (e8, at8) = u-to_big bytes (o6 + 1) 2 r.speed io f.two_bytes.1 at7 in
    let (o9, e9, at9) = parse_io-put_io bytes extended r (o6 + 1 + 2) rest f at8 in
    (
      o9,
      rw (parse_record, e1, e2, e3, e4, e5, e6, e7, e8, e9, lt→ltb r.ts_ms end_of_time f.time) refl,
      at9,
    )

parse_records-put_reports :
    (bytes : List ℕ) (extended : Bool) (rs : List Report) (off : ℕ) (rest : List ℕ)
    → All (Fits extended) rs
    → At bytes off (put_reports extended rs rest)
    → (off' : ℕ) × (parse_records bytes extended (length rs) off ≡ inr (map record_of rs, off'))
      × At bytes off' rest
unfolding parse_records put_reports
parse_records-put_reports bytes extended [] off rest f at = (off, refl, at)
parse_records-put_reports bytes extended (r ∷ rs) off rest f at =
    let (o1, e1, at1) =
      parse_record-put_report bytes extended r off (put_reports extended rs rest) f.0 at in
    let (o2, e2, at2) = parse_records-put_reports bytes extended rs o1 rest f.1 at1 in
    (o2, rw (parse_records, e1, e2) refl, at2)

get_elem?-drop {ℓ} :
    {A : Type ℓ} (xs : List A) (n : ℕ) (y : A) (ys : List A)
    → drop n xs ≡ y ∷ ys
    → get_elem? xs n ≡ some y
get_elem?-drop [] zero y ys h = cc
get_elem?-drop [] (suc n) y ys h = cc
get_elem?-drop (x ∷ xs) zero y ys h = ground (arith, h)
get_elem?-drop (x ∷ xs) (suc n) y ys h = get_elem?-drop xs n y ys h

decode_field_lem :
    (extended : Bool) (rs : List Report)
    → All (Fits extended) rs
    → decode_field (field_of extended rs)
      ≡ inr (record { codec_id = codec extended; records = map record_of rs })
unfolding decode_field field_of
decode_field_lem extended rs f =
    let bytes = field_of extended rs in
    let (off, e, at) = parse_records-put_reports bytes extended rs 2 (length rs ∷ []) f refl in
    let tail = get_elem?-drop bytes off (length rs) [] at in ground (arith, e, tail)

take-append {ℓ} : {A : Type ℓ} (xs ys : List A) → take (length xs) (xs ++ ys) ≡ xs
take-append [] ys = refl
take-append (x ∷ xs) ys = rw (take-append xs ys) refl

crc16_ibm-lt : (bytes : List ℕ) → crc16_ibm bytes < 256 ^ 4
unfolding crc16_ibm
crc16_ibm-lt bytes = omega arith

-- A frame whose parts are right is decoded from its data field.
decode_packet_lem :
    (frame bytes : List ℕ)
    → 12 ≤ length frame
    → from_big 0 (slice frame 0 4) ≡ 0
    → from_big 0 (slice frame 4 4) ≡ length bytes
    → slice frame 8 (length bytes) ≡ bytes
    → length (slice frame (8 + length bytes) 4) ≡ 4
    → from_big 0 (slice frame (8 + length bytes) 4) ≡ crc16_ibm bytes
    → decode_packet frame ≡ decode_field bytes
unfolding decode_packet
decode_packet_lem frame bytes long zeros len field four crc =
    rw (len, field, zeros, four, crc) (ground arith)

length-to_big : (n v : ℕ) (rest : List ℕ) → length (to_big n v rest) ≡ n + length rest
unfolding to_big
length-to_big zero v rest = omega arith
length-to_big (suc n) v rest = omega (arith, length-to_big n (v % 256 ^ n) rest)

-- Every report whose numbers have room in their fields is read back from the frame that a tracker
-- writes for it, by either codec: the packet has these reports and no others, in their order, if
-- the frame's length fits its four bytes.
pub decode_packet-frame_of :
    (extended : Bool) (rs : List Report)
    → All (Fits extended) rs
    → length (field_of extended rs) < 256 ^ 4
    → decode_packet (frame_of extended rs)
      ≡ inr (record { codec_id = codec extended; records = map record_of rs })
unfolding frame_of u
decode_packet-frame_of extended rs f small =
    let bytes = field_of extended rs in
    let frame = frame_of extended rs in
    let crc = to_big 4 (crc16_ibm bytes) [] in
    let (e1, at1) =
      u-to_big frame 0 4 0 (to_big 4 (length bytes) (bytes ++ crc)) (omega arith) refl in
    let (e2, at2) = u-to_big frame 4 4 (length bytes) (bytes ++ crc) small at1 in
    let at3 : At frame (8 + length bytes) crc =
      drop-add 8 (length bytes) frame ∙ (rw at2 (drop-append bytes crc)) in
    let (e4, at4) =
      u-to_big frame (8 + length bytes) 4 (crc16_ibm bytes) [] (crc16_ibm-lt bytes) at3 in
    let e3 : slice frame 8 (length bytes) ≡ bytes = rw at2 (take-append bytes crc) in
    let long : 12 ≤ length frame = omega (
      arith,
      length-to_big 4 0 (to_big 4 (length bytes) (bytes ++ crc)),
      length-to_big 4 (length bytes) (bytes ++ crc),
      length-append bytes crc,
      length-to_big 4 (crc16_ibm bytes) [],
    ) in
    decode_packet_lem frame bytes long (ap (λ (x : ℕ × ℕ). x.0) e1) (ap (λ (x : ℕ × ℕ). x.0) e2) e3
      (rw (at3, take-to_big 4 (crc16_ibm bytes) [])
        (omega (arith, length-to_big 4 (crc16_ibm bytes) [])))
      (ap (λ (x : ℕ × ℕ). x.0) e4)
    ∙ decode_field_lem extended rs f
