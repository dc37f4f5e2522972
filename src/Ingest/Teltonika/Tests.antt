-- ===== src/Ingest/Teltonika/Tests.antt =====
-- One report by Codec 8, and the theorems at it.
use mine_intelligence.Prelude.{[], arith, false, inl, inr, negsuc, pos, refl, some, ◌∷◌, ◌≡◌}
use mine_intelligence.Ingest.Teltonika.{
  crc16_ibm, decode_field, decode_packet, from_big, index_error, parse_imei, slice, to_big,
}
use mine_intelligence.Ingest.Teltonika.Format.{
  Fits, Report, field_of, frame_of, put_io, put_report, put_reports, put_values, record_of,
}
use mine_intelligence.Ingest.Teltonika.RoundTrip.{decode_packet-frame_of}

abbrev report : Report
report = record {
  ts_ms = 1700000000000;
  priority = 1;
  lon = pos 310000000;
  lat = negsuc 179999999;
  altitude = pos 1200;
  angle = 90;
  satellites = 11;
  speed = 25;
  event_io_id = 0;
  io1 = (239, 1) ∷ [];
  io2 = [];
  io4 = [];
  io8 = [];
  entries = [];
}

report-Fits : Fits false report
report-Fits = omega arith

-- The frame that has no data: its length and its checksum are right, and it has no codec byte.
empty_frame : decode_packet (to_big 4 0 (to_big 4 0 (to_big 4 0 []))) ≡ inl index_error
unfolding decode_packet to_big slice crc16_ibm from_big decode_field
empty_frame = refl

-- A byte that is no ASCII character is dropped from an IMEI.
dropped_byte : parse_imei (0 ∷ 3 ∷ b'1' ∷ 200 ∷ b'2' ∷ []) ≡ some (b'1' ∷ b'2' ∷ [])
unfolding parse_imei from_big slice
dropped_byte = refl

decode_packet-frame_of_example :
    decode_packet (frame_of false (report ∷ []))
    ≡ inr (record { codec_id = 8; records = record_of report ∷ [] })
unfolding field_of put_reports put_report to_big put_io put_values
decode_packet-frame_of_example =
    decode_packet-frame_of false (report ∷ []) (report-Fits, tt) (omega arith)
