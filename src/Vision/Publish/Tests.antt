-- ===== src/Vision/Publish/Tests.antt =====
-- A core that accepts everything, and the drain of two records.
use mine_intelligence.Prelude.Text.{text_of}
use mine_intelligence.Prelude.{arith, is_some, refl, true, ◌≡◌}
use mine_intelligence.Vision.EdgeOutbox.{EdgeOutbox, has_row, is_pending, put}
use mine_intelligence.Vision.EdgeOutbox.Counts.{empty}
use mine_intelligence.Vision.Publish.{Publisher, accepted, drain, rejection}
use mine_intelligence.Vision.Publish.Drain.{drain-total}

abbrev core : Publisher
core call payloads = accepted

abbrev two_records : EdgeOutbox
two_records = (put (put empty "e1" "vision" "a" 1000).0 "e2" "vision" "b" 2000).0

drain-total_example : is_some (drain 3 two_records core 1 0 (record { sent = 0; dead = 0 })) ≡ true
unfolding put has_row is_pending
drain-total_example =
    drain-total 3 two_records core 1 0 (record { sent = 0; dead = 0 }) (omega arith)

-- A refusal of a record that is not in the batch.
rejection_text : rejection (text_of 120) "malformed" ≡ "record 120 rejected: malformed"
unfolding text_of
rejection_text = refl
