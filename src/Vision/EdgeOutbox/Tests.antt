-- ===== src/Vision/EdgeOutbox/Tests.antt =====
-- An outbox with two records, and the theorems at it.
use mine_intelligence.Prelude.{List, [], length, refl, select, str_eq, true, ◌+◌, ◌∷◌, ◌≡◌, ◌≤◌}
use mine_intelligence.Vision.EdgeOutbox.{Row, counts, has_row, is_pending, put}
use mine_intelligence.Vision.EdgeOutbox.Laws.{
  Op, apply, op_attempt, op_prune, op_put, op_sent, run, waits, waits-run,
}
use mine_intelligence.Vision.EdgeOutbox.Counts.{counts-run, empty}

abbrev puts : List Op
puts = op_put "e1" "vision" "a" 1000 ∷ op_put "e2" "vision" "b" 2000 ∷ []

abbrev later : List Op
later = op_attempt ("e1" ∷ "e2" ∷ []) "down" ∷ op_sent ("e2" ∷ []) ∷ op_prune 9000 ∷ []

waits-run_example : waits "e1" "a" 1000 (run (run empty puts) later) ≡ true
unfolding run apply put has_row is_pending
waits-run_example = waits-run "e1" "a" 1000 (run empty puts) later refl refl

counts-run_example :
    (length (select (λ (r : Row). str_eq r.id "e1") (run empty puts).rows) ≤ 1)
    × ((counts (run empty puts)).0 + ((counts (run empty puts)).1 + (counts (run empty puts)).2)
        ≡ length (run empty puts).rows)
counts-run_example = counts-run puts "e1"
