-- ===== src/Vision/Publish.antt =====
-- src/minemonitor/vision/edge/publish.py: delivering the edge outbox. The publisher is an argument;
-- its answer may differ from call to call, so it is given the number of the call.
pub mod Drain
mod Tests
use mine_intelligence.Prelude.{
  Bool, List, Option, String, false, get_elem?, if◌then◌else◌, is_empty, length, map, none, some,
  suc, true, zero, ℕ, ◌++ₛ◌, ◌+◌,
}
use mine_intelligence.Prelude.Text.{text_of}
use mine_intelligence.Vision.EdgeOutbox.{EdgeOutbox, mark_attempt, mark_dead, mark_sent, pending}

-- What one call of the publisher does; `rejected_below n` is a refusal at the index -1 - n.
pub data Answer : Type 0 where
  accepted : Answer
  rejected rejected_below : ℕ → String → Answer
  unreachable : String → Answer

pub record Delivered : Type 0 where
  pub sent : ℕ
  pub dead : ℕ

abbrev pub Publisher : Type 0
Publisher = ℕ → List String → Answer

abbrev pub ids_of : List (String × String) → List String
ids_of items = map (λ (x : String × String). x.0) items

-- The text of a RejectedRecordError.
abbrev pub rejection : String → String → String
rejection index reason = "record " ++ₛ (index ++ₛ (" rejected: " ++ₛ reason))

-- The state after one round of the loop, and whether another one follows.
unfoldable pub deliver_batch :
    EdgeOutbox → List (String × String) → Answer → Delivered → EdgeOutbox × Delivered × Bool
deliver_batch box items accepted d =
    (mark_sent box (ids_of items), record d { sent = d.sent + length items }, true)
deliver_batch box items (unreachable error) d = (mark_attempt box (ids_of items) error, d, false)
deliver_batch box items (rejected_below n reason) d =
    (mark_attempt box (ids_of items) (rejection ("-" ++ₛ text_of (n + 1)) reason), d, false)
deliver_batch box items (rejected index reason) d = elim (get_elem? items index) [
  | none ↦ (mark_attempt box (ids_of items) (rejection (text_of index) reason), d, false)
  | some item ↦ (mark_dead box item.0 reason, record d { dead = d.dead + 1 }, true)
]

-- drain, in at most `fuel` rounds; `none` where they are not enough.
unfoldable pub drain :
    ℕ → EdgeOutbox → Publisher → ℕ → ℕ → Delivered → Option (EdgeOutbox × Delivered)
drain zero box publish batch call d = none
drain (suc fuel) box publish batch call d =
    let items = pending box batch in
    let answer = publish call (map (λ (x : String × String). x.1) items) in
    let (box', d', goes_on) = deliver_batch box items answer d in
    let rest = drain fuel box' publish batch (call + 1) d' in
    if is_empty items then some (box, d) else if goes_on then rest else some (box', d')
