-- ===== src/Vision/EdgeOutbox/Laws.antt =====
-- Nothing that is queued is lost (src/minemonitor/vision/edge/outbox.py).
use mine_intelligence.Prelude.{
  Bool, List, String, [], any, ap, arith, eq_iff, eq_refl, false, refl, select, str_eq, true, ℕ,
  ◌&&◌, ◌++◌, ◌==◌, ◌∙◌, ◌∷◌, ◌≡◌,
}
use mine_intelligence.Vision.EdgeOutbox.{
  EdgeOutbox, Observed, Row, attempted, dead, is_kept, is_pending, mark_attempt, mark_dead,
  mark_sent, new_pending, prune_observations, prune_sent, put, sent, store_observation, update_each,
  update_rows,
}

-- The calls on the outbox that change it.
pub data Op : Type 0 where
  op_put : String → String → String → ℕ → Op
  op_sent : List String → Op
  op_attempt : List String → String → Op
  op_dead : String → String → Op
  op_prune : ℕ → Op
  op_observe : Observed → Op
  op_prune_observations : ℕ → Op

unfoldable pub apply : EdgeOutbox → Op → EdgeOutbox
apply box (op_put id schema payload now) = (put box id schema payload now).0
apply box (op_sent ids) = mark_sent box ids
apply box (op_attempt ids error) = mark_attempt box ids error
apply box (op_dead id error) = mark_dead box id error
apply box (op_prune time) = (prune_sent box time).0
apply box (op_observe obs) = store_observation box obs
apply box (op_prune_observations time) = (prune_observations box time).0

unfoldable pub run : EdgeOutbox → List Op → EdgeOutbox
run box [] = box
run box (op ∷ ops) = run (apply box op) ops

-- The call marks the record as sent or as dead.
abbrev pub settles : String → Op → Bool
settles id (op_sent ids) = any (λ (i : String). str_eq i id) ids
settles id (op_dead i error) = str_eq i id
settles id _ = false

-- A pending row of this record, with this payload and this time.
abbrev pub is_waiting : String → String → ℕ → Row → Bool
is_waiting id payload at r =
    str_eq r.id id && (str_eq r.payload payload && (r.created_at == at && is_pending r))

abbrev pub waits : String → String → ℕ → EdgeOutbox → Bool
waits id payload at box = any (is_waiting id payload at) box.rows

-- A text that is one literal is not another.
pub apart : (s a b : String) → str_eq a b ≡ false → str_eq s a ≡ true → str_eq s b ≡ false
apart s a b n e = ap (λ (x : String). str_eq x b) ((eq_iff s a).0 e) ∙ n

module _ (id payload : String) (at : ℕ) where
  waits-update :
      (f : Row → Row) (i : String) (rows : List Row)
      → ((r : Row)
          → is_waiting id payload at r ≡ true
          → str_eq r.id i ≡ true
          → is_waiting id payload at (f r) ≡ true)
      → any (is_waiting id payload at) rows ≡ true
      → any (is_waiting id payload at) (update_rows f i rows) ≡ true
  unfolding update_rows
  waits-update f i [] keep h = h
  waits-update f i (r ∷ rows) keep h = ground (arith, keep r, waits-update f i rows keep)

  waits-update_each :
      (f : Row → Row) (ids : List String) (rows : List Row)
      → ((i : String)
          → any (λ (j : String). str_eq j i) ids ≡ true
          → (r : Row) → is_waiting id payload at r ≡ true
          → str_eq r.id i ≡ true
          → is_waiting id payload at (f r) ≡ true)
      → any (is_waiting id payload at) rows ≡ true
      → any (is_waiting id payload at) (update_each f ids rows) ≡ true
  unfolding update_each
  waits-update_each f [] rows keep h = h
  waits-update_each f (i ∷ ids) rows keep h =
      waits-update_each f ids (update_rows f i rows) (λ j m r w e. keep j (ground (arith, m)) r w e)
        (waits-update f i rows (λ r w e. keep i (ground (arith, eq_refl i)) r w e) h)

  waits-select :
      (p : Row → Bool) (rows : List Row)
      → ((r : Row) → is_waiting id payload at r ≡ true → p r ≡ true)
      → any (is_waiting id payload at) rows ≡ true
      → any (is_waiting id payload at) (select p rows) ≡ true
  waits-select p [] keep h = h
  waits-select p (r ∷ rows) keep h = ground (arith, keep r, waits-select p rows keep)

  waits-append :
      (rows : List Row) (r : Row)
      → any (is_waiting id payload at) rows ≡ true
      → any (is_waiting id payload at) (rows ++ r ∷ []) ≡ true
  waits-append [] r h = absurd (ground arith)
  waits-append (s ∷ rows) r h = ground (arith, waits-append rows r)

  any_mem :
      (i : String) (ids : List String)
      → any (λ (j : String). str_eq j i) ids ≡ true
      → str_eq id i ≡ true
      → any (λ (j : String). str_eq j id) ids ≡ true
  any_mem i [] m e = m
  any_mem i (j ∷ ids) m e = ground (arith, any_mem i ids, eq_iff id i)

  waits-apply :
      (box : EdgeOutbox) (op : Op)
      → settles id op ≡ false
      → waits id payload at box ≡ true
      → waits id payload at (apply box op) ≡ true
  unfolding apply put mark_sent mark_attempt mark_dead prune_sent store_observation
      prune_observations attempted dead sent is_kept is_pending
  waits-apply box (op_put i schema p now) n h =
      ground (arith, h, waits-append box.rows (new_pending i schema p now) h)
  waits-apply box (op_sent ids) n h =
      waits-update_each sent ids box.rows
        (λ i m r w e. ground (arith, m, w, e, any_mem i ids, eq_iff r.id id, eq_iff r.id i)) h
  waits-apply box (op_attempt ids error) n h =
      waits-update_each (attempted error) ids box.rows (λ i m r w e. ground (arith, w)) h
  waits-apply box (op_dead i error) n h =
      waits-update (dead error) i box.rows
        (λ r w e. ground (arith, w, e, eq_iff r.id id, eq_iff r.id i, eq_iff i id)) h
  waits-apply box (op_prune time) n h =
      waits-select (is_kept time) box.rows
        (λ r w. ground (arith, w, apart r.state "pending" "sent" refl)) h
  waits-apply box (op_observe obs) n h = ground arith
  waits-apply box (op_prune_observations time) n h = h

  -- A record that waits stays in the outbox, pending and with its payload and time, through any
  -- calls of which none marks it as sent or dead: new records, failed attempts and pruning never
  -- lose it.
  pub waits-run :
      (box : EdgeOutbox) (ops : List Op)
      → any (settles id) ops ≡ false
      → waits id payload at box ≡ true
      → waits id payload at (run box ops) ≡ true
  unfolding run
  waits-run box [] n h = h
  waits-run box (op ∷ ops) n h =
      waits-run (apply box op) ops (ground (arith, n)) (waits-apply box op (ground (arith, n)) h)
