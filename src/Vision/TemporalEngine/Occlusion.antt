-- ===== src/Vision/TemporalEngine/Occlusion.antt =====
-- A presence rule, for a track that is not seen (src/minemonitor/vision/temporal.py).
use mine_intelligence.Vision.Temporal.{Streak, advance}
use mine_intelligence.Vision.TemporalEngine.Laws.{get-put_ne}
use mine_intelligence.Prelude.{
  Bool, Bool-cases, List, String, [], arith, eq_iff, false, inl, inr, leb, none, refl, some, str_eq,
  true, ℕ, ◌&&◌, ◌∙◌, ◌∷◌, ◌≡◌, ◌≢◌, ◌⊎◌,
}
use mine_intelligence.Prelude.Table.{Table, insert, lookup}
use mine_intelligence.Vision.TemporalEngine.Apply.{
  in_frame, miss_all, miss_one, missed, presence_hit, presence_rule, track_hits, zone_hits,
  zones_of,
}
use mine_intelligence.Vision.TemporalEngine.{
  Detected, Engine, Key, Observation, Rule, camera, contains, fire, get, note, occupancy, presence,
  put, same_key, streak_at,
}

-- No relevant object of the frame is of this track.
abbrev pub IsUnseen : Rule → String → List Detected → Type 0
IsUnseen rule track_id [] = Unit
IsUnseen rule track_id (o ∷ os) =
    ((o.track_id ≢ track_id)
      ⊎ ((contains rule.parameters.classes o.cls
            && leb rule.parameters.confidence_threshold o.confidence)
          ≡ false))
    × IsUnseen rule track_id os

-- The frame's table has no entry of the track.
NotIn : String → Table (List String × ℕ) → Type 0
NotIn t [] = Unit
NotIn t ((j, v) ∷ m) = (str_eq j t ≡ false) × NotIn t m

NotIn-insert :
    (t : String) (m : Table (List String × ℕ)) (j : String) (v : List String × ℕ)
    → str_eq j t ≡ false
    → NotIn t m
    → NotIn t (insert m j v)
unfolding NotIn insert
NotIn-insert t [] j v h n = (h, tt)
NotIn-insert t ((i, w) ∷ m) j v h n = elim (Bool-cases (str_eq i j)) [
  | inl e ↦ rw e (h, n.1)
  | inr e ↦ rw e (n.0, NotIn-insert t m j v h n.1)
]

lookup-NotIn : (t : String) (m : Table (List String × ℕ)) → NotIn t m → lookup m t ≡ none
unfolding NotIn lookup
lookup-NotIn t [] n = refl
lookup-NotIn t ((j, v) ∷ m) n = rw n.0 (lookup-NotIn t m n.1)

module _ (rule : Rule) (obs : Observation) (t : String) where
  wanted : Detected → Bool
  wanted o =
      contains rule.parameters.classes o.cls
      && leb rule.parameters.confidence_threshold o.confidence

  unlike :
      (o : Detected)
      → (o.track_id ≢ t) ⊎ (wanted o ≡ false)
      → wanted o ≡ true
      → str_eq o.track_id t ≡ false
  unfolding wanted
  unlike o u w = ground (arith, u, eq_iff o.track_id t)

  in_frame-NotIn :
      (e : Engine) (os : List Detected) (seen : Table (List String × ℕ))
      → IsUnseen rule t os
      → NotIn t seen
      → NotIn t (in_frame e rule os seen)
  unfolding in_frame wanted
  in_frame-NotIn e [] seen u n = n
  in_frame-NotIn e (o ∷ os) seen u n = elim (Bool-cases (wanted o)) [
    | inl w ↦ rw w (
        in_frame-NotIn e os (insert seen o.track_id (zones_of e rule o.zone_ids, o.confidence)) u.1
          (NotIn-insert t seen o.track_id _ (unlike o u.0 w) n))
    | inr w ↦ rw w (in_frame-NotIn e os seen u.1 n)
  ]

  presence_hit-other :
      (e : Engine) (track_id : String) (confidence : ℕ) (z r zone_id : String)
      → str_eq track_id t ≡ false
      → get (presence_hit e rule obs track_id confidence z).0.state (presence r t zone_id)
        ≡ get e.state (presence r t zone_id)
  unfolding presence_hit fire same_key
  presence_hit-other e track_id confidence z r zone_id h =
      let key = presence rule.rule_id track_id z in
      let k = presence r t zone_id in
      let (st, fires) = advance (streak_at e key) true obs.ts rule.parameters in
      let st' = note st obs.frame_id (some track_id) confidence in
      let apart : same_key key k ≡ false = ground arith in
      ground (
        arith,
        get-put_ne e.state key k st' apart,
        get-put_ne (put e.state key st') key k (record st' { fired = true }) apart,
      )

  zone_hits-other :
      (e : Engine) (track_id : String) (confidence : ℕ) (zs : List String) (r zone_id : String)
      → str_eq track_id t ≡ false
      → get (zone_hits e rule obs track_id confidence zs).0.state (presence r t zone_id)
        ≡ get e.state (presence r t zone_id)
  unfolding zone_hits
  zone_hits-other e track_id confidence [] r zone_id h = refl
  zone_hits-other e track_id confidence (z ∷ zs) r zone_id h =
      zone_hits-other (presence_hit e rule obs track_id confidence z).0 track_id confidence zs r
        zone_id h
      ∙ presence_hit-other e track_id confidence z r zone_id h

  track_hits-other :
      (e : Engine) (seen : Table (List String × ℕ)) (r zone_id : String)
      → NotIn t seen
      → get (track_hits e rule obs seen).0.state (presence r t zone_id)
        ≡ get e.state (presence r t zone_id)
  unfolding track_hits NotIn
  track_hits-other e [] r zone_id n = refl
  track_hits-other e ((track_id, (zs, confidence)) ∷ seen) r zone_id n =
      track_hits-other (zone_hits e rule obs track_id confidence zs).0 seen r zone_id n.1
      ∙ zone_hits-other e track_id confidence zs r zone_id n.0

  miss_one-other :
      (seen : Table (List String × ℕ)) (k : Key) (st : Streak) (r zone_id : String)
      → lookup seen t ≡ none
      → same_key k (presence r t zone_id) ≡ true
      → miss_one rule obs seen k st ≡ st
  unfolding miss_one missed same_key
  miss_one-other seen (presence r' t' z') st r zone_id n h = ground (arith, eq_iff t' t)
  miss_one-other seen (occupancy r' z') st r zone_id n h = refl
  miss_one-other seen (camera r') st r zone_id n h = refl

  miss_all-other :
      (seen : Table (List String × ℕ)) (m : List (Key × Streak)) (r zone_id : String)
      → lookup seen t ≡ none
      → get (miss_all rule obs seen m) (presence r t zone_id) ≡ get m (presence r t zone_id)
  unfolding miss_all get
  miss_all-other seen [] r zone_id n = refl
  miss_all-other seen ((k, st) ∷ m) r zone_id n =
      ground (arith, miss_one-other seen k st r zone_id n, miss_all-other seen m r zone_id n)

  -- The turn of one presence rule leaves the streaks of such a track, under every rule's key.
  pub presence_rule-unseen :
      (e : Engine) (r zone_id : String)
      → IsUnseen rule t obs.objects
      → get (presence_rule e rule obs).0.state (presence r t zone_id)
        ≡ get e.state (presence r t zone_id)
  unfolding presence_rule NotIn
  presence_rule-unseen e r zone_id u =
      let seen = in_frame e rule obs.objects [] in
      let n = in_frame-NotIn e obs.objects [] u tt in
      miss_all-other seen (track_hits e rule obs seen).0.state r zone_id (lookup-NotIn t seen n)
      ∙ track_hits-other e seen r zone_id n
