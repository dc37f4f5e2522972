-- ===== src/Breaches/Ids.antt =====
-- The id of an alarm tells its breach, its notice and its stage (src/minemonitor/breaches/service.py).
use mine_intelligence.Storage.Laws.{same_id_iff, same_id_refl}
use mine_intelligence.Storage.{EventId, named, same_id, ulid}
use mine_intelligence.Breaches.{Notice, individuals, regulator}
use mine_intelligence.Prelude.{
  Bool, Bool-cases, String, ap, arith, eq_iff, false, inl, inr, refl, str_eq, sym, true, ◌&&◌,
  ◌++ₛ◌, ◌∙◌, ◌≡◌,
}
use mine_intelligence.Breaches.Service.{
  Stage, alarm_id, due_stage, notice_name, overdue_stage, stage_name,
}
use text.Mathlib.TextLemmas.{
  append_assoc as text_assoc, append_cancel_left, append_cancel_right, append_inj,
  length-append as count-append,
}
use Prim.Native.String.{count}
use mathlib.Core.Path.{subst}

-- Two texts of one length that differ cannot end one text.
ends_clash : (x y s t : String) → count s ≡ count t → str_eq s t ≡ false → x ++ₛ s ≡ y ++ₛ t → ⊥
ends_clash x y s t same differ h =
    let total = ap count h in
    let e : count x ≡ count y = omega (arith, total, same, count-append x s, count-append y t) in
    let (_, p) = append_inj h e in ground (arith, (eq_iff s t).1 p, differ)

stage-name :
    (x y : String) (s t : Stage)
    → (x ++ₛ "-") ++ₛ stage_name s ≡ (y ++ₛ "-") ++ₛ stage_name t
    → (x ≡ y) × (s ≡ t)
unfolding stage_name
stage-name x y due_stage due_stage h =
    (append_cancel_right x y "-" (append_cancel_right (x ++ₛ "-") (y ++ₛ "-") "due" h), refl)
stage-name x y overdue_stage overdue_stage h =
    (append_cancel_right x y "-" (append_cancel_right (x ++ₛ "-") (y ++ₛ "-") "overdue" h), refl)
stage-name x y due_stage overdue_stage h = absurd (
    ends_clash x ((y ++ₛ "-") ++ₛ "ove") "-due" "rdue" refl refl
      (sym (text_assoc x "-" "due") ∙ (h ∙ sym (text_assoc (y ++ₛ "-") "ove" "rdue"))))
stage-name x y overdue_stage due_stage h = absurd (
    ends_clash ((x ++ₛ "-") ++ₛ "ove") y "rdue" "-due" refl refl
      (text_assoc (x ++ₛ "-") "ove" "rdue" ∙ (h ∙ text_assoc y "-" "due")))

notice-name :
    (x y : String) (m n : Notice) → x ++ₛ notice_name m ≡ y ++ₛ notice_name n → (x ≡ y) × (m ≡ n)
unfolding notice_name
notice-name x y regulator regulator h = (append_cancel_right x y "regulator" h, refl)
notice-name x y individuals individuals h = (append_cancel_right x y "individuals" h, refl)
notice-name x y regulator individuals h = absurd (
    ends_clash (x ++ₛ "regulato") (y ++ₛ "individual") "r" "s" refl refl
      (text_assoc x "regulato" "r" ∙ (h ∙ sym (text_assoc y "individual" "s"))))
notice-name x y individuals regulator h = absurd (
    ends_clash (x ++ₛ "individual") (y ++ₛ "regulato") "s" "r" refl refl
      (text_assoc x "individual" "s" ∙ (h ∙ sym (text_assoc y "regulato" "r"))))

text_of : EventId → String
text_of (ulid n) = ""
text_of (named s) = s

-- Two alarms have one id only if they are of one breach, one notice and one stage.
pub alarm_id_inj :
    (a b : String) (m n : Notice) (s t : Stage)
    → alarm_id a m s ≡ alarm_id b n t
    → (a ≡ b) × (m ≡ n) × (s ≡ t)
unfolding alarm_id text_of
alarm_id_inj a b m n s t h =
    let (p, same_stage) = stage-name _ _ s t (ap text_of h) in
    let (q, same_notice) = notice-name _ _ m n p in
    let r = append_cancel_right ("breach-" ++ₛ a) ("breach-" ++ₛ b) "-" q in
    (append_cancel_left "breach-" a b r, same_notice, same_stage)

unfoldable pub same_notice : Notice → Notice → Bool
same_notice regulator regulator = true
same_notice individuals individuals = true
same_notice _ _ = false

unfoldable pub same_stage : Stage → Stage → Bool
same_stage due_stage due_stage = true
same_stage overdue_stage overdue_stage = true
same_stage _ _ = false

same_notice_refl : (m : Notice) → same_notice m m ≡ true
unfolding same_notice
same_notice_refl regulator = refl
same_notice_refl individuals = refl

same_notice_iff : (m n : Notice) → same_notice m n ≡ true → m ≡ n
unfolding same_notice
same_notice_iff regulator regulator h = refl
same_notice_iff individuals individuals h = refl
same_notice_iff regulator individuals h = cc
same_notice_iff individuals regulator h = cc

same_stage_refl : (s : Stage) → same_stage s s ≡ true
unfolding same_stage
same_stage_refl due_stage = refl
same_stage_refl overdue_stage = refl

same_stage_iff : (s t : Stage) → same_stage s t ≡ true → s ≡ t
unfolding same_stage
same_stage_iff due_stage due_stage h = refl
same_stage_iff overdue_stage overdue_stage h = refl
same_stage_iff due_stage overdue_stage h = cc
same_stage_iff overdue_stage due_stage h = cc

pub same_id-alarm_id :
    (a b : String) (m n : Notice) (s t : Stage)
    → same_id (alarm_id a m s) (alarm_id b n t)
      ≡ (str_eq a b && (same_notice m n && same_stage s t))
same_id-alarm_id a b m n s t = elim (Bool-cases (same_id (alarm_id a m s) (alarm_id b n t))) [
  | inl e ↦
      let (p, q, r) = alarm_id_inj a b m n s t (same_id_iff _ _ e) in
      e
      ∙ sym (
          ground (
            arith,
            (eq_iff a b).1 p,
            subst (λ k. same_notice m k ≡ true) q (same_notice_refl m),
            subst (λ k. same_stage s k ≡ true) r (same_stage_refl s),
          ))
  | inr e ↦ elim (Bool-cases (str_eq a b && (same_notice m n && same_stage s t))) [
    | inl f ↦
        let p : a ≡ b = (eq_iff a b).0 (ground (arith, f)) in
        let q : m ≡ n = same_notice_iff m n (ground (arith, f)) in
        let r : s ≡ t = same_stage_iff s t (ground (arith, f)) in
        subst (λ c. same_id (alarm_id a m s) c ≡ true) (rw (p, q, r) refl)
          (same_id_refl (alarm_id a m s))
        ∙ sym f
    | inr f ↦ e ∙ sym f
  ]
]
