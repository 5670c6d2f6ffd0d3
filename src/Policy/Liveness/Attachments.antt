-- ===== src/Policy/Liveness/Attachments.antt =====
-- internal/milter/attachment_policy.go: the policy on attachments, on a connection that takes every write.
use milter_guard.Prelude.{
  Bool, true, false, ◌&&◌, not, Option, none, some, ◌≡◌, refl, arith, if◌then◌else◌, if-cases,
}
use milter_guard.Prelude.Bytes.{Bytes, codes}
use milter_guard.Session.State.{Session}
use milter_guard.Policy.State.{
  Action, is_accept, is_reject, AttachmentScan, clean_scan, finding, scan_error, Ending, Policy,
  select_action_for_mode, response_for_action, record_deterministic, event_attachment_rejection,
}
use milter_guard.Policy.Senders.{write_policy_response}
use milter_guard.Policy.Attachments.{
  AttachmentDecision, AttachmentResult, unhandled, cancelled, decided, evaluate_attachments,
  decide_scan_error, truncated_error, invalid_mime, found_attachment, attachment_headers,
  attachment_answer, attachment_answered, finish_attachment_decision, apply_attachments,
}
use milter_guard.Policy.Liveness.{
  Open, Done, emit-Done, on_success-Done, replace_result_headers-Done,
  write_classification_headers-Done, write_accepted_bypass_headers-Done, write_policy_response-Done,
  reputation_add-Open, removal-Open,
}
use milter_guard.Policy.Liveness.Stages.{Passes}

module _ (c : Policy) (s : Session) where
  attachment_headers-Done :
      (d : AttachmentDecision) (m : Ending) → Open m → Done (attachment_headers c s d m)
  attachment_headers-Done d m o =
      if-cases Done (not (is_accept d.proposed) && c.add_email_headers)
        (λ e.
          if-cases Done d.failed (λ e₁. write_classification_headers-Done c s _ _ m o)
            (λ e₁. replace_result_headers-Done c s _ m o))
        (λ e. write_accepted_bypass_headers-Done c s m o)

  attachment_answer-Done :
      (d : AttachmentDecision) (selected : Action) (message : Bytes) (m : Ending)
      → Open m
      → Done (attachment_answer c s d selected message m)
  attachment_answer-Done d selected message m o =
      if-cases Done (is_accept selected)
        (λ e.
          on_success-Done c s (attachment_headers c s d m)
            (write_policy_response c s selected message) (attachment_headers-Done d m o)
            (λ m' o'. write_policy_response-Done c s selected message m' o'))
        (λ e. emit-Done c s (response_for_action selected message) m o)

  attachment_answered-Done :
      (from : Bytes) (d : AttachmentDecision) (selected : Action) (o : Ending × Bool)
      → Done o
      → Done (attachment_answered c s from d selected o)
  unfolding record_deterministic
  attachment_answered-Done from d selected (m, false) (t, o) = absurd (cc)
  attachment_answered-Done from d selected (m, true) (t, o) =
      let noted_m : Ending =
        if is_reject selected
        then record_deterministic event_attachment_rejection selected true m
        else m in
      let notes : Open noted_m = if-cases Open (is_reject selected) (λ e. o) (λ e. o) in
      if-cases Done (is_accept selected) (λ e. (refl, removal-Open c s noted_m notes))
        (λ e.
          if-cases Done (is_reject selected)
            (λ e₁. (
              refl,
              if-cases Open
                  (d.ip_strike && c.add_ip_reputation_strike && not s.authentication.authenticated)
                  (λ e₂. reputation_add-Open c s _ notes) (λ e₂. notes),
            ))
            (λ e₁. (refl, notes)))

  finish_attachment_decision-Done :
      (from : Bytes) (d : AttachmentDecision) (m : Ending)
      → Open m
      → Done (finish_attachment_decision c s from d m)
  unfolding finish_attachment_decision
  finish_attachment_decision-Done from d m o =
      let selected = select_action_for_mode d.proposed c in
      attachment_answered-Done from d selected _ (attachment_answer-Done d selected _ m o)

  -- What `apply_attachments` makes of a result.
  abbrev applied : Bytes → Ending → AttachmentResult → Ending × Option Bool
  applied from m result = elim result [
    | unhandled ↦ (m, none)
    | cancelled ↦ (m, some false)
    | decided d ↦
        let (m', kept) = finish_attachment_decision c s from d m in
        if d.failed && is_accept d.proposed then (m, none) else (m', some kept)
  ]

  decided-Passes :
      (from : Bytes) (m : Ending) (d : AttachmentDecision)
      → Open m
      → Passes (applied from m (decided d))
  decided-Passes from m d o =
      if-cases Passes (d.failed && is_accept d.proposed) (λ e. o)
        (λ e. finish_attachment_decision-Done from d m o)

  scanned-Passes :
      (from : Bytes) (m : Ending) (found : AttachmentScan)
      → Open m
      → Passes (
          applied from m (elim found [
            | finding path detection ↦ decided (found_attachment path detection)
            | clean_scan ↦
                if c.body_truncated s.message
                then decided (decide_scan_error c truncated_error)
                else unhandled
            | scan_error e ↦ decided (decide_scan_error c e)
          ]))
  scanned-Passes from m clean_scan o =
      if-cases (λ r. Passes (applied from m r)) (c.body_truncated s.message)
        (λ e. decided-Passes from m _ o) (λ e. o)
  scanned-Passes from m (finding path detection) o =
      decided-Passes from m (found_attachment path detection) o
  scanned-Passes from m (scan_error e) o = decided-Passes from m _ o

  pub attachments-Passes :
      (from : Bytes) (m : Ending)
      → c.has_scan_slot ≡ true
      → Open m
      → Passes (apply_attachments c s from m)
  unfolding apply_attachments evaluate_attachments
  attachments-Passes from m slot o =
      if-cases (λ r. Passes (applied from m r)) (not c.has_scanner) (λ e. o)
        (λ e.
          if-cases (λ r. Passes (applied from m r)) (c.mime_headers_truncated s.message)
            (λ e₁. decided-Passes from m (invalid_mime c (codes "message")) o)
            (λ e₁.
              if-cases (λ r. Passes (applied from m r)) (not c.has_scan_slot)
                (λ e₂. absurd (ground (arith, e₂, slot)))
                (λ e₂. scanned-Passes from m (c.scan s.message) o)))
