-- ===== src/Policy/Story/Attachments.antt =====
-- internal/milter/attachment_policy.go: the policy on attachments, against the account.
use milter_guard.Prelude.{
  Bool, true, false, ◌&&◌, not, none, some, [], ◌∷◌, ◌≡◌, ◌⊎◌, inl, inr, refl, arith, if◌then◌else◌,
  if-cases,
}
use milter_guard.Prelude.Bytes.{Bytes, codes}
use milter_guard.Session.State.{Session}
use milter_guard.Policy.State.{
  Action, action_accept, action_reject, action_tempfail, is_accept, event_attachment_rejection,
  outcome_rejected, recorded_rejection, Ending, Policy, enforces, note, activity_outcome,
  record_deterministic,
}
use milter_guard.Policy.Headers.{accept_mode_action, is_blank}
use milter_guard.Policy.Senders.{write_policy_response}
use milter_guard.Policy.Attachments.{
  AttachmentDecision, unhandled, cancelled, decided, evaluate_attachments, attachment_headers,
  attachment_answer, attachment_reason, attachment_updates, attachment_answered,
  finish_attachment_decision, apply_attachments,
}
use milter_guard.Policy.Story.{unanswered, cut_off, reports}
use milter_guard.Policy.Story.Answers.{Ready, Sent, Answered, on_success-Answered}
use milter_guard.Policy.Story.Replies.{
  emit-Answered, accepts-allowed, write_policy_response-Answered,
}
use milter_guard.Policy.Story.Marks.{
  replace_result_headers-Sent, write_classification_headers-Sent,
  write_accepted_bypass_headers-Sent,
}
use milter_guard.Policy.Story.Updates.{
  Settled, noted-Settled, reputation_add-Settled, rejection-Settled,
  complete_sender_blocklist_removal-Settled,
}
use milter_guard.Policy.Story.Stages.{
  Concludes, Goes, enforced-allowed, select_action_for_mode-cases,
}

module _ (c : Policy) (s : Session) where
  attachment_headers-Sent :
      (d : AttachmentDecision) (m : Ending) → Ready c s m → Sent c s (attachment_headers c s d m)
  attachment_headers-Sent d m ready =
      if-cases (Sent c s) (not (is_accept d.proposed) && c.add_email_headers)
        (λ e.
          if-cases (Sent c s) d.failed
            (λ e₁.
              write_classification_headers-Sent c s (codes "unavailable") accept_mode_action m
                (ground (arith, e)) ready)
            (λ e₁. replace_result_headers-Sent c s _ m (inr (ground (arith, e))) ready))
        (λ e. write_accepted_bypass_headers-Sent c s m ready)

  attachment_answer-Answered :
      (selected : Action) (d : AttachmentDecision) (message : Bytes) (m : Ending)
      → (selected ≡ action_accept) ⊎ (enforces c ≡ true)
      → Ready c s m
      → Answered c s selected (attachment_answer c s d selected message m)
  attachment_answer-Answered action_accept d message m f ready =
      on_success-Answered c s action_accept (attachment_headers c s d m)
        (write_policy_response c s action_accept message) (attachment_headers-Sent d m ready)
        (λ m' ready'.
          write_policy_response-Answered c s action_accept message m' (accepts-allowed c s message)
            ready')
  attachment_answer-Answered action_reject d message m (inl e) ready = absurd (ground (arith, e))
  attachment_answer-Answered action_reject d message m (inr f) ready =
      emit-Answered c s action_reject message m (enforced-allowed c s action_reject message f) ready
        tt
  attachment_answer-Answered action_tempfail d message m (inl e) ready = absurd (ground (arith, e))
  attachment_answer-Answered action_tempfail d message m (inr f) ready =
      emit-Answered c s action_tempfail message m (enforced-allowed c s action_tempfail message f)
        ready tt

  attachment_updates-Settled :
      (sender : Bytes) (d : AttachmentDecision) (m : Ending)
      → enforces c ≡ true
      → Settled c s action_reject m
      → Settled c s action_reject (attachment_updates c s sender d m)
  attachment_updates-Settled sender d m f settled =
      let recorded =
        rejection-Settled c s m sender s.envelope_sender s.envelope_recipients
          (attachment_reason c s d ∷ []) (codes "attachment_policy") f settled in
      if-cases (Settled c s action_reject)
        (d.ip_strike && c.add_ip_reputation_strike && not s.authentication.authenticated)
        (λ e.
          reputation_add-Settled c s
            (note
              (recorded_rejection sender s.envelope_sender s.envelope_recipients
                (attachment_reason c s d ∷ []) (codes "attachment_policy"))
              m)
            f (ground (arith, e)) recorded)
        (λ e. recorded)

  attachment_answered-Concludes :
      (selected : Action) (sender : Bytes) (d : AttachmentDecision) (o : Ending × Bool)
      → (selected ≡ action_accept) ⊎ (enforces c ≡ true)
      → Answered c s selected o
      → Concludes c s (attachment_answered c s sender d selected o)
  unfolding record_deterministic activity_outcome
  attachment_answered-Concludes action_accept sender d (m, true) f settled =
      (complete_sender_blocklist_removal-Settled c s m settled).0
  attachment_answered-Concludes action_accept sender d (m, false) f story = (cut_off, story)
  attachment_answered-Concludes action_tempfail sender d (m, true) f (story, g) = story
  attachment_answered-Concludes action_tempfail sender d (m, false) f story = (cut_off, story)
  attachment_answered-Concludes action_reject sender d (m, true) (inl e) settled =
      absurd (ground (arith, e))
  attachment_answered-Concludes action_reject sender d (m, true) (inr f) settled =
      (attachment_updates-Settled sender d
        (record_deterministic event_attachment_rejection action_reject true m) f
        (noted-Settled c s action_reject event_attachment_rejection outcome_rejected 0 m settled)).0
  attachment_answered-Concludes action_reject sender d (m, false) f story =
      (cut_off, reports _ _ _ story)

  attachment_decision-Concludes :
      (selected : Action) (sender : Bytes) (d : AttachmentDecision) (message : Bytes) (m : Ending)
      → (selected ≡ action_accept) ⊎ (enforces c ≡ true)
      → Ready c s m
      → Concludes c s
          (attachment_answered c s sender d selected (attachment_answer c s d selected message m))
  attachment_decision-Concludes selected sender d message m f ready =
      attachment_answered-Concludes selected sender d (attachment_answer c s d selected message m) f
        (attachment_answer-Answered selected d message m f ready)

  finish_attachment_decision-Concludes :
      (sender : Bytes) (d : AttachmentDecision) (m : Ending)
      → Ready c s m
      → Concludes c s (finish_attachment_decision c s sender d m)
  unfolding finish_attachment_decision
  finish_attachment_decision-Concludes sender d m ready =
      let message =
        if is_blank d.reject_message then c.attachment_reject_message else d.reject_message in
      select_action_for_mode-cases c s
        (λ selected.
          Concludes c s (
            attachment_answered c s sender d selected (attachment_answer c s d selected message m)))
        d.proposed (attachment_decision-Concludes action_accept sender d message m (inl refl) ready)
        (λ f. attachment_decision-Concludes d.proposed sender d message m (inr f) ready)

  pub apply_attachments-Goes :
      (sender : Bytes) (m : Ending) → Ready c s m → Goes c s (apply_attachments c s sender m)
  unfolding apply_attachments
  apply_attachments-Goes sender m (story, p) =
      elim (evaluate_attachments c s)
        as (λ result. Goes c s (elim result [
          | unhandled ↦ (m, none)
          | cancelled ↦ (m, some false)
          | decided d ↦
              let (m', kept) = finish_attachment_decision c s sender d m in
              if d.failed && is_accept d.proposed then (m, none) else (m', some kept)
        ])) [
          | unhandled ↦ (story, p)
          | cancelled ↦ (unanswered, story)
          | decided d ↦
              if-cases (Goes c s) (d.failed && is_accept d.proposed) (λ e. (story, p))
                (λ e. finish_attachment_decision-Concludes sender d m (story, p))
        ]
