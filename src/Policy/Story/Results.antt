-- ===== src/Policy/Story/Results.antt =====
-- internal/milter/session.go: the evaluation and the whole end of a message, against the account.
use milter_guard.Prelude.{
  Bool, true, false, ◌&&◌, ◌||◌, not, ◌≡◌, refl, arith, if◌then◌else◌, if-cases, elim-cases,
  replicate,
}
use milter_guard.Prelude.Bytes.{Bytes, codes, bytes_eq}
use milter_guard.Wire.Frame.{Writer}
use milter_guard.Session.State.{Session}
use milter_guard.Policy.State.{
  Action, action_accept, action_reject, action_tempfail, is_accept, progress, Evidence, AnalysisRun,
  Ending, Policy, enforces, emit, emit_all, on_success, unless_handled, response_for_action,
  activity_outcome, select_action_for_mode,
}
use milter_guard.Policy.Headers.{EvaluationResult, is_blank, write_accepted_result_headers}
use milter_guard.Policy.Updates.{
  recipient_set_complete, record_scan, scan_event, complete_sender_blocklist_removal,
}
use milter_guard.Policy.Senders.{
  apply_authenticated_only_sender_domain, apply_sender_blocklist, write_policy_response,
}
use milter_guard.Policy.Attachments.{apply_attachments}
use milter_guard.Policy.Inbound.{InboundEvidence, prepare_inbound_evidence}
use milter_guard.Policy.Analysis.{
  evaluate, analysis_failure, failure_action, apply_policy, prepared_result, run_exceeded,
  html_action,
}
use milter_guard.Policy.Commands.{is_internal_message, handle_email_command}
use milter_guard.Policy.Finish.{
  authenticated_connection, sender_domain_allowlisted, known_correspondent, sender,
  verify_authentication_with_progress, reject_text, answer_result, result_answered,
  finish_evaluated, finish_inbound, finish_verified, finish_inspected, finish_external,
  finish_message,
}
use milter_guard.Policy.Story.{unanswered, cut_off, allowed_answer, begins, reports}
use milter_guard.Policy.Story.Answers.{Ready, Answered, on_success-Answered, emit-progress-Ready}
use milter_guard.Policy.Story.Replies.{accepts-allowed, write_policy_response-Answered}
use milter_guard.Policy.Story.Marks.{write_accepted_result_headers-Sent}
use milter_guard.Policy.Story.Updates.{
  Settled, noted-Settled, complete_sender_blocklist_removal-Settled,
}
use milter_guard.Policy.Story.Decisions.{apply_post_decision_updates-Settled}
use milter_guard.Policy.Story.Stages.{
  Concludes, unless_handled-Concludes, enforced-allowed, select_action_for_mode-cases,
}
use milter_guard.Policy.Story.Policies.{
  apply_authenticated_only_sender_domain-Goes, apply_sender_blocklist-Goes,
}
use milter_guard.Policy.Story.Attachments.{apply_attachments-Goes}
use milter_guard.Policy.Story.Commands.{handle_email_command-Goes}
use milter_guard.Policy.Story.Endings.{
  finish_bypassed_message-Concludes, finish_internal_message-Concludes, ticks-Ready,
}

module _ (c : Policy) (s : Session) where
  -- Outside enforce mode every result is to accept.
  abbrev IsSelected : EvaluationResult → Type 0
  IsSelected r = (enforces c || is_accept r.selected) ≡ true

  selects :
      (proposed : Action) → (enforces c || is_accept (select_action_for_mode proposed c)) ≡ true
  selects proposed =
      select_action_for_mode-cases c s (λ a. (enforces c || is_accept a) ≡ true) proposed
        (ground arith) (λ f. ground (arith, f))

  analysis_failure-IsSelected : IsSelected (analysis_failure c)
  unfolding analysis_failure failure_action
  analysis_failure-IsSelected =
      if-cases (λ a. (enforces c || is_accept a) ≡ true)
        (enforces c && bytes_eq c.ai_error_action (codes "tempfail")) (λ e. ground (arith, e))
        (λ e. ground arith)

  prepared_result-IsSelected : (run : AnalysisRun) → IsSelected (prepared_result c run)
  prepared_result-IsSelected run =
      if-cases IsSelected run.timed_out (λ e. analysis_failure-IsSelected)
        (λ e.
          if-cases IsSelected
            (run_exceeded run && not (bytes_eq (html_action c) (codes "fallback")))
            (λ e₁. selects action_reject)
            (λ e₁.
              if-cases IsSelected
                (bytes_eq c.incomplete_body_action (codes "reject") && run.body_incomplete)
                (λ e₂. selects action_reject)
                (λ e₂.
                  elim-cases IsSelected run.decided (λ e₃. analysis_failure-IsSelected)
                    (λ d e₃. selects (apply_policy c d)))))

  evaluate-IsSelected : (run : AnalysisRun) → IsSelected (evaluate c run)
  unfolding evaluate
  evaluate-IsSelected run =
      if-cases IsSelected (run.panicked || not run.has_slot) (λ e. analysis_failure-IsSelected)
        (λ e. prepared_result-IsSelected run)

  selected-allowed :
      (selected : Action) (message : Bytes)
      → (enforces c || is_accept selected) ≡ true
      → allowed_answer c s (response_for_action selected message) ≡ true
  selected-allowed action_accept message e = accepts-allowed c s message
  selected-allowed action_reject message e =
      enforced-allowed c s action_reject message (ground (arith, e))
  selected-allowed action_tempfail message e =
      enforced-allowed c s action_tempfail message (ground (arith, e))

  answer_result-Answered :
      (r : EvaluationResult) (m : Ending)
      → IsSelected r
      → Ready c s m
      → Answered c s r.selected (answer_result c s r m)
  answer_result-Answered r m e ready =
      if-cases (Answered c s r.selected) (is_accept r.selected)
        (λ a.
          on_success-Answered c s r.selected (write_accepted_result_headers c s r m)
            (write_policy_response c s r.selected (reject_text c s r))
            (write_accepted_result_headers-Sent c s r m ready)
            (λ m' ready'.
              write_policy_response-Answered c s r.selected (reject_text c s r) m'
                (selected-allowed r.selected (reject_text c s r) e) ready'))
        (λ a.
          write_policy_response-Answered c s r.selected (reject_text c s r) m
            (selected-allowed r.selected (reject_text c s r) e) ready)

  completed-Settled :
      (selected : Action) (m : Ending)
      → Settled c s selected m
      → Settled c s selected
          (if is_accept selected then complete_sender_blocklist_removal c s m else m)
  completed-Settled action_accept m settled =
      complete_sender_blocklist_removal-Settled c s m settled
  completed-Settled action_reject m settled = settled
  completed-Settled action_tempfail m settled = settled

  result_answered-Concludes :
      (inbound : InboundEvidence) (r : EvaluationResult) (o : Ending × Bool)
      → Answered c s r.selected o
      → Concludes c s (result_answered c s inbound r o)
  unfolding record_scan
  result_answered-Concludes inbound r (m, true) settled =
      (apply_post_decision_updates-Settled c s (sender c s) r inbound.trust_requirement_met _ (
        completed-Settled r.selected (record_scan r true m) (
          noted-Settled c s r.selected (scan_event r) (activity_outcome r.selected true) 0 m
            settled))).0
  result_answered-Concludes inbound r (m, false) story = (cut_off, reports _ _ _ story)

  finish_evaluated-Concludes :
      (inbound : InboundEvidence) (e : Evidence) (m : Ending)
      → Ready c s m
      → Concludes c s (finish_evaluated c s inbound e m)
  unfolding finish_evaluated record_scan
  finish_evaluated-Concludes inbound e m ready =
      let run = c.analyze s e in
      let ticked = emit_all (replicate run.ticks progress) m in
      let ready' : Ready c s ticked.0 = ticks-Ready c s run.ticks m ready in
      if-cases (Concludes c s) (not ticked.1 || run.interrupted)
        (λ f. (unanswered, reports _ _ _ ready'.0))
        (λ f.
          result_answered-Concludes inbound (evaluate c run)
            (answer_result c s (evaluate c run) ticked.0)
            (answer_result-Answered (evaluate c run) ticked.0 (evaluate-IsSelected run) ready'))

  finish_inbound-Concludes :
      (e : Evidence) (m : Ending) → Ready c s m → Concludes c s (finish_inbound c s e m)
  unfolding finish_inbound
  finish_inbound-Concludes e m ready =
      let inbound =
        prepare_inbound_evidence c s (sender c s) (c.mail_domain (sender c s))
          (recipient_set_complete c s) e m in
      if-cases (Concludes c s) (not (is_blank inbound.allowed_sender_domain))
        (λ a. finish_bypassed_message-Concludes c s sender_domain_allowlisted false _ m refl ready)
        (λ a.
          if-cases (Concludes c s) inbound.bypass_ai
            (λ b. finish_bypassed_message-Concludes c s known_correspondent false _ m refl ready)
            (λ b. finish_evaluated-Concludes inbound e m ready))

  verify-Ready :
      (m : Ending) → Ready c s m → Ready c s (verify_authentication_with_progress c s m).0
  unfolding verify_authentication_with_progress
  verify-Ready m ready =
      if-cases (λ (o : Ending × Evidence). Ready c s o.0)
        (c.host.internal_authentication && s.authentication.authenticated) (λ e. ready)
        (λ e. ticks-Ready c s (c.verify s).ticks m ready)

  progressed :
      (o : Ending × Bool) (next : Ending → Ending × Bool)
      → Ready c s o.0
      → ((m : Ending) → Ready c s m → Concludes c s (next m))
      → Concludes c s (on_success o next)
  progressed (m, true) next ready f = f m ready
  progressed (m, false) next ready f = (unanswered, ready.0)

  finish_inspected-Concludes : (m : Ending) → Ready c s m → Concludes c s (finish_inspected c s m)
  unfolding finish_inspected
  finish_inspected-Concludes m ready =
      if-cases (Concludes c s) (s.authentication.authenticated && not c.scan_authenticated)
        (λ e.
          finish_bypassed_message-Concludes c s authenticated_connection true false m
            (ground (arith, e)) ready)
        (λ e.
          progressed (if c.has_scanner then emit progress m else (m, true))
            (λ m'. unless_handled (apply_attachments c s (sender c s) m') (finish_verified c s))
            (if-cases (λ (o : Ending × Bool). Ready c s o.0) c.has_scanner
              (λ h. emit-progress-Ready c s m ready) (λ h. ready))
            (λ m' ready'.
              unless_handled-Concludes c s (apply_attachments c s (sender c s) m')
                (finish_verified c s) (apply_attachments-Goes c s (sender c s) m' ready')
                (λ m'' ready''. finish_inbound-Concludes _ _ (verify-Ready m'' ready''))))

  finish_external-Concludes : (m : Ending) → Ready c s m → Concludes c s (finish_external c s m)
  unfolding finish_external
  finish_external-Concludes m ready =
      unless_handled-Concludes c s (handle_email_command c s m) _
        (handle_email_command-Goes c s m ready)
        (λ m₁ r₁.
          unless_handled-Concludes c s (apply_authenticated_only_sender_domain c s (sender c s) m₁)
            _ (apply_authenticated_only_sender_domain-Goes c s (sender c s) m₁ r₁)
            (λ m₂ r₂.
              unless_handled-Concludes c s (apply_sender_blocklist c s m₂) _
                (apply_sender_blocklist-Goes c s m₂ r₂) finish_inspected-Concludes))

  -- The events at the end of any message, under any configuration, keep to the account, and the connection is kept only after
  -- an answer that was sent.
  pub finish_message-Story : (conn : Writer) → Concludes c s (finish_message c s conn)
  unfolding finish_message
  finish_message-Story conn =
      if-cases (Concludes c s) (not (c.sets_deadline s)) (λ e. (unanswered, begins))
        (λ e.
          if-cases (Concludes c s) (is_internal_message c s)
            (λ i. finish_internal_message-Concludes c s _ i (begins, tt))
            (λ i. finish_external-Concludes _ (begins, tt)))
