-- ===== src/Policy/Liveness/Endings.antt =====
-- internal/milter/session.go: the answer to a message, on a connection that takes every write.
use milter_guard.Prelude.{
  Bool, true, false, ◌&&◌, ◌||◌, not, [], ◌≡◌, refl, arith, if◌then◌else◌, if-cases, replicate,
}
use milter_guard.Wire.Frame.{Writer}
use milter_guard.Session.State.{Session}
use milter_guard.Policy.State.{is_accept, progress, Evidence, Ending, Policy, emit, emit_all}
use milter_guard.Policy.Headers.{EvaluationResult, is_blank, write_accepted_result_headers}
use milter_guard.Policy.Updates.{recipient_set_complete, record_scan}
use milter_guard.Policy.Senders.{apply_authenticated_only_sender_domain, apply_sender_blocklist}
use milter_guard.Policy.Attachments.{apply_attachments}
use milter_guard.Policy.Inbound.{InboundEvidence, prepare_inbound_evidence}
use milter_guard.Policy.Commands.{is_internal_message, handle_email_command}
use milter_guard.Policy.Finish.{
  authenticated_connection, sender_domain_allowlisted, known_correspondent, sender,
  verify_authentication_with_progress, answer_result, result_answered, evaluated, finish_evaluated,
  finish_inbound, finish_verified, finish_inspected, finish_external, finish_message,
}
use milter_guard.Policy.Promises.{sent_answers, finish_message-sent_answers}
use milter_guard.Policy.Liveness.{
  Open, Done, emit-Done, on_success-Done, emit_all-Done, write_accepted_result_headers-Done,
  write_policy_response-Done, removal-Open, apply_post_decision_updates-Open,
}
use milter_guard.Policy.Liveness.Stages.{
  unless_handled-Done, finish_bypassed_message-Done, finish_internal_message-Done,
  handle_email_command-Passes, domain-Passes, blocklist-Passes,
}
use milter_guard.Policy.Liveness.Attachments.{attachments-Passes}

module _ (c : Policy) (s : Session) where
  answer_result-Done : (r : EvaluationResult) (m : Ending) → Open m → Done (answer_result c s r m)
  answer_result-Done r m o =
      if-cases Done (is_accept r.selected)
        (λ e.
          on_success-Done c s (write_accepted_result_headers c s r m) _
            (write_accepted_result_headers-Done c s r m o)
            (λ m' o'. write_policy_response-Done c s _ _ m' o'))
        (λ e. write_policy_response-Done c s _ _ m o)

  result_answered-Done :
      (inbound : InboundEvidence) (r : EvaluationResult) (o : Ending × Bool)
      → Done o
      → Done (result_answered c s inbound r o)
  unfolding record_scan
  result_answered-Done inbound r (m, false) (t, o) = absurd (cc)
  result_answered-Done inbound r (m, true) (t, o) = (
    refl,
    apply_post_decision_updates-Open c s _ r _ _ (
        if-cases Open (is_accept r.selected) (λ e. removal-Open c s (record_scan r true m) o)
          (λ e. o)),
  )

  evaluated-Done :
      (inbound : InboundEvidence) (r : EvaluationResult) (interrupted : Bool) (o : Ending × Bool)
      → interrupted ≡ false
      → Done o
      → Done (evaluated c s inbound r interrupted o)
  evaluated-Done inbound r interrupted (m, false) i (t, o) = absurd (cc)
  evaluated-Done inbound r interrupted (m, true) i (t, o) =
      if-cases Done (not true || interrupted) (λ e. absurd (ground (arith, e, i)))
        (λ e. result_answered-Done inbound r (answer_result c s r m) (answer_result-Done r m o))

  finish_inbound-Done :
      (e : Evidence) (m : Ending)
      → (c.analyze s e).interrupted ≡ false
      → Open m
      → Done (finish_inbound c s e m)
  unfolding finish_inbound finish_evaluated
  finish_inbound-Done e m i o =
      let inbound =
        prepare_inbound_evidence c s (sender c s) (c.mail_domain (sender c s))
          (recipient_set_complete c s) e m in
      if-cases Done (not (is_blank inbound.allowed_sender_domain))
        (λ a. finish_bypassed_message-Done c s sender_domain_allowlisted false _ m o)
        (λ a.
          if-cases Done inbound.bypass_ai
            (λ b. finish_bypassed_message-Done c s known_correspondent false _ m o)
            (λ b.
              evaluated-Done inbound _ _ _ i
                (emit_all-Done c s (replicate (c.analyze s e).ticks progress) m o)))

  ticked : (o : Ending × Bool) → Done o → Open o.0
  ticked (m, sent) (t, o) = o

  verify-Open : (m : Ending) → Open m → Open (verify_authentication_with_progress c s m).0
  unfolding verify_authentication_with_progress
  verify-Open m o =
      if-cases (λ (p : Ending × Evidence). Open p.0)
        (c.host.internal_authentication && s.authentication.authenticated) (λ e. o)
        (λ e.
          ticked (emit_all (replicate (c.verify s).ticks progress) m)
            (emit_all-Done c s (replicate (c.verify s).ticks progress) m o))

  finish_inspected-Done :
      (m : Ending)
      → c.has_scan_slot ≡ true
      → ((e : Evidence) → (c.analyze s e).interrupted ≡ false)
      → Open m
      → Done (finish_inspected c s m)
  unfolding finish_inspected
  finish_inspected-Done m slot i o =
      if-cases Done (s.authentication.authenticated && not c.scan_authenticated)
        (λ e. finish_bypassed_message-Done c s authenticated_connection true false m o)
        (λ e.
          on_success-Done c s (if c.has_scanner then emit progress m else (m, true)) _
            (if-cases Done c.has_scanner (λ h. emit-Done c s progress m o) (λ h. (refl, o)))
            (λ m' o'.
              unless_handled-Done (apply_attachments c s (sender c s) m') (finish_verified c s)
                (attachments-Passes c s (sender c s) m' slot o')
                (λ m'' o''. finish_inbound-Done _ _ (i _) (verify-Open m'' o''))))

  finish_external-Done :
      (m : Ending)
      → c.has_scan_slot ≡ true
      → ((e : Evidence) → (c.analyze s e).interrupted ≡ false)
      → Open m
      → Done (finish_external c s m)
  unfolding finish_external
  finish_external-Done m slot i o =
      unless_handled-Done (handle_email_command c s m) _ (handle_email_command-Passes c s m o)
        (λ m₁ o₁.
          unless_handled-Done (apply_authenticated_only_sender_domain c s (sender c s) m₁) _
            (domain-Passes c s (sender c s) m₁ o₁)
            (λ m₂ o₂.
              unless_handled-Done (apply_sender_blocklist c s m₂) _ (blocklist-Passes c s m₂ o₂)
                (λ m₃ o₃. finish_inspected-Done m₃ slot i o₃)))

  finish_message-Done :
      (conn : Writer)
      → c.sets_deadline s ≡ true
      → c.has_scan_slot ≡ true
      → ((e : Evidence) → (c.analyze s e).interrupted ≡ false)
      → conn.script ≡ []
      → Done (finish_message c s conn)
  unfolding finish_message
  finish_message-Done conn d slot i o =
      if-cases Done (not (c.sets_deadline s)) (λ e. absurd (ground (arith, e, d)))
        (λ e.
          if-cases Done (is_internal_message c s) (λ f. finish_internal_message-Done c s _ o)
            (λ f. finish_external-Done _ slot i o))

  kept_of : (o : Ending × Bool) → Done o → o.1 ≡ true
  kept_of (m, kept) (t, o) = t

  -- On a connection that takes every write, when the deadline is set, there is room for the scanner and the analysis is not
  -- interrupted, the message gets exactly one answer and the connection is kept.
  pub finish_message-answers :
      (conn : Writer)
      → c.sets_deadline s ≡ true
      → c.has_scan_slot ≡ true
      → ((e : Evidence) → (c.analyze s e).interrupted ≡ false)
      → conn.script ≡ []
      → ((finish_message c s conn).1 ≡ true) × (sent_answers (finish_message c s conn).0.events ≡ 1)
  finish_message-answers conn d slot i o =
      let kept = kept_of (finish_message c s conn) (finish_message-Done conn d slot i o) in
      (kept, finish_message-sent_answers c s conn kept)
