-- ===== src/Policy/Finish.antt =====
-- internal/milter/session.go: `finishMessage` and what it calls, in its order.
use milter_guard.Prelude.{
  Bool, true, false, ◌&&◌, ◌||◌, not, Option, none, some, List, [], replicate, if◌then◌else◌,
}
use milter_guard.Prelude.Bytes.{Bytes}
use milter_guard.Wire.Frame.{Writer}
use milter_guard.Wire.Command.{action_change_headers}
use milter_guard.Session.Address.{canonical_ip}
use milter_guard.Session.State.{Session, Host}
use milter_guard.Policy.State.{
  response_for_action, action_reject, action_accept, is_accept, event_correspondent_accept,
  event_trusted_domain_accept, event_ip_rejection, Response, progress, tempfailed, deleted_header,
  learned, touched, Evidence, Verification, Ending, Policy, enforces, offers, note, emit, emit_all,
  on_success, unless_handled, record_deterministic,
}
use milter_guard.Policy.Headers.{
  EvaluationResult, is_blank, header_occurrences, from_header_count, write_accepted_bypass_headers,
  write_accepted_result_headers,
}
use milter_guard.Policy.Updates.{
  domain_allowed, policy_envelope_recipients, recipient_set_complete, visible_sender,
  record_legitimate_ip, record_scan, complete_sender_blocklist_removal, apply_post_decision_updates,
}
use milter_guard.Policy.Senders.{
  apply_authenticated_only_sender_domain, apply_sender_blocklist, write_policy_response,
}
use milter_guard.Policy.Attachments.{apply_attachments}
use milter_guard.Policy.Inbound.{InboundEvidence, no_evidence, prepare_inbound_evidence}
use milter_guard.Policy.Analysis.{evaluate}
use milter_guard.Policy.Commands.{
  internal_message_header, is_internal_message, handle_email_command,
}

-- `source` of a message that bypasses the analysis.
pub data Source : Type 0 where
  internal_command_reply authenticated_connection sender_domain_allowlisted known_correspondent :
      Source

abbrev pub is_trusted_source : Source → Bool
is_trusted_source internal_command_reply = false
is_trusted_source authenticated_connection = false
is_trusted_source sender_domain_allowlisted = true
is_trusted_source known_correspondent = true

unfoldable pub record_bypass : Source → Bool → Ending → Ending
record_bypass internal_command_reply sent m = m
record_bypass authenticated_connection sent m = m
record_bypass sender_domain_allowlisted sent m =
    record_deterministic event_trusted_domain_accept action_accept sent m
record_bypass known_correspondent sent m =
    record_deterministic event_correspondent_accept action_accept sent m

module _ (c : Policy) (s : Session) where
  abbrev pub sender : Bytes
  sender = visible_sender c s (from_header_count c.host s.message)

  abbrev pub bypass_updates : Source → Bool → Bool → Ending → Ending
  bypass_updates source learn touch_inbound m =
      let credited_m =
        if not s.authentication.authenticated && is_trusted_source source
        then record_legitimate_ip c s m
        else m in
      let learned_m =
        if learn
        then note (learned s.envelope_sender (policy_envelope_recipients c s credited_m)) credited_m
        else credited_m in
      if touch_inbound
      then note (touched sender (policy_envelope_recipients c s learned_m)) learned_m
      else learned_m

  abbrev pub bypass_answered : Source → Bool → Bool → Ending × Bool → Ending × Bool
  bypass_answered source learn touch_inbound (m, sent) =
      let noted_m = record_bypass source sent m in
      if not sent
      then (noted_m, false)
      else let completed = complete_sender_blocklist_removal c s noted_m in
        (
          if enforces c then bypass_updates source learn touch_inbound completed else completed,
          true,
        )

  unfoldable pub finish_bypassed_message : Source → Bool → Bool → Ending → Ending × Bool
  finish_bypassed_message source learn touch_inbound m =
      bypass_answered source learn touch_inbound (
        on_success (write_accepted_bypass_headers c s m)
          (write_policy_response c s action_accept c.reject_message))

  abbrev pub internal_deletions : List Response
  internal_deletions =
      replicate (header_occurrences c.host s.message internal_message_header)
        (deleted_header internal_message_header)

  unfoldable pub finish_internal_message : Ending → Ending × Bool
  finish_internal_message m =
      if not (offers action_change_headers s)
      then emit tempfailed m
      else on_success (emit_all internal_deletions m)
          (finish_bypassed_message internal_command_reply false false)

  abbrev pub verified : Verification → Bool → Evidence × Bool
  verified v sent =
      if not sent || v.interrupted then (no_evidence, true) else (v.evidence, v.failed)

  -- A failure of the provider leaves its methods unavailable.
  abbrev pub usable_evidence : Evidence × Bool → Evidence
  usable_evidence (e, failed) =
      if failed && c.host.internal_authentication then c.unavailable_evidence e else e

  unfoldable pub verify_authentication_with_progress : Ending → Ending × Evidence
  verify_authentication_with_progress m =
      let v = c.verify s in
      let (m', sent) = emit_all (replicate v.ticks progress) m in
      if c.host.internal_authentication && s.authentication.authenticated
      then (m, no_evidence)
      else (m', usable_evidence (verified v sent))

  abbrev pub reject_text : EvaluationResult → Bytes
  reject_text r = if is_blank r.reject_message then c.reject_message else r.reject_message

  abbrev pub answer_result : EvaluationResult → Ending → Ending × Bool
  answer_result r m =
      if is_accept r.selected
      then on_success (write_accepted_result_headers c s r m)
          (write_policy_response c s r.selected (reject_text r))
      else write_policy_response c s r.selected (reject_text r) m

  abbrev pub result_answered : InboundEvidence → EvaluationResult → Ending × Bool → Ending × Bool
  result_answered inbound r (m, sent) =
      let noted_m = record_scan r sent m in
      if not sent
      then (noted_m, false)
      else let completed =
          if is_accept r.selected then complete_sender_blocklist_removal c s noted_m else noted_m in
        (apply_post_decision_updates c s sender r inbound.trust_requirement_met completed, true)

  abbrev pub evaluated : InboundEvidence → EvaluationResult → Bool → Ending × Bool → Ending × Bool
  evaluated inbound r interrupted (m, sent) =
      if not sent || interrupted
      then (record_scan r false m, false)
      else result_answered inbound r (answer_result r m)

  unfoldable pub finish_evaluated : InboundEvidence → Evidence → Ending → Ending × Bool
  finish_evaluated inbound e m =
      let run = c.analyze s e in
      evaluated inbound (evaluate c run) run.interrupted (emit_all (replicate run.ticks progress) m)

  unfoldable pub finish_inbound : Evidence → Ending → Ending × Bool
  finish_inbound e m =
      let inbound =
        prepare_inbound_evidence c s sender (c.mail_domain sender) (recipient_set_complete c s) e
          m in
      if not (is_blank inbound.allowed_sender_domain)
      then finish_bypassed_message sender_domain_allowlisted false
          (inbound.known_correspondent && inbound.trust_requirement_met) m
      else if inbound.bypass_ai
      then finish_bypassed_message known_correspondent false inbound.trust_requirement_met m
      else finish_evaluated inbound e m

  abbrev pub finish_verified : Ending → Ending × Bool
  finish_verified m = let (m', e) = verify_authentication_with_progress m in finish_inbound e m'

  unfoldable pub finish_inspected : Ending → Ending × Bool
  finish_inspected m =
      if s.authentication.authenticated && not c.scan_authenticated
      then finish_bypassed_message authenticated_connection true false m
      else on_success (if c.has_scanner then emit progress m else (m, true))
          (λ m'. unless_handled (apply_attachments c s sender m') finish_verified)

  unfoldable pub finish_external : Ending → Ending × Bool
  finish_external m = unless_handled (handle_email_command c s m) (λ m₁.
      unless_handled (apply_authenticated_only_sender_domain c s sender m₁)
        (λ m₂. unless_handled (apply_sender_blocklist c s m₂) finish_inspected))

  unfoldable pub finish_message : Writer → Ending × Bool
  finish_message conn =
      let m : Ending = record { conn = conn; pending_sender_blocks = none; events = [] } in
      if not (c.sets_deadline s)
      then (m, false)
      else if is_internal_message c s
      then finish_internal_message m
      else finish_external m

-- The block that `rejectReputationIP` finds, with its guards: none where MAIL goes on.
unfoldable pub is_blocked : Policy → Session → Bool
is_blocked c s =
    if not (enforces c) || s.authentication.authenticated then false else elim s.peer_ip [
      | none ↦ false
      | some addr ↦
          not (c.ip_allowed (canonical_ip addr))
          && not (domain_allowed c s)
          && c.reputation_enabled
          && c.active_block (canonical_ip addr)
    ]

abbrev pub ip_reject_message : Policy → Bytes
ip_reject_message c =
    if is_blank c.reputation_reject_message then c.reject_message else c.reputation_reject_message

-- `rejectReputationIP`: the reply to MAIL where the sending address is blocked, and its record.
unfoldable pub reject_reputation_ip : Policy → Session → Writer → Option (Ending × Bool)
reject_reputation_ip c s conn =
    if not (is_blocked c s)
    then none
    else let m : Ending = record { conn = conn; pending_sender_blocks = none; events = [] } in
      let (m', sent) = emit (response_for_action action_reject (ip_reject_message c)) m in
      some (record_deterministic event_ip_rejection action_reject sent m', sent)

-- What a session sees of an end or a rejection: the connection, and whether it is kept.
abbrev pub outcome_of : Ending × Bool → Writer × Bool
outcome_of (m, kept) = (m.conn, kept)

abbrev pub reject_outcome : Option (Ending × Bool) → Option (Writer × Bool)
reject_outcome none = none
reject_outcome (some e) = some (outcome_of e)

-- The rejection at MAIL and the end of a message as a session has them: after an answer at the end the
-- session resets the message.
abbrev pub filtering_host : Policy → Host
filtering_host c = record c.host {
  reject_ip = λ s. reject_outcome (reject_reputation_ip c s s.conn);
  finish = λ s. outcome_of (finish_message c s s.conn);
}
