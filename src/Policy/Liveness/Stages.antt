-- ===== src/Policy/Liveness/Stages.antt =====
-- internal/milter/session.go: the policies and the bypasses, on a connection that takes every write.
use milter_guard.Prelude.{
  Bool, true, false, ◌&&◌, ◌||◌, not, Option, none, some, List, [], ◌∷◌, ◌≡◌, refl, if◌then◌else◌,
  if-cases, elim-cases,
}
use milter_guard.Prelude.Bytes.{Bytes}
use milter_guard.Wire.Command.{action_change_headers, action_delete_recipient}
use milter_guard.Session.State.{Session}
use milter_guard.Policy.State.{
  Action, action_accept, action_reject, is_accept, is_reject, tempfailed, discarded, AdminCommand,
  executed, Lines, read_lines, failed_lines, invalid_lines, Ending, Policy, enforces, offers, note,
  learned, emit, unless_handled, select_action_for_mode, response_for_action, record_deterministic,
  event_protected_sender_domain_rejection,
}
use milter_guard.Policy.Headers.{is_blank, write_accepted_bypass_headers}
use milter_guard.Policy.Updates.{
  record_legitimate_ip, complete_sender_blocklist_removal, recipient_set_complete,
  policy_envelope_recipients,
}
use milter_guard.Policy.Senders.{
  no_strings, without, normalized_recipients, domain_headers, domain_answered,
  finish_authenticated_only_sender_domain, apply_authenticated_only_sender_domain, reject_blocked,
  apply_sender_blocklist, write_policy_response,
}
use milter_guard.Policy.Commands.{
  Collected, collected, invalid_command, no_commands, reject_email_command, discard_email_command,
  queue_reply, complete_email_command, execute_all, run_collected, run_lines, command_refusal,
  to_commands, command_answer, handle_email_command,
}
use milter_guard.Policy.Finish.{
  Source, internal_command_reply, authenticated_connection, sender_domain_allowlisted,
  known_correspondent, is_trusted_source, record_bypass, bypass_updates, bypass_answered,
  finish_bypassed_message, internal_deletions, finish_internal_message,
}
use milter_guard.Policy.Liveness.{
  Open, Done, emit-Done, on_success-Done, emit_all-Done, write_classification_headers-Done,
  write_accepted_bypass_headers-Done, write_policy_response-Done, reputation_add-Open,
  record_legitimate_ip-Open, removal-Open,
}

abbrev pub Passes : Ending × Option Bool → Type 0
Passes (m, none) = Open m
Passes (m, some kept) = (kept ≡ true) × Open m

pub unless_handled-Done :
    (o : Ending × Option Bool) (next : Ending → Ending × Bool)
    → Passes o
    → ((m : Ending) → Open m → Done (next m))
    → Done (unless_handled o next)
unless_handled-Done (m, none) next o f = f m o
unless_handled-Done (m, some kept) next done f = done

record_bypass-Open : (source : Source) (m : Ending) → Open m → Open (record_bypass source true m)
unfolding record_bypass record_deterministic
record_bypass-Open internal_command_reply m o = o
record_bypass-Open authenticated_connection m o = o
record_bypass-Open sender_domain_allowlisted m o = o
record_bypass-Open known_correspondent m o = o

module _ (c : Policy) (s : Session) where
  bypass_updates-Open :
      (source : Source) (learn touch_inbound : Bool) (m : Ending)
      → Open m
      → Open (bypass_updates c s source learn touch_inbound m)
  bypass_updates-Open source learn touch_inbound m o =
      let credited_m : Ending =
        if not s.authentication.authenticated && is_trusted_source source
        then record_legitimate_ip c s m
        else m in
      let credits : Open credited_m =
        if-cases Open (not s.authentication.authenticated && is_trusted_source source)
          (λ e. record_legitimate_ip-Open c s m o) (λ e. o) in
      let learned_m : Ending =
        if learn
        then note (learned s.envelope_sender (policy_envelope_recipients c s credited_m)) credited_m
        else credited_m in
      let learns : Open learned_m = if-cases Open learn (λ e. credits) (λ e. credits) in
      if-cases Open touch_inbound (λ e. learns) (λ e. learns)

  bypass_answered-Done :
      (source : Source) (learn touch_inbound : Bool) (o : Ending × Bool)
      → Done o
      → Done (bypass_answered c s source learn touch_inbound o)
  bypass_answered-Done source learn touch_inbound (m, false) (t, o) = absurd (cc)
  bypass_answered-Done source learn touch_inbound (m, true) (t, o) =
      let completed = complete_sender_blocklist_removal c s (record_bypass source true m) in
      let done : Open completed = removal-Open c s _ (record_bypass-Open source m o) in
      (
        refl,
        if-cases Open (enforces c)
            (λ e. bypass_updates-Open source learn touch_inbound completed done) (λ e. done),
      )

  pub finish_bypassed_message-Done :
      (source : Source) (learn touch_inbound : Bool) (m : Ending)
      → Open m
      → Done (finish_bypassed_message c s source learn touch_inbound m)
  unfolding finish_bypassed_message
  finish_bypassed_message-Done source learn touch_inbound m o =
      bypass_answered-Done source learn touch_inbound _ (
        on_success-Done c s (write_accepted_bypass_headers c s m)
          (write_policy_response c s action_accept c.reject_message)
          (write_accepted_bypass_headers-Done c s m o)
          (λ m' o'. write_policy_response-Done c s action_accept c.reject_message m' o'))

  pub finish_internal_message-Done : (m : Ending) → Open m → Done (finish_internal_message c s m)
  unfolding finish_internal_message
  finish_internal_message-Done m o =
      if-cases Done (not (offers action_change_headers s)) (λ e. emit-Done c s tempfailed m o)
        (λ e.
          on_success-Done c s _ _ (emit_all-Done c s (internal_deletions c s) m o)
            (λ m' o'. finish_bypassed_message-Done internal_command_reply false false m' o'))

  execute_all-Open :
      (admin : Bool) (reply_to : Bytes) (commands : List AdminCommand) (m : Ending)
      → Open m
      → Open (execute_all c s admin reply_to commands m)
  unfolding execute_all
  execute_all-Open admin reply_to [] m o = o
  execute_all-Open admin reply_to (x ∷ xs) m o =
      execute_all-Open admin reply_to xs (note (executed admin reply_to x) m) o

  complete-Done :
      (reply_to : Bytes) (m : Ending) → Open m → Done (complete_email_command c s reply_to m)
  unfolding discard_email_command queue_reply
  complete-Done reply_to m o =
      emit-Done c s discarded (queue_reply c s reply_to m)
        (if-cases Open (not c.send_replies || not c.has_reply_slot) (λ e. o) (λ e. o))

  run_collected-Done :
      (admin : Bool) (reply_to : Bytes) (found : Collected) (m : Ending)
      → Open m
      → Done (run_collected c s admin reply_to found m)
  unfolding run_collected
  run_collected-Done admin reply_to (invalid_command error) m o = complete-Done reply_to m o
  run_collected-Done admin reply_to (collected commands) m o =
      if-cases Done (no_commands commands) (λ e. complete-Done reply_to m o)
        (λ e. complete-Done reply_to _ (execute_all-Open admin reply_to commands m o))

  run_lines-Done :
      (admin : Bool) (reply_to : Bytes) (text : Lines) (m : Ending)
      → Open m
      → Done (run_lines c s admin reply_to text m)
  unfolding run_lines
  run_lines-Done admin reply_to (failed_lines reason) m o = complete-Done reply_to m o
  run_lines-Done admin reply_to (invalid_lines reason) m o = complete-Done reply_to m o
  run_lines-Done admin reply_to (read_lines lines) m o = run_collected-Done admin reply_to _ m o

  command_answer-Done :
      (refusal : Option Bytes) (m : Ending) → Open m → Done (command_answer c s refusal m)
  unfolding reject_email_command
  command_answer-Done (some reason) m o = emit-Done c s _ m o
  command_answer-Done none m o = run_lines-Done _ _ (c.command_lines s.message) m o

  pub handle_email_command-Passes : (m : Ending) → Open m → Passes (handle_email_command c s m)
  unfolding handle_email_command
  handle_email_command-Passes m o =
      if-cases Passes (to_commands c s) (λ e. command_answer-Done (command_refusal c s) m o)
        (λ e. o)

  domain_answered-Done :
      (from : Bytes) (selected : Action) (o : Ending × Bool)
      → Done o
      → Done (domain_answered c s from selected o)
  unfolding record_deterministic
  domain_answered-Done from selected (m, false) (t, o) = absurd (cc)
  domain_answered-Done from selected (m, true) (t, o) =
      let noted_m : Ending =
        if is_reject selected
        then record_deterministic event_protected_sender_domain_rejection selected true m
        else m in
      let notes : Open noted_m = if-cases Open (is_reject selected) (λ e. o) (λ e. o) in
      (refl, if-cases Open (is_reject selected) (λ e. reputation_add-Open c s _ notes) (λ e. notes))

  pub domain-Passes :
      (from : Bytes) (m : Ending)
      → Open m
      → Passes (apply_authenticated_only_sender_domain c s from m)
  unfolding apply_authenticated_only_sender_domain finish_authenticated_only_sender_domain
  domain-Passes from m o =
      let selected = select_action_for_mode action_reject c in
      if-cases Passes (s.authentication.authenticated || is_blank s.protected_sender_domain)
        (λ e. o)
        (λ e. domain_answered-Done from selected _ (
          on_success-Done c s (domain_headers c s selected m) _
            (if-cases Done (not (is_accept selected)) (λ e₁. (refl, o))
              (λ e₁.
                if-cases Done c.add_email_headers
                  (λ e₂. write_classification_headers-Done c s _ _ m o)
                  (λ e₂. write_accepted_bypass_headers-Done c s m o)))
            (λ m' o'. emit-Done c s _ m' o')))

  blocked-Passes :
      (o : Ending × Bool) (m' : Ending)
      → Done o
      → (Open o.0 → Open m')
      → Passes (if not o.1 then (o.0, some false) else (m', some true))
  blocked-Passes (m, true) m' (t, o) f = (refl, f o)
  blocked-Passes (m, false) m' (t, o) f = absurd (cc)

  reject_blocked-Passes :
      (blocked : List Bytes) (from : Bytes) (m : Ending)
      → Open m
      → Passes (reject_blocked c s blocked from m)
  unfolding reject_blocked
  reject_blocked-Passes blocked from m o =
      blocked-Passes (emit (response_for_action action_reject c.sender_blocklist_reject_message) m)
        _ (emit-Done c s _ m o) (λ o'. o')

  pub blocklist-Passes : (m : Ending) → Open m → Passes (apply_sender_blocklist c s m)
  unfolding apply_sender_blocklist
  blocklist-Passes m o =
      if-cases Passes (s.authentication.authenticated || not c.has_sender_blocklist) (λ e. o)
        (λ e.
          if-cases Passes
            (no_strings (normalized_recipients c s s.sender_blocklist_from)
              || s.sender_blocklist_from_truncated
              || not (recipient_set_complete c s))
            (λ e₁. o)
            (λ e₁.
              elim-cases Passes
                (c.match_sender_blocks (normalized_recipients c s s.sender_blocklist_from)
                  (normalized_recipients c s s.envelope_recipients))
                (λ e₂. o)
                (λ (blocked, from) e₂.
                  if-cases Passes (no_strings blocked) (λ e₃. o)
                    (λ e₃.
                      if-cases Passes (not (enforces c)) (λ e₄. o)
                        (λ e₄.
                          if-cases Passes
                            (no_strings
                              (without blocked (normalized_recipients c s s.envelope_recipients)))
                            (λ e₅. reject_blocked-Passes blocked from m o)
                            (λ e₅.
                              if-cases Passes (not (offers action_delete_recipient s)) (λ e₆. o)
                                (λ e₆. o)))))))
