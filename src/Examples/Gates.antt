-- ===== src/Examples/Gates.antt =====
-- internal/milter: the ends of a message and of MAIL, in a session.
use milter_guard.Prelude.{true, [], ◌≡◌, refl}
use milter_guard.Prelude.Bytes.{bytes_eq, contains, to_lower}
use milter_guard.Wire.Command.{
  put_u32, add_header_response, delete_header_response, delete_recipient_response,
}
use milter_guard.Wire.Frame.{write_frame, write_all}
use milter_guard.Wire.Reply.{
  reply_text, clean, double_percents, rune_end, truncate_utf8, odd_percents, trim_percent,
  reply_code,
}
use milter_guard.Session.Address.{without_zone, unmap, canonical_ip}
use milter_guard.Session.State.{Session}
use milter_guard.Session.Handlers.{and_bits}
use milter_guard.Session.Commands.{blank_session}
use milter_guard.Policy.State.{
  emit, emit_all, frame_of, select_action_for_mode, response_for_action, activity_outcome,
  record_deterministic,
}
use milter_guard.Policy.Headers.{
  lower_text, count_headers, header_occurrences, from_header_count, deletions,
  replace_result_headers, write_accepted_bypass_headers, additions, write_classification_headers,
  accepted_action, accepted_result_headers, write_accepted_result_headers,
}
use milter_guard.Policy.Analysis.{evaluate, apply_policy, failure_action, analysis_failure}
use milter_guard.Policy.Commands.{
  collect_commands, is_internal_message, has_command_recipient, is_command_administrator,
  command_refusal, handle_email_command, reject_email_command, discard_email_command, queue_reply,
  execute_all, run_collected, run_lines,
}
use milter_guard.Policy.Finish.{
  finish_message, record_bypass, finish_bypassed_message, finish_internal_message,
  verify_authentication_with_progress, finish_evaluated, finish_inbound, finish_inspected,
  finish_external,
}
use milter_guard.Policy.Promises.{sent_answers}
use milter_guard.Prelude.Utf8.{is_continuation, rune_rest, valid_from, to_valid_utf8}
use milter_guard.Policy.Updates.{
  has_prefix, domain_matches, scan_event, record_scan, some_name_allowed, domain_allowed,
  reputation_add, record_legitimate_ip, policy_envelope_recipients,
  complete_sender_blocklist_removal, recipients_normal, recipient_set_complete, visible_sender,
  record_inbound_classification, apply_post_decision_updates,
}
use milter_guard.Policy.Senders.{
  deleted_recipients, distinct, without, normal_values, normalized_recipients,
  finish_authenticated_only_sender_domain, apply_authenticated_only_sender_domain, reject_blocked,
  apply_sender_blocklist, write_policy_response,
}
use milter_guard.Policy.Attachments.{
  attachment_configured_action, invalid_mime_configured_action, attachment_error_path,
  decide_scan_error, evaluate_attachments, finish_attachment_decision, apply_attachments,
}
use milter_guard.Policy.Inbound.{
  meets_trust_requirement, allowed_sender_domain, prepare_inbound_evidence,
}
use milter_guard.Examples.Endings.{policy, session}
use milter_guard.Session.State.{connection, body_phase}
use milter_guard.Session.Commands.{handle_mail, handle_end_body}
use milter_guard.Policy.Finish.{is_blocked, reject_reputation_ip, filtering_host}
use milter_guard.Policy.Sessions.{with_body, handle_end_body-sent_answers}

abbrev in_body : Session
in_body = record session { phase = body_phase }

abbrev at_mail : Session
at_mail = record session { phase = connection }

ends : (handle_end_body (filtering_host policy) [] in_body).1 ≡ true
unfolding bytes_eq contains to_lower is_continuation rune_rest valid_from to_valid_utf8 put_u32
    add_header_response delete_header_response delete_recipient_response write_all write_frame clean
    double_percents rune_end truncate_utf8 odd_percents trim_percent reply_text reply_code
    without_zone unmap canonical_ip and_bits frame_of emit emit_all select_action_for_mode
    response_for_action activity_outcome record_deterministic lower_text count_headers
    header_occurrences from_header_count deletions additions replace_result_headers
    write_classification_headers accepted_action write_accepted_bypass_headers
    accepted_result_headers write_accepted_result_headers has_prefix domain_matches scan_event
    record_scan some_name_allowed domain_allowed reputation_add record_legitimate_ip
    policy_envelope_recipients complete_sender_blocklist_removal recipients_normal
    recipient_set_complete visible_sender record_inbound_classification apply_post_decision_updates
    deleted_recipients distinct without normal_values normalized_recipients
    finish_authenticated_only_sender_domain apply_authenticated_only_sender_domain reject_blocked
    apply_sender_blocklist write_policy_response attachment_configured_action
    invalid_mime_configured_action attachment_error_path decide_scan_error evaluate_attachments
    finish_attachment_decision apply_attachments meets_trust_requirement allowed_sender_domain
    prepare_inbound_evidence apply_policy failure_action analysis_failure evaluate collect_commands
    is_internal_message has_command_recipient is_command_administrator reject_email_command
    discard_email_command queue_reply execute_all run_collected run_lines command_refusal
    handle_email_command record_bypass finish_bypassed_message finish_internal_message
    verify_authentication_with_progress finish_evaluated finish_inbound finish_inspected
    finish_external finish_message handle_end_body milter_guard.Session.Commands.finish_message
ends = refl

handle_end_body-sent_answers_example :
    (sent_answers
        (finish_message policy (with_body [] in_body) (with_body [] in_body).conn).0.events
      ≡ 1)
    × ((handle_end_body (filtering_host policy) [] in_body).0.phase ≡ connection)
    × ((handle_end_body (filtering_host policy) [] in_body).0.message ≡ [])
    × ((handle_end_body (filtering_host policy) [] in_body).0.envelope_recipients ≡ [])
    × ((handle_end_body (filtering_host policy) [] in_body).0.conn
        ≡ (finish_message policy (with_body [] in_body) (with_body [] in_body).conn).0.conn)
handle_end_body-sent_answers_example = handle_end_body-sent_answers policy [] in_body ends

-- The address is blocked, and MAIL leaves the session in its phase.
stays : (handle_mail (filtering_host policy) [] at_mail).0.phase ≡ connection
unfolding bytes_eq contains is_continuation rune_rest valid_from to_valid_utf8 put_u32 write_all
    write_frame clean double_percents rune_end truncate_utf8 odd_percents trim_percent reply_text
    reply_code without_zone unmap canonical_ip frame_of emit response_for_action activity_outcome
    record_deterministic some_name_allowed domain_allowed handle_mail is_blocked
    reject_reputation_ip
stays = refl
