-- ===== src/Examples/Endings.antt =====
-- internal/milter/session.go: the ends of messages under three configurations.
use milter_guard.Prelude.{
  ◌≤◌, ◌&&◌, ◌||◌, true, false, not, none, some, [], ◌∷◌, ◌≡◌, ◌==◌, leb, refl, length,
}
use milter_guard.Prelude.Bytes.{Bytes, codes, bytes_eq, contains, to_lower}
use milter_guard.Wire.Command.{
  put_u32, add_header_response, delete_header_response, delete_recipient_response,
}
use milter_guard.Wire.Frame.{Writer, write_frame, write_all}
use milter_guard.Wire.Reply.{
  max_smtp_reply_bytes, reply_text, clean, double_percents, rune_end, truncate_utf8, odd_percents,
  trim_percent, reply_code,
}
use milter_guard.Wire.Reply.Laws.{pairs_from, reply_text_lem}
use milter_guard.Session.Address.{v4, without_zone, unmap, canonical_ip}
use milter_guard.Session.Exact.{hybrid}
use milter_guard.Session.State.{Session, Host, header_call}
use milter_guard.Session.Handlers.{and_bits}
use milter_guard.Session.Commands.{blank_session}
use milter_guard.Policy.State.{
  Policy, Evidence, clean_scan, read_lines, is_reject, enforces, emit, emit_all, AnalysisRun,
  frame_of, select_action_for_mode, response_for_action, activity_outcome, record_deterministic,
}
use milter_guard.Policy.Headers.{
  result_header_names, lower_text, count_headers, header_occurrences, from_header_count, deletions,
  replace_result_headers, write_accepted_bypass_headers, additions, write_classification_headers,
  accepted_action, accepted_result_headers, write_accepted_result_headers,
}
use milter_guard.Policy.Analysis.{evaluate, apply_policy, failure_action, analysis_failure}
use milter_guard.Policy.Commands.{
  max_commands_per_message, collect_commands, is_internal_message, has_command_recipient,
  is_command_administrator, command_refusal, to_commands, handle_email_command,
  reject_email_command, discard_email_command, queue_reply, execute_all, run_collected, run_lines,
}
use milter_guard.Policy.Finish.{
  finish_message, record_bypass, finish_bypassed_message, finish_internal_message,
  verify_authentication_with_progress, finish_evaluated, finish_inbound, finish_inspected,
  finish_external,
}
use milter_guard.Policy.Story.Stages.{Concludes}
use milter_guard.Policy.Story.Results.{finish_message-Story}
use milter_guard.Policy.Promises.{all_events, negotiated, sent_answers, finish_message-sent_answers}
use milter_guard.Policy.Promises.Modes.{
  harmless, finish_message-negotiated, finish_message-harmless,
}
use milter_guard.Policy.Promises.Senders.{
  is_executed, judges_sender, finish_message-authenticated, finish_message-executed,
}
use milter_guard.Policy.Liveness.Endings.{finish_message-answers}
use milter_guard.Policy.Story.{all_cleared}
use milter_guard.Policy.Promises.Marks.{adds_header, finish_message-adds_header}
use milter_guard.Policy.Promises.Lines.{commands_of, all_fit, collect_commands_lem}
use milter_guard.Policy.Promises.Verdicts.{has_grounds, evaluate-rejects}
use milter_guard.Prelude.Utf8.{is_continuation, rune_rest, valid_from, to_valid_utf8}
use milter_guard.Policy.Updates.{
  has_prefix, domain_matches, scan_event, record_scan, some_name_allowed, domain_allowed,
  reputation_add, record_legitimate_ip, policy_envelope_recipients,
  complete_sender_blocklist_removal, recipients_normal, recipient_set_complete, visible_sender,
  record_inbound_classification, apply_post_decision_updates,
}
use milter_guard.Policy.Senders.{
  deleted_recipients, distinct, without, normal_values, normalized_recipients,
  finish_authenticated_only_sender_domain, apply_authenticated_only_sender_domain, reject_blocked,
  apply_sender_blocklist, write_policy_response,
}
use milter_guard.Policy.Attachments.{
  attachment_configured_action, invalid_mime_configured_action, attachment_error_path,
  decide_scan_error, evaluate_attachments, finish_attachment_decision, apply_attachments,
}
use milter_guard.Policy.Inbound.{
  meets_trust_requirement, allowed_sender_domain, prepare_inbound_evidence,
}

abbrev host : Host
host = record {
  internal_authentication = true;
  storage = hybrid;
  max_message_size = 1000;
  has_factory = true;
  parse_addr = λ s. none;
  canonical_macro_ip = λ s. none;
  clean_smtp_identity = λ s. s;
  valid_mta_hostname = λ s. s;
  trim_space = λ s. s;
  authenticated_only_from = λ s. [];
  from_mailboxes = λ s. [];
  reject_ip = λ s. none;
  finish = λ s. (s.conn, true);
}

abbrev aligned : Evidence
aligned = record { dkim_aligned = true; spf_aligned = false; dmarc_aligned = true }

-- An unwanted message; scores are compared as numbers.
abbrev run : AnalysisRun
run = record {
  ticks = 1;
  interrupted = false;
  panicked = false;
  has_slot = true;
  cpu_exceeded = false;
  memory_exceeded = false;
  timed_out = false;
  body_incomplete = false;
  decided = some (record { classification = codes "unwanted"; score = 9; reasons = [] });
}

abbrev pub policy : Policy
policy = record {
  host = host;
  mode = codes "enforce";
  add_email_headers = true;
  scan_authenticated = false;
  reject_message = codes "rejected";
  reject_score = 8;
  low_confidence_score = 5;
  ai_error_action = codes "accept";
  html_resource_limit_action = [];
  incomplete_body_action = codes "reject";
  sender_domain_allowlist = [];
  sender_domain_allowlist_require_authentication = true;
  trust_requirement = codes "dkim";
  use_allowlist = false;
  scope = codes "global";
  recipient_match = codes "any";
  bypass_ai = false;
  require_authentication_for_bypass = true;
  has_sender_blocklist = false;
  sender_blocklist_reject_message = [];
  has_scanner = true;
  attachment_reject_message = codes "no";
  unscannable_action = codes "accept";
  encrypted_archive_action = codes "accept";
  invalid_mime_action = codes "reject";
  add_ip_reputation_strike = true;
  reputation_enabled = true;
  reputation_reject_message = [];
  domain_allowlist = [];
  commands_enabled = true;
  command_recipient = codes "c";
  administrators = codes "admin" ∷ [];
  allow_authenticated_users = false;
  verify_sender_via_aliases = false;
  send_replies = true;
  internal_token = codes "token";
  normalize = λ s. s;
  mail_domain = λ s. s;
  dns_hostname = λ s. s;
  equal_fold_unicode = bytes_eq;
  sort_strings = λ xs. xs;
  format_score = λ n. [];
  score_less = λ a b. not (leb b a);
  retained_header = λ calls name. [];
  mime_headers_truncated = λ calls. false;
  body_truncated = λ calls. false;
  address_loopback = λ a. false;
  address_routable = λ a. true;
  ip_allowed = λ a. false;
  active_block = λ a. true;
  reverse_names = λ s. none;
  match_sender_blocks = λ a b. none;
  match_correspondent = λ a b. (false, false);
  owned_via_aliases = λ a b. false;
  command_lines = λ calls. read_lines (codes "help" ∷ []);
  parse_failure = λ admin to line. none;
  recognized_line = λ line. true;
  has_reply_slot = true;
  sets_deadline = λ s. true;
  has_scan_slot = true;
  scan = λ calls. clean_scan;
  verify = λ s. record { ticks = 1; interrupted = false; evidence = aligned; failed = false };
  unavailable_evidence = λ e. e;
  analyze = λ s e. run;
}

abbrev conn : Writer
conn = record { sent = []; script = [] }

-- The message claims to have been accepted before.
abbrev pub session : Session
session = record (blank_session conn (record { slots = 4; taken = 1; files = 0; creations = [] })) {
  connected = true;
  peer_ip = some (v4 0x7f000001);
  negotiated_actions = 0x19;
  envelope_sender = codes "a";
  envelope_recipients = codes "b" ∷ [];
  message = header_call (codes "X-MilterGuard-Score") (codes "0") ∷ [];
}

abbrev monitoring : Policy
monitoring = record policy { mode = codes "monitor" }

abbrev by_admin : Session
by_admin = record session {
  envelope_recipients = codes "c" ∷ [];
  authentication = record { authenticated = true; identity = codes "admin" };
}

finish_message-Story_example : Concludes policy session (finish_message policy session conn)
finish_message-Story_example = finish_message-Story policy session conn

finish_message-negotiated_example :
    all_events (negotiated session) (finish_message policy session conn).0.events ≡ true
finish_message-negotiated_example = finish_message-negotiated policy session conn

not_internal : is_internal_message monitoring session ≡ false
unfolding is_internal_message
not_internal = refl

not_to_commands : to_commands monitoring session ≡ false
unfolding has_command_recipient bytes_eq
not_to_commands = refl

not_enforced : enforces monitoring ≡ false
unfolding bytes_eq
not_enforced = refl

finish_message-harmless_example :
    all_events harmless (finish_message monitoring session conn).0.events ≡ true
finish_message-harmless_example =
    finish_message-harmless monitoring session conn not_enforced not_internal not_to_commands

finish_message-authenticated_example :
    all_events (λ e. not (judges_sender e)) (finish_message policy by_admin conn).0.events ≡ true
finish_message-authenticated_example = finish_message-authenticated policy by_admin conn refl

collect_commands_lem_example :
    (length (
        commands_of
          (collect_commands (λ line. none) (λ line. true) [] (codes "help" ∷ codes "list" ∷ [])))
      ≤ max_commands_per_message)
    × (all_fit
          (λ line. none)
          (commands_of
            (collect_commands (λ line. none) (λ line. true) [] (codes "help" ∷ codes "list" ∷ [])))
        ≡ true)
collect_commands_lem_example =
    collect_commands_lem (λ line. none) (λ line. true) (codes "help" ∷ codes "list" ∷ [])

evaluate-rejects_example : is_reject (evaluate policy run).selected ≡ (
    not run.panicked
    && run.has_slot
    && (enforces policy && not run.timed_out && has_grounds policy run))
evaluate-rejects_example = evaluate-rejects policy run

abbrev odd : Bytes
odd = codes "100% of\n it"

reply_text_lem_example :
    (length (reply_text (codes "550") (codes "5.7.1") odd) ≤ max_smtp_reply_bytes)
    × (pairs_from false (reply_text (codes "550") (codes "5.7.1") odd) ≡ some false)
    × (contains 0 (reply_text (codes "550") (codes "5.7.1") odd) ≡ false)
    × (contains 13 (reply_text (codes "550") (codes "5.7.1") odd) ≡ false)
    × (contains 10 (reply_text (codes "550") (codes "5.7.1") odd) ≡ false)
reply_text_lem_example = reply_text_lem (codes "550") (codes "5.7.1") odd

kept : (finish_message policy session conn).1 ≡ true
unfolding bytes_eq contains to_lower is_continuation rune_rest valid_from to_valid_utf8 put_u32
    add_header_response delete_header_response delete_recipient_response write_all write_frame clean
    double_percents rune_end truncate_utf8 odd_percents trim_percent reply_text reply_code
    without_zone unmap canonical_ip and_bits frame_of emit emit_all select_action_for_mode
    response_for_action activity_outcome record_deterministic lower_text count_headers
    header_occurrences from_header_count deletions additions replace_result_headers
    write_classification_headers accepted_action write_accepted_bypass_headers
    accepted_result_headers write_accepted_result_headers has_prefix domain_matches scan_event
    record_scan some_name_allowed domain_allowed reputation_add record_legitimate_ip
    policy_envelope_recipients complete_sender_blocklist_removal recipients_normal
    recipient_set_complete visible_sender record_inbound_classification apply_post_decision_updates
    deleted_recipients distinct without normal_values normalized_recipients
    finish_authenticated_only_sender_domain apply_authenticated_only_sender_domain reject_blocked
    apply_sender_blocklist write_policy_response attachment_configured_action
    invalid_mime_configured_action attachment_error_path decide_scan_error evaluate_attachments
    finish_attachment_decision apply_attachments meets_trust_requirement allowed_sender_domain
    prepare_inbound_evidence apply_policy failure_action analysis_failure evaluate collect_commands
    is_internal_message has_command_recipient is_command_administrator reject_email_command
    discard_email_command queue_reply execute_all run_collected run_lines command_refusal
    handle_email_command record_bypass finish_bypassed_message finish_internal_message
    verify_authentication_with_progress finish_evaluated finish_inbound finish_inspected
    finish_external finish_message
kept = refl

finish_message-sent_answers_example : sent_answers (finish_message policy session conn).0.events ≡ 1
finish_message-sent_answers_example = finish_message-sent_answers policy session conn kept

ran : all_events (λ e. not (is_executed e)) (finish_message policy by_admin conn).0.events ≡ false
unfolding bytes_eq contains to_lower is_continuation rune_rest valid_from to_valid_utf8 put_u32
    add_header_response delete_header_response delete_recipient_response write_all write_frame clean
    double_percents rune_end truncate_utf8 odd_percents trim_percent reply_text reply_code
    without_zone unmap canonical_ip and_bits frame_of emit emit_all select_action_for_mode
    response_for_action activity_outcome record_deterministic lower_text count_headers
    header_occurrences from_header_count deletions additions replace_result_headers
    write_classification_headers accepted_action write_accepted_bypass_headers
    accepted_result_headers write_accepted_result_headers has_prefix domain_matches scan_event
    record_scan some_name_allowed domain_allowed reputation_add record_legitimate_ip
    policy_envelope_recipients complete_sender_blocklist_removal recipients_normal
    recipient_set_complete visible_sender record_inbound_classification apply_post_decision_updates
    deleted_recipients distinct without normal_values normalized_recipients
    finish_authenticated_only_sender_domain apply_authenticated_only_sender_domain reject_blocked
    apply_sender_blocklist write_policy_response attachment_configured_action
    invalid_mime_configured_action attachment_error_path decide_scan_error evaluate_attachments
    finish_attachment_decision apply_attachments meets_trust_requirement allowed_sender_domain
    prepare_inbound_evidence apply_policy failure_action analysis_failure evaluate collect_commands
    is_internal_message has_command_recipient is_command_administrator reject_email_command
    discard_email_command queue_reply execute_all run_collected run_lines command_refusal
    handle_email_command record_bypass finish_bypassed_message finish_internal_message
    verify_authentication_with_progress finish_evaluated finish_inbound finish_inspected
    finish_external finish_message all_events
ran = refl

finish_message-executed_example :
    (by_admin.authentication.authenticated ≡ true)
    × ((length by_admin.envelope_recipients == 1) ≡ true)
    × (by_admin.envelope_recipients_truncated ≡ false)
    × (has_command_recipient policy by_admin by_admin.envelope_recipients ≡ true)
    × ((is_command_administrator policy by_admin
            (policy.host.trim_space by_admin.authentication.identity)
            policy.administrators
          || policy.allow_authenticated_users)
        ≡ true)
finish_message-executed_example = finish_message-executed policy by_admin conn ran

finish_message-answers_example :
    ((finish_message policy session conn).1 ≡ true)
    × (sent_answers (finish_message policy session conn).0.events ≡ 1)
finish_message-answers_example =
    finish_message-answers policy session conn refl refl (λ e. refl) refl

-- An accepted message that claims a score.
abbrev accepting : Policy
accepting = record policy { analyze = λ s e. record run { decided = none } }

marked : adds_header (finish_message accepting session conn).0.events ≡ true
unfolding bytes_eq contains to_lower is_continuation rune_rest valid_from to_valid_utf8 put_u32
    add_header_response delete_header_response delete_recipient_response write_all write_frame clean
    double_percents rune_end truncate_utf8 odd_percents trim_percent reply_text reply_code
    without_zone unmap canonical_ip and_bits frame_of emit emit_all select_action_for_mode
    response_for_action activity_outcome record_deterministic lower_text count_headers
    header_occurrences from_header_count deletions additions replace_result_headers
    write_classification_headers accepted_action write_accepted_bypass_headers
    accepted_result_headers write_accepted_result_headers has_prefix domain_matches scan_event
    record_scan some_name_allowed domain_allowed reputation_add record_legitimate_ip
    policy_envelope_recipients complete_sender_blocklist_removal recipients_normal
    recipient_set_complete visible_sender record_inbound_classification apply_post_decision_updates
    deleted_recipients distinct without normal_values normalized_recipients
    finish_authenticated_only_sender_domain apply_authenticated_only_sender_domain reject_blocked
    apply_sender_blocklist write_policy_response attachment_configured_action
    invalid_mime_configured_action attachment_error_path decide_scan_error evaluate_attachments
    finish_attachment_decision apply_attachments meets_trust_requirement allowed_sender_domain
    prepare_inbound_evidence apply_policy failure_action analysis_failure evaluate collect_commands
    is_internal_message has_command_recipient is_command_administrator reject_email_command
    discard_email_command queue_reply execute_all run_collected run_lines command_refusal
    handle_email_command record_bypass finish_bypassed_message finish_internal_message
    verify_authentication_with_progress finish_evaluated finish_inbound finish_inspected
    finish_external finish_message adds_header
marked = refl

finish_message-adds_header_example :
    all_cleared accepting session result_header_names
      (finish_message accepting session conn).0.events
    ≡ true
finish_message-adds_header_example = finish_message-adds_header accepting session conn marked
