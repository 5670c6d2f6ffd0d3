-- ===== src/Policy/Attachments.antt =====
-- internal/milter/attachment_policy.go: the attachments of a message. The scanner is a parameter.
use milter_guard.Prelude.{
  Bool, true, false, ◌&&◌, not, Option, none, some, [], ◌∷◌, ◌++◌, if◌then◌else◌,
}
use milter_guard.Prelude.Bytes.{Bytes, codes, bytes_eq}
use milter_guard.Session.State.{Session, Host}
use milter_guard.Policy.State.{
  Action, action_accept, action_reject, action_tempfail, is_reject, is_accept,
  event_attachment_rejection, ScanError, clean_scan, finding, scan_error, recorded_rejection,
  Ending, Policy, note, emit, on_success, select_action_for_mode, response_for_action,
  record_deterministic,
}
use milter_guard.Policy.Headers.{
  classification_header, confidence_header, action_header, policy_header, accept_mode_action,
  is_blank, replace_result_headers, write_classification_headers, write_accepted_bypass_headers,
}
use milter_guard.Policy.Updates.{reputation_add, complete_sender_blocklist_removal}
use milter_guard.Policy.Senders.{write_policy_response}

-- An `attachmentPolicyResult` that is handled and not cancelled.
pub record AttachmentDecision : Type 0 where
  pub ip_strike : Bool
  pub proposed : Action
  pub path : Bytes
  pub detection : Bytes
  pub failed : Bool
  pub reject_message : Bytes

-- A result: not handled, cancelled, or handled.
pub data AttachmentResult : Type 0 where
  unhandled cancelled : AttachmentResult
  decided : AttachmentDecision → AttachmentResult

abbrev pub invalid_mime_reject_message : Bytes
invalid_mime_reject_message =
    codes "Message rejected because it has an invalid MIME structure and cannot be safely inspected"

unfoldable pub attachment_configured_action : Bytes → Action
attachment_configured_action value =
    if bytes_eq value (codes "reject")
    then action_reject
    else if bytes_eq value (codes "tempfail")
    then action_tempfail
    else action_accept

unfoldable pub invalid_mime_configured_action : Bytes → Action
invalid_mime_configured_action value =
    if bytes_eq value (codes "accept") then action_accept else action_reject

unfoldable pub attachment_error_path : Host → ScanError → Bytes
attachment_error_path h e = elim e.path [
  | none ↦ codes "message"
  | some path ↦ if is_blank (h.trim_space path) then codes "message" else path
]

abbrev pub invalid_mime : Policy → Bytes → AttachmentDecision
invalid_mime c path = record {
  ip_strike = false;
  proposed = invalid_mime_configured_action c.invalid_mime_action;
  path = path;
  detection = codes "invalid MIME structure";
  failed = true;
  reject_message = invalid_mime_reject_message;
}

unfoldable pub decide_scan_error : Policy → ScanError → AttachmentDecision
decide_scan_error c e =
    if e.malformed then invalid_mime c (attachment_error_path c.host e) else record {
      ip_strike = false;
      proposed =
          attachment_configured_action
            (if e.encrypted then c.encrypted_archive_action else c.unscannable_action);
      path = attachment_error_path c.host e;
      detection = codes "attachment inspection incomplete";
      failed = true;
      reject_message = [];
    }

-- The error of a body that was cut is of no type.
abbrev pub truncated_error : ScanError
truncated_error = record { malformed = false; encrypted = false; path = none }

abbrev pub found_attachment : Bytes → Bytes → AttachmentDecision
found_attachment path detection = record {
  ip_strike = true;
  proposed = action_reject;
  path = path;
  detection = detection;
  failed = false;
  reject_message = [];
}

unfoldable pub evaluate_attachments : Policy → Session → AttachmentResult
evaluate_attachments c s =
    if not c.has_scanner
    then unhandled
    else if c.mime_headers_truncated s.message
    then decided (invalid_mime c (codes "message"))
    else if not c.has_scan_slot
    then cancelled
    else elim (c.scan s.message) [
      | finding path detection ↦ decided (found_attachment path detection)
      | clean_scan ↦
          if c.body_truncated s.message
          then decided (decide_scan_error c truncated_error)
          else unhandled
      | scan_error e ↦ decided (decide_scan_error c e)
    ]

module _ (c : Policy) (s : Session) where
  abbrev pub attachment_headers : AttachmentDecision → Ending → Ending × Bool
  attachment_headers d m =
      if not (is_accept d.proposed) && c.add_email_headers
      then (if d.failed
          then write_classification_headers c s (codes "unavailable") accept_mode_action m
          else replace_result_headers c s
              ((classification_header, codes "not-scanned")
                ∷ (confidence_header, codes "unavailable")
                ∷ (action_header, accept_mode_action)
                ∷ (policy_header, codes "prohibited-attachment")
                ∷ [])
              m)
      else write_accepted_bypass_headers c s m

  abbrev pub attachment_answer : AttachmentDecision → Action → Bytes → Ending → Ending × Bool
  attachment_answer d selected message m =
      if is_accept selected
      then on_success (attachment_headers d m) (write_policy_response c s selected message)
      else emit (response_for_action selected message) m

  abbrev pub attachment_reason : AttachmentDecision → Bytes
  attachment_reason d =
      if is_blank d.path then d.detection else d.detection ++ (codes ": " ++ d.path)

  abbrev pub attachment_updates : Bytes → AttachmentDecision → Ending → Ending
  attachment_updates sender d m =
      let recorded =
        note
          (recorded_rejection sender s.envelope_sender s.envelope_recipients
            (attachment_reason d ∷ []) (codes "attachment_policy"))
          m in
      if d.ip_strike && c.add_ip_reputation_strike && not s.authentication.authenticated
      then reputation_add c s recorded
      else recorded

  abbrev pub attachment_answered :
      Bytes → AttachmentDecision → Action → Ending × Bool → Ending × Bool
  attachment_answered sender d selected (m, sent) =
      let noted_m =
        if is_reject selected
        then record_deterministic event_attachment_rejection selected sent m
        else m in
      if not sent
      then (noted_m, false)
      else if is_accept selected
      then (complete_sender_blocklist_removal c s noted_m, true)
      else if is_reject selected
      then (attachment_updates sender d noted_m, true)
      else (noted_m, true)

  unfoldable pub finish_attachment_decision : Bytes → AttachmentDecision → Ending → Ending × Bool
  finish_attachment_decision sender d m =
      let selected = select_action_for_mode d.proposed c in
      let message =
        if is_blank d.reject_message then c.attachment_reject_message else d.reject_message in
      attachment_answered sender d selected (attachment_answer d selected message m)

  unfoldable pub apply_attachments : Bytes → Ending → Ending × Option Bool
  apply_attachments sender m = elim (evaluate_attachments c s) [
    | unhandled ↦ (m, none)
    | cancelled ↦ (m, some false)
    | decided d ↦
        let (m', kept) = finish_attachment_decision sender d m in
        if d.failed && is_accept d.proposed then (m, none) else (m', some kept)
  ]
