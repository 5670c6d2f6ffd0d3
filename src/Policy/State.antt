-- ===== src/Policy/State.antt =====
-- internal/milter: what the end of a message reads, what it calls, and what it does, event by event.
use milter_guard.Prelude.{
  ℕ, Bool, true, false, not, Option, none, some, List, [], ◌∷◌, ◌==◌, if◌then◌else◌,
}
use milter_guard.Prelude.Bytes.{Bytes, codes, bytes_eq}
use milter_guard.Wire.Command.{
  progress_response, add_header_response, delete_header_response, delete_recipient_response,
}
use milter_guard.Wire.Reply.{reply_code}
use milter_guard.Wire.Frame.{Writer, write_frame}
use milter_guard.Session.Address.{Addr}
use milter_guard.Session.State.{MessageCall, Session, Host}
use milter_guard.Session.Handlers.{and_bits}

-- `action`
pub data Action : Type 0 where
  action_accept action_reject action_tempfail : Action

-- What is written to the MTA at the end of a message; a rejection with its text.
pub data Response : Type 0 where
  progress accepted tempfailed discarded : Response
  rejected : Bytes → Response
  deleted_header : Bytes → Response
  added_header : Bytes → Bytes → Response
  deleted_recipient : Bytes → Response

unfoldable pub frame_of : Response → Bytes
frame_of progress = progress_response
frame_of accepted = b'a' ∷ []
frame_of tempfailed = b't' ∷ []
frame_of discarded = b'd' ∷ []
frame_of (rejected message) = reply_code (codes "550") (codes "5.7.1") message
frame_of (deleted_header name) = delete_header_response name
frame_of (added_header name value) = add_header_response name value
frame_of (deleted_recipient address) = delete_recipient_response address

-- `stores.ActivityEventType` and `stores.ActivityOutcome`
pub data ActivityEvent : Type 0 where
  event_scan event_incomplete_inspection event_html_dos event_html_limit : ActivityEvent
  event_correspondent_accept event_trusted_domain_accept event_attachment_rejection : ActivityEvent
  event_protected_sender_domain_rejection event_sender_blocklist event_ip_rejection : ActivityEvent

pub data ActivityOutcome : Type 0 where
  outcome_accepted outcome_rejected outcome_tempfailed outcome_response_failed : ActivityOutcome

-- A parsed line of a command message, or the error of one.
pub data AdminCommand : Type 0 where
  command_line : Bytes → AdminCommand
  parse_error : Bytes → Bytes → AdminCommand

-- `ai.Classification`, `ai.Score` as the bits of the float, and the reasons.
pub record Decision : Type 0 where
  pub classification : Bytes
  pub score : ℕ
  pub reasons : List Bytes

-- What happens, in order: a response with whether it was sent, and the calls on the repositories,
-- on the command processor and on the queue of replies.
pub data Event : Type 0 where
  responded : Response → Bool → Event
  noted : ActivityEvent → ActivityOutcome → ℕ → Event
  recorded_rejection : Bytes → Bytes → List Bytes → List Bytes → Bytes → Event
  struck : Addr → Event
  credited : Addr → Event
  learned : Bytes → List Bytes → Event
  touched : Bytes → List Bytes → Event
  classified : Bytes → List Bytes → Bytes → ℕ → Bool → Event
  executed : Bool → Bytes → AdminCommand → Event
  queued_reply : Bytes → Event

-- `mailauth.Evidence`: the alignments.
pub record Evidence : Type 0 where
  pub dkim_aligned : Bool
  pub spf_aligned : Bool
  pub dmarc_aligned : Bool

-- `attachment.ScanError`; other errors have no path.
pub record ScanError : Type 0 where
  pub malformed : Bool
  pub encrypted : Bool
  pub path : Option Bytes

pub data AttachmentScan : Type 0 where
  clean_scan : AttachmentScan
  finding : Bytes → Bytes → AttachmentScan
  scan_error : ScanError → AttachmentScan

-- What `messageLines` returns: lines, a processing error, or another error.
pub data Lines : Type 0 where
  read_lines : List Bytes → Lines
  failed_lines : Bytes → Lines
  invalid_lines : Bytes → Lines

-- A run of the authentication worker: the progress ticks before its end, whether it was interrupted,
-- and what the verifier returned, with whether it failed.
pub record Verification : Type 0 where
  pub ticks : ℕ
  pub interrupted : Bool
  pub evidence : Evidence
  pub failed : Bool

-- A run of the analysis worker. `decided` is what the analyzer returned, none for an error.
pub record AnalysisRun : Type 0 where
  pub ticks : ℕ
  pub interrupted : Bool
  pub panicked : Bool
  pub has_slot : Bool
  pub cpu_exceeded : Bool
  pub memory_exceeded : Bool
  pub timed_out : Bool
  pub body_incomplete : Bool
  pub decided : Option Decision

-- `pendingSenderBlocklist`
pub record PendingSenderBlocklist : Type 0 where
  pub blocked_recipients : List Bytes
  pub remaining_recipients : List Bytes
  pub matched_sender : Bytes

-- What changes at the end of a message. The newest event comes first.
pub record Ending : Type 0 where
  pub conn : Writer
  pub pending_sender_blocks : Option PendingSenderBlocklist
  pub events : List Event

-- The configuration, and then the code that is called and that is not modelled: the libraries, the
-- repositories' reads, and the workers.
pub record Policy : Type 0 where
  pub host : Host
  pub mode : Bytes
  pub add_email_headers : Bool
  pub scan_authenticated : Bool
  pub reject_message : Bytes
  pub reject_score : ℕ
  pub low_confidence_score : ℕ
  pub ai_error_action : Bytes
  pub html_resource_limit_action : Bytes
  pub incomplete_body_action : Bytes
  pub sender_domain_allowlist : List Bytes
  pub sender_domain_allowlist_require_authentication : Bool
  pub trust_requirement : Bytes
  pub use_allowlist : Bool
  pub scope : Bytes
  pub recipient_match : Bytes
  pub bypass_ai : Bool
  pub require_authentication_for_bypass : Bool
  pub has_sender_blocklist : Bool
  pub sender_blocklist_reject_message : Bytes
  pub has_scanner : Bool
  pub attachment_reject_message : Bytes
  pub unscannable_action : Bytes
  pub encrypted_archive_action : Bytes
  pub invalid_mime_action : Bytes
  pub add_ip_reputation_strike : Bool
  pub reputation_enabled : Bool
  pub reputation_reject_message : Bytes
  pub domain_allowlist : List Bytes
  pub commands_enabled : Bool
  pub command_recipient : Bytes
  pub administrators : List Bytes
  pub allow_authenticated_users : Bool
  pub verify_sender_via_aliases : Bool
  pub send_replies : Bool
  pub internal_token : Bytes
  pub normalize : Bytes → Bytes
  pub mail_domain : Bytes → Bytes
  pub dns_hostname : Bytes → Bytes
  pub equal_fold_unicode : Bytes → Bytes → Bool
  pub sort_strings : List Bytes → List Bytes
  pub format_score : ℕ → Bytes
  pub score_less : ℕ → ℕ → Bool
  pub retained_header : List MessageCall → Bytes → Bytes
  pub mime_headers_truncated : List MessageCall → Bool
  pub body_truncated : List MessageCall → Bool
  pub address_loopback : Addr → Bool
  pub address_routable : Addr → Bool
  pub ip_allowed : Addr → Bool
  pub active_block : Addr → Bool
  pub reverse_names : Session → Option (List (Bytes × Bool))
  pub match_sender_blocks : List Bytes → List Bytes → Option (List Bytes × Bytes)
  pub match_correspondent : Bytes → List Bytes → Bool × Bool
  pub owned_via_aliases : Bytes → Bytes → Bool
  pub command_lines : List MessageCall → Lines
  pub parse_failure : Bool → Bytes → Bytes → Option Bytes
  pub recognized_line : Bytes → Bool
  pub has_reply_slot : Bool
  pub sets_deadline : Session → Bool
  pub has_scan_slot : Bool
  pub scan : List MessageCall → AttachmentScan
  pub verify : Session → Verification
  pub unavailable_evidence : Evidence → Evidence
  pub analyze : Session → Evidence → AnalysisRun

abbrev pub enforces : Policy → Bool
enforces c = bytes_eq c.mode (codes "enforce")

-- `negotiatedActions & action != 0`
abbrev pub offers : ℕ → Session → Bool
offers action s = not (and_bits 32 s.negotiated_actions action == 0)

abbrev pub note : Event → Ending → Ending
note e m = record m { events = e ∷ m.events }

-- `writeFrame` of a response: the result says whether it was sent.
unfoldable pub emit : Response → Ending → Ending × Bool
emit r m =
    let (w, sent) = write_frame m.conn (frame_of r) in
    (record m { conn = w; events = responded r sent ∷ m.events }, sent)

-- Responses one after the other, up to the first that is not sent.
unfoldable pub emit_all : List Response → Ending → Ending × Bool
emit_all [] m = (m, true)
emit_all (r ∷ rs) m =
    let (m', sent) = emit r m in let rest = emit_all rs m' in if sent then rest else (m', false)

-- The next step under `err == nil`.
abbrev pub on_success : Ending × Bool → (Ending → Ending × Bool) → Ending × Bool
on_success (m, true) next = next m
on_success (m, false) next = (m, false)

-- A policy that has handled the message says whether the connection is kept; otherwise the next runs.
abbrev pub unless_handled : Ending × Option Bool → (Ending → Ending × Bool) → Ending × Bool
unless_handled (m, some kept) next = (m, kept)
unless_handled (m, none) next = next m

unfoldable pub select_action_for_mode : Action → Policy → Action
select_action_for_mode proposed c = if not (enforces c) then action_accept else proposed

unfoldable pub response_for_action : Action → Bytes → Response
response_for_action action_reject message = rejected message
response_for_action action_tempfail message = tempfailed
response_for_action action_accept message = accepted

abbrev pub is_reject : Action → Bool
is_reject action_accept = false
is_reject action_reject = true
is_reject action_tempfail = false

abbrev pub is_accept : Action → Bool
is_accept action_accept = true
is_accept action_reject = false
is_accept action_tempfail = false

unfoldable pub activity_outcome : Action → Bool → ActivityOutcome
activity_outcome selected false = outcome_response_failed
activity_outcome action_accept true = outcome_accepted
activity_outcome action_reject true = outcome_rejected
activity_outcome action_tempfail true = outcome_tempfailed

-- `recordDeterministic`
unfoldable pub record_deterministic : ActivityEvent → Action → Bool → Ending → Ending
record_deterministic e selected sent m = note (noted e (activity_outcome selected sent) 0) m
