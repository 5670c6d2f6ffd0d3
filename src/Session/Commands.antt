-- ===== src/Session/Commands.antt =====
-- internal/milter/session_protocol.go: `handleCommand` by the command, and `run` over the frames.
pub mod Stages
pub mod Order
pub mod Leaks
pub mod Reach
pub mod Limits
use milter_guard.Prelude.{
  ℕ, zero, suc, ◌+◌, Bool, true, false, ◌&&◌, ◌||◌, not, Option, none, some, List, [], ◌∷◌, ◌++◌,
  ltb, if◌then◌else◌, length,
}
use milter_guard.Prelude.Bytes.{Bytes}
use milter_guard.Wire.Command.{
  Command, abort, body, connect, macro, end_body, helo, header, mail, end_headers,
  option_negotiation, quit_milter_connection, recipient, transfer, unknown, quit_smtp_connection,
  unsupported, command_of,
}
use milter_guard.Wire.Frame.{Writer, write_frame}
use milter_guard.Wire.Payload.{
  parse_envelope_address, envelope_has_smtp_utf8, parse_connect_hostname, parse_smtp_identity,
}
use milter_guard.Session.Exact.{end_exact_headers, add_exact_body, Pool}
use milter_guard.Session.Address.{parse_connect_ip}
use milter_guard.Session.State.{
  Phase, negotiation, connection, envelope, body_phase, MessageCall, body_call, Session, Host,
  no_authentication,
}
use milter_guard.Session.Handlers.{
  protocol_error, send, send_continue, close_exact_message, reset_message, capture_exact, negotiate,
  add_header, capture_session_macros, is_negotiation, is_envelope,
}

abbrev pub max_envelope_recipients : ℕ
max_envelope_recipients = 100

abbrev pub is_connection : Phase → Bool
is_connection negotiation = false
is_connection connection = true
is_connection envelope = false
is_connection body_phase = false

abbrev pub is_body : Phase → Bool
is_body negotiation = false
is_body connection = false
is_body envelope = false
is_body body_phase = true

-- MACRO is allowed at any point.
abbrev pub before_negotiation : Command → Bool
before_negotiation option_negotiation = true
before_negotiation macro = true
before_negotiation quit_milter_connection = true
before_negotiation _ = false

unfoldable pub quit_smtp : Host → Session → Session × Bool
quit_smtp h s = (
  reset_message h connection (record s {
    connected = false;
    peer_ip = none;
    peer_hostname = [];
    mta_hostname = [];
    pending_mta_hostname = [];
    receiver_ip = none;
    pending_receiver_ip = none;
    helo_identity = [];
    smtp_utf8 = false;
    authentication = no_authentication;
  }),
  true,
)

abbrev cleaned : Host → Option Bytes → Bytes
cleaned h none = []
cleaned h (some value) = h.clean_smtp_identity value

unfoldable pub handle_connect : Host → Bytes → Session → Session × Bool
handle_connect h payload s =
    if not (is_connection s.phase) || s.connected
    then protocol_error s
    else send_continue (record s {
      connected = true;
      mta_hostname = s.pending_mta_hostname;
      pending_mta_hostname = [];
      receiver_ip = s.pending_receiver_ip;
      pending_receiver_ip = none;
      helo_identity = [];
      authentication = no_authentication;
      peer_hostname = cleaned h (parse_connect_hostname payload);
      peer_ip = parse_connect_ip h.parse_addr payload;
    })

unfoldable pub handle_helo : Host → Bytes → Session → Session × Bool
handle_helo h payload s =
    if not (is_connection s.phase) || not s.connected
    then protocol_error s
    else send_continue (record s { helo_identity = cleaned h (parse_smtp_identity payload) })

unfoldable pub contains_non_ascii : Bytes → Bool
contains_non_ascii [] = false
contains_non_ascii (x ∷ xs) = not (ltb x 0x80) || contains_non_ascii xs

abbrev pub note_sender : Bytes → Session → Session
note_sender payload s = elim (parse_envelope_address payload) [
  | none ↦ s
  | some sender ↦ record s {
    envelope_sender = sender;
    smtp_utf8 = contains_non_ascii sender || envelope_has_smtp_utf8 payload;
  }
]

unfoldable pub handle_mail : Host → Bytes → Session → Session × Bool
handle_mail h payload s =
    if not (is_connection s.phase) || not s.connected
    then protocol_error s
    else elim (h.reject_ip s) [
      | none ↦ send_continue (note_sender payload (reset_message h envelope s))
      | some (w, kept) ↦ (record s { conn = w }, kept)
    ]

abbrev pub note_recipient : Bytes → Session → Session
note_recipient payload s = elim (parse_envelope_address payload) [
  | none ↦ record s { envelope_recipients_truncated = true }
  | some address ↦
      if ltb (length s.envelope_recipients) max_envelope_recipients
      then record s { envelope_recipients = s.envelope_recipients ++ address ∷ [] }
      else record s { envelope_recipients_truncated = true }
]

unfoldable pub handle_recipient : Bytes → Session → Session × Bool
handle_recipient payload s =
    if not (is_envelope s.phase) then protocol_error s else send_continue (note_recipient payload s)

unfoldable pub handle_end_headers : Session → Session × Bool
handle_end_headers s =
    if not (is_envelope s.phase)
    then protocol_error s
    else send_continue (capture_exact end_exact_headers (record s { phase = body_phase }))

abbrev pub take_body : Bytes → Session → Session
take_body payload s =
    capture_exact (add_exact_body payload)
      (record s { message = s.message ++ body_call payload ∷ [] })

unfoldable pub handle_body : Bytes → Session → Session × Bool
handle_body payload s =
    if not (is_body s.phase) then protocol_error s else send_continue (take_body payload s)

-- `finishMessage`, by what its answer is.
unfoldable pub finish_message : Host → Session → Session × Bool
finish_message h s =
    let (w, kept) = h.finish s in
    let s' : Session = record s { conn = w } in
    if kept then (reset_message h connection s', true) else (s', false)

unfoldable pub handle_end_body : Host → Bytes → Session → Session × Bool
handle_end_body h payload s =
    if not (is_body s.phase)
    then protocol_error s
    else finish_message h (if ltb 0 (length payload) then take_body payload s else s)

-- `switch command`
unfoldable pub dispatch : Host → Command → Bytes → Session → Session × Bool
dispatch h option_negotiation payload s = negotiate h payload s
dispatch h macro payload s = (capture_session_macros h payload s, true)
dispatch h abort payload s = (reset_message h connection s, true)
dispatch h quit_smtp_connection payload s = quit_smtp h s
dispatch h connect payload s = handle_connect h payload s
dispatch h helo payload s = handle_helo h payload s
dispatch h mail payload s = handle_mail h payload s
dispatch h recipient payload s = handle_recipient payload s
dispatch h transfer payload s =
    if not (is_envelope s.phase) then protocol_error s else send_continue s
dispatch h unknown payload s = send_continue s
dispatch h header payload s = add_header h payload s
dispatch h end_headers payload s = handle_end_headers s
dispatch h body payload s = handle_body payload s
dispatch h end_body payload s = handle_end_body h payload s
dispatch h quit_milter_connection payload s = (s, false)
dispatch h (unsupported b) payload s = protocol_error s

unfoldable pub handle_command : Host → Command → Bytes → Session → Session × Bool
handle_command h command payload s =
    if is_negotiation s.phase && not (before_negotiation command)
    then protocol_error s
    else dispatch h command payload s

abbrev pub blank_session : Writer → Pool → Session
blank_session conn pool = record {
  phase = negotiation;
  connected = false;
  peer_ip = none;
  peer_hostname = [];
  mta_hostname = [];
  pending_mta_hostname = [];
  receiver_ip = none;
  pending_receiver_ip = none;
  helo_identity = [];
  smtp_utf8 = false;
  authentication = no_authentication;
  envelope_sender = [];
  envelope_recipients = [];
  envelope_recipients_truncated = false;
  protected_sender_domain = [];
  message = [];
  exact_message = none;
  exact_failed = false;
  negotiated_actions = 0;
  sender_blocklist_from = [];
  sender_blocklist_from_truncated = false;
  conn = conn;
  pool = pool;
}

-- `newSession`
unfoldable pub new_session : Host → Writer → Pool → Session
new_session h conn pool = reset_message h negotiation (blank_session conn pool)

-- `run` over the frames that are read until reading ends, each with its command byte apart. The
-- deferred close comes last.
unfoldable pub run_frames : Host → List (ℕ × Bytes) → Session → Session
run_frames h [] s = close_exact_message s
run_frames h ((command, payload) ∷ frames) s =
    let (s', kept) = handle_command h (command_of command) payload s in
    let rest = run_frames h frames s' in if kept then rest else close_exact_message s'
