-- ===== src/Session/Handlers.antt =====
-- internal/milter/session_protocol.go and session_identity.go: what the commands of a session call.
pub mod Frames
use milter_guard.Prelude.{
  ℕ, zero, suc, ◌+◌, ◌*◌, ◌/◌, ◌%◌, Bool, true, false, ◌&&◌, ◌||◌, not, Option, none, some, List,
  [], ◌∷◌, ◌++◌, ◌==◌, ltb, if◌then◌else◌, length, take, drop, min,
}
use milter_guard.Prelude.Bytes.{Bytes, codes, bytes_eq, equal_fold}
use milter_guard.Wire.Command.{u32, option_response, continue_response}
use milter_guard.Wire.Frame.{Writer, write_frame}
use milter_guard.Wire.Payload.{parse_header}
use milter_guard.Wire.Macros.{Macros, MacroValues, parse_session_macros}
use milter_guard.Session.Exact.{
  ExactMessage, Pool, new_exact_message, add_exact_header, close_exact,
}
use milter_guard.Session.State.{
  Phase, negotiation, connection, envelope, body_phase, Authentication, MessageCall, header_call,
  Session, Host,
}

abbrev pub max_sender_block_addresses : ℕ
max_sender_block_addresses = 100

abbrev pub is_empty : Bytes → Bool
is_empty [] = true
is_empty (x ∷ xs) = false

-- `ss.protocolError`: the connection ends.
abbrev pub protocol_error : Session → Session × Bool
protocol_error s = (s, false)

unfoldable pub send : Bytes → Session → Session × Bool
send response s = let (w, sent) = write_frame s.conn response in (record s { conn = w }, sent)

abbrev pub send_continue : Session → Session × Bool
send_continue s = send continue_response s

unfoldable pub close_exact_message : Session → Session
close_exact_message s = elim s.exact_message [
  | none ↦ s
  | some m ↦ record s { exact_message = none; pool = (close_exact m s.pool).1 }
]

abbrev pub is_envelope : Phase → Bool
is_envelope negotiation = false
is_envelope connection = false
is_envelope envelope = true
is_envelope body_phase = false

-- The end of `resetMessage`: a message that needs one gets a new exact message.
unfoldable pub open_exact_message : Host → Session → Session
open_exact_message h s =
    if not (is_envelope s.phase) || not h.internal_authentication
    then s
    else if not h.has_factory
    then record s { exact_failed = true }
    else let (opened, p) = new_exact_message h.storage h.max_message_size s.pool in
      elim opened [
        | none ↦ record s { exact_failed = true; pool = p }
        | some m ↦ record s { exact_message = some m; pool = p }
      ]

abbrev pub cleared : Phase → Session → Session
cleared phase s = record s {
  message = [];
  exact_failed = false;
  envelope_sender = [];
  envelope_recipients = [];
  envelope_recipients_truncated = false;
  protected_sender_domain = [];
  sender_blocklist_from = [];
  sender_blocklist_from_truncated = false;
  smtp_utf8 = false;
  phase = phase;
}

unfoldable pub reset_message : Host → Phase → Session → Session
reset_message h phase s = open_exact_message h (cleared phase (close_exact_message s))

unfoldable pub capture_exact : (ExactMessage → ExactMessage × Bool) → Session → Session
capture_exact write s = if s.exact_failed then s else elim s.exact_message [
  | none ↦ s
  | some m ↦
      let (m', written) = write m in
      record s { exact_message = some m'; exact_failed = not written }
]

-- `a & b` on 32 bits.
unfoldable pub and_bits : ℕ → ℕ → ℕ → ℕ
and_bits zero a b = 0
and_bits (suc w) a b = a % 2 * (b % 2) + 2 * and_bits w (a / 2) (b / 2)

-- `resultHeaderActions | actionDeleteRecipient`
abbrev pub wanted_actions : ℕ
wanted_actions = 0x19

abbrev pub is_negotiation : Phase → Bool
is_negotiation negotiation = true
is_negotiation connection = false
is_negotiation envelope = false
is_negotiation body_phase = false

unfoldable pub negotiate : Host → Bytes → Session → Session × Bool
negotiate h payload s =
    if not (is_negotiation s.phase) || not (length payload == 12)
    then protocol_error s
    else if ltb (u32 payload) 2
    then protocol_error s
    else let requested = and_bits 32 (u32 (drop 4 payload)) wanted_actions in
      let (s', sent) =
        send (option_response (min (u32 payload) 6) requested)
          (record s { negotiated_actions = requested }) in
      if sent then (record s' { phase = connection }, true) else (s', false)

abbrev pub among : Bytes → List Bytes → Bool
among x [] = false
among x (y ∷ ys) = bytes_eq y x || among x ys

-- The loop over the mailboxes of a From header.
unfoldable pub collect_senders : List Bytes → Session → Session
collect_senders [] s = s
collect_senders (sender ∷ rest) s =
    if among sender s.sender_blocklist_from
    then collect_senders rest s
    else if not (ltb (length s.sender_blocklist_from) max_sender_block_addresses)
    then record s { sender_blocklist_from_truncated = true }
    else collect_senders rest
        (record s { sender_blocklist_from = s.sender_blocklist_from ++ sender ∷ [] })

abbrev pub note_domain : Host → Bytes → Session → Session
note_domain h value s =
    if is_empty s.protected_sender_domain
    then record s { protected_sender_domain = h.authenticated_only_from value }
    else s

unfoldable pub note_from : Host → Bytes → Bytes → Session → Session
note_from h name value s =
    if equal_fold (h.trim_space name) (codes "From")
    then collect_senders (h.from_mailboxes value) (note_domain h value s)
    else s

unfoldable pub add_header : Host → Bytes → Session → Session × Bool
add_header h payload s =
    if not (is_envelope s.phase) then protocol_error s else elim (parse_header payload) [
      | none ↦ protocol_error s
      | some (name, value) ↦
          let s₁ = note_from h name value s in
          send_continue (
            capture_exact (add_exact_header name value)
              (record s₁ { message = s₁.message ++ header_call name value ∷ [] }))
    ]

-- Of the macros' target bytes: CONNECT, and the ones that carry the authentication.
abbrev pub carries_authentication : ℕ → Bool
carries_authentication target = target == b'M' || target == b'T' || target == b'N' || target == b'E'

unfoldable pub capture_hostname : Host → ℕ → MacroValues → Session → Session
capture_hostname h target v s =
    if not v.mta_hostname_found
    then s
    else if target == b'C'
    then record s { pending_mta_hostname = h.valid_mta_hostname v.mta_hostname }
    else if s.connected
    then record s { mta_hostname = h.valid_mta_hostname v.mta_hostname }
    else s

unfoldable pub capture_receiver : Host → ℕ → MacroValues → Session → Session
capture_receiver h target v s =
    if not v.receiver_address_found
    then s
    else if target == b'C'
    then record s { pending_receiver_ip = h.canonical_macro_ip v.receiver_address }
    else if s.connected
    then record s { receiver_ip = h.canonical_macro_ip v.receiver_address }
    else s

unfoldable pub capture_authentication : Host → ℕ → MacroValues → Session → Session
capture_authentication h target v s =
    if not s.connected || not v.authentication_found || not (carries_authentication target)
    then s
    else let identity = h.clean_smtp_identity v.authentication_identity in
      record s {
        authentication = record { authenticated = not (is_empty identity); identity = identity };
      }

unfoldable pub capture_session_macros : Host → Bytes → Session → Session
capture_session_macros h payload s =
    let m = parse_session_macros payload in
    if not m.valid
    then s
    else capture_authentication h m.target m.values
        (capture_receiver h m.target m.values (capture_hostname h m.target m.values s))
