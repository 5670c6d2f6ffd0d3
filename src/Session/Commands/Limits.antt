-- ===== src/Session/Commands/Limits.antt =====
-- internal/milter/session_protocol.go: the limits on what a session collects of a message.
use milter_guard.Prelude.{
  ◌≤◌, Bool, List, [], ◌∷◌, ◌++◌, ◌≡◌, inl, inr, refl, arith, length, length-append, Option-cases,
}
use milter_guard.Prelude.Bytes.{Bytes}
use milter_guard.Wire.Command.{
  Command, abort, body, connect, macro, end_body, helo, header, mail, end_headers,
  option_negotiation, quit_milter_connection, recipient, transfer, unknown, quit_smtp_connection,
  unsupported,
}
use milter_guard.Wire.Frame.{Writer}
use milter_guard.Wire.Payload.{parse_header, parse_envelope_address}
use milter_guard.Session.Exact.{
  ExactMessage, Pool, add_exact_header, add_exact_body, end_exact_headers,
}
use milter_guard.Session.State.{
  Phase, negotiation, connection, envelope, body_phase, header_call, body_call, Session, Host,
}
use milter_guard.Session.Handlers.{
  max_sender_block_addresses, send, close_exact_message, open_exact_message, cleared, reset_message,
  capture_exact, negotiate, collect_senders, note_domain, note_from, add_header, capture_hostname,
  capture_receiver, capture_authentication, capture_session_macros,
}
use milter_guard.Session.Commands.{
  max_envelope_recipients, take_body, note_sender, note_recipient, quit_smtp, handle_connect,
  handle_helo, handle_mail, handle_recipient, handle_end_headers, handle_body, finish_message,
  handle_end_body, dispatch, handle_command, blank_session, new_session,
}
use milter_guard.Session.Commands.Reach.{Reaches, stays, goes_on}

abbrev IsLimited : Session → Type 0
IsLimited s =
    (length s.envelope_recipients ≤ max_envelope_recipients)
    × (length s.sender_blocklist_from ≤ max_sender_block_addresses)

-- The collections are the same in two sessions.
abbrev SameLists : Session → Session → Type 0
SameLists s t =
    (t.envelope_recipients ≡ s.envelope_recipients)
    × (t.sender_blocklist_from ≡ s.sender_blocklist_from)

open_exact_message-SameLists : (h : Host) (s : Session) → SameLists s (open_exact_message h s)
unfolding open_exact_message
open_exact_message-SameLists h s = ground arith

reset_message-empty :
    (h : Host) (p : Phase) (s : Session)
    → ((reset_message h p s).envelope_recipients ≡ [])
      × ((reset_message h p s).sender_blocklist_from ≡ [])
unfolding reset_message
reset_message-empty h p s = open_exact_message-SameLists h (cleared p (close_exact_message s))

reset_message-IsLimited : (h : Host) (p : Phase) (s : Session) → IsLimited (reset_message h p s)
reset_message-IsLimited h p s =
    let (r, f) = reset_message-empty h p s in rw (r, f) (omega arith, omega arith)

capture_exact-SameLists :
    (write : ExactMessage → ExactMessage × Bool) (s : Session) → SameLists s (capture_exact write s)
unfolding capture_exact
capture_exact-SameLists write s = ground arith

collect_senders-le :
    (senders : List Bytes) (s : Session)
    → length s.sender_blocklist_from ≤ max_sender_block_addresses
    → length (collect_senders senders s).sender_blocklist_from ≤ max_sender_block_addresses
unfolding collect_senders
collect_senders-le [] s b = b
collect_senders-le (x ∷ xs) s b = ground (
  arith,
  b,
  length-append s.sender_blocklist_from (x ∷ []),
  collect_senders-le xs s,
  collect_senders-le xs (record s { sender_blocklist_from = s.sender_blocklist_from ++ x ∷ [] }),
)

collect_senders-recipients :
    (senders : List Bytes) (s : Session)
    → (collect_senders senders s).envelope_recipients ≡ s.envelope_recipients
unfolding collect_senders
collect_senders-recipients [] s = refl
collect_senders-recipients (x ∷ xs) s = ground (
  arith,
  collect_senders-recipients xs s,
  collect_senders-recipients xs
      (record s { sender_blocklist_from = s.sender_blocklist_from ++ x ∷ [] }),
)

domain-SameLists : (h : Host) (value : Bytes) (s : Session) → SameLists s (note_domain h value s)
domain-SameLists h value s = ground arith

note_from-IsLimited :
    (h : Host) (name value : Bytes) (s : Session)
    → IsLimited s
    → IsLimited (note_from h name value s)
unfolding note_from
note_from-IsLimited h name value s b =
    let s₁ : Session = note_domain h value s in
    ground (
      arith,
      b,
      domain-SameLists h value s,
      collect_senders-le (h.from_mailboxes value) s₁,
      collect_senders-recipients (h.from_mailboxes value) s₁,
    )

header-IsLimited :
    (h : Host) (payload : Bytes) (s : Session) → IsLimited s → IsLimited (add_header h payload s).0
unfolding add_header send
header-IsLimited h payload s b = elim (Option-cases (parse_header payload)) [
  | inl e ↦ ground (arith, e, b)
  | inr ((name, value), e) ↦
      let s₁ : Session = note_from h name value s in
      ground (
        arith,
        e,
        b,
        note_from-IsLimited h name value s b,
        capture_exact-SameLists (add_exact_header name value)
            (record s₁ { message = s₁.message ++ header_call name value ∷ [] }),
      )
]

note_recipient-IsLimited :
    (payload : Bytes) (s : Session) → IsLimited s → IsLimited (note_recipient payload s)
note_recipient-IsLimited payload s b = elim (Option-cases (parse_envelope_address payload)) [
  | inl e ↦ ground (arith, e, b)
  | inr (address, e) ↦ ground (arith, e, b, length-append s.envelope_recipients (address ∷ []))
]

recipient-IsLimited :
    (payload : Bytes) (s : Session) → IsLimited s → IsLimited (handle_recipient payload s).0
unfolding handle_recipient send
recipient-IsLimited payload s b = ground (arith, b, note_recipient-IsLimited payload s b)

macros-SameLists :
    (h : Host) (payload : Bytes) (s : Session) → SameLists s (capture_session_macros h payload s)
unfolding capture_session_macros capture_hostname capture_receiver capture_authentication
macros-SameLists h payload s = ground arith

sender-SameLists : (payload : Bytes) (s : Session) → SameLists s (note_sender payload s)
sender-SameLists payload s = ground arith

mail-IsLimited :
    (h : Host) (payload : Bytes) (s : Session) → IsLimited s → IsLimited (handle_mail h payload s).0
unfolding handle_mail send
mail-IsLimited h payload s b = ground (
  arith,
  b,
  reset_message-IsLimited h envelope s,
  sender-SameLists payload (reset_message h envelope s),
)

end_headers-IsLimited : (s : Session) → IsLimited s → IsLimited (handle_end_headers s).0
unfolding handle_end_headers send
end_headers-IsLimited s b =
    ground (arith, b, capture_exact-SameLists end_exact_headers (record s { phase = body_phase }))

take_body-SameLists : (payload : Bytes) (s : Session) → SameLists s (take_body payload s)
take_body-SameLists payload s =
    capture_exact-SameLists (add_exact_body payload)
      (record s { message = s.message ++ body_call payload ∷ [] })

body-IsLimited : (payload : Bytes) (s : Session) → IsLimited s → IsLimited (handle_body payload s).0
unfolding handle_body send
body-IsLimited payload s b = ground (arith, b, take_body-SameLists payload s)

finish_message-IsLimited : (h : Host) (s : Session) → IsLimited s → IsLimited (finish_message h s).0
unfolding finish_message
finish_message-IsLimited h s b =
    ground (arith, b, reset_message-IsLimited h connection (record s { conn = (h.finish s).0 }))

end_body-IsLimited :
    (h : Host) (payload : Bytes) (s : Session)
    → IsLimited s
    → IsLimited (handle_end_body h payload s).0
unfolding handle_end_body
end_body-IsLimited h payload s b =
    let same = take_body-SameLists payload s in
    ground (
      arith,
      b,
      same,
      finish_message-IsLimited h s b,
      finish_message-IsLimited h (take_body payload s),
    )

dispatch-IsLimited :
    (h : Host) (k : Command) (payload : Bytes) (s : Session)
    → IsLimited s
    → IsLimited (dispatch h k payload s).0
unfolding dispatch send negotiate handle_connect handle_helo quit_smtp
dispatch-IsLimited h option_negotiation payload s b = ground (arith, b)
dispatch-IsLimited h macro payload s b = ground (arith, b, macros-SameLists h payload s)
dispatch-IsLimited h abort payload s b = reset_message-IsLimited h connection s
dispatch-IsLimited h quit_smtp_connection payload s b = reset_message-IsLimited h connection _
dispatch-IsLimited h connect payload s b = ground (arith, b)
dispatch-IsLimited h helo payload s b = ground (arith, b)
dispatch-IsLimited h mail payload s b = mail-IsLimited h payload s b
dispatch-IsLimited h recipient payload s b = recipient-IsLimited payload s b
dispatch-IsLimited h transfer payload s b = ground (arith, b)
dispatch-IsLimited h unknown payload s b = b
dispatch-IsLimited h header payload s b = header-IsLimited h payload s b
dispatch-IsLimited h end_headers payload s b = end_headers-IsLimited s b
dispatch-IsLimited h body payload s b = body-IsLimited payload s b
dispatch-IsLimited h end_body payload s b = end_body-IsLimited h payload s b
dispatch-IsLimited h quit_milter_connection payload s b = b
dispatch-IsLimited h (unsupported c) payload s b = b

keeps_limits : (h : Host) (s t : Session) → Reaches h s t → IsLimited s → IsLimited t
unfolding handle_command
keeps_limits h s _ (stays _) b = b
keeps_limits h s _ (goes_on _ t k payload r kept) b =
    let before = keeps_limits h s t r b in
    ground (arith, before, dispatch-IsLimited h k payload t before)

-- In every session that goes on from a new one, at most a hundred recipients and at most a hundred
-- From addresses are kept, whatever the frames hold.
pub Reaches-IsLimited :
    (h : Host) (conn : Writer) (pool : Pool) (t : Session)
    → Reaches h (new_session h conn pool) t
    → (length t.envelope_recipients ≤ max_envelope_recipients)
      × (length t.sender_blocklist_from ≤ max_sender_block_addresses)
unfolding new_session
Reaches-IsLimited h conn pool t r =
    keeps_limits h (new_session h conn pool) t r
      (reset_message-IsLimited h negotiation (blank_session conn pool))
