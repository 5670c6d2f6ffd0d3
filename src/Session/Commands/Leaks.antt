-- ===== src/Session/Commands/Leaks.antt =====
-- internal/milter/session_protocol.go: what a session holds of the process for its exact message.
pub mod Runs
use milter_guard.Prelude.{
  ℕ, suc, ◌+◌, ◌-◌, Bool, true, false, not, ◌&&◌, ◌||◌, Option, none, some, List, [], ◌∷◌, ◌++◌,
  ◌≡◌, inl, inr, refl, sym, arith, ◌∙◌, if◌then◌else◌, Option-cases, Bool-cases,
}
use milter_guard.Prelude.Bytes.{Bytes}
use milter_guard.Wire.Command.{
  Command, abort, body, connect, macro, end_body, helo, header, mail, end_headers,
  option_negotiation, quit_milter_connection, recipient, transfer, unknown, quit_smtp_connection,
  unsupported, command_of,
}
use milter_guard.Wire.Frame.{Writer}
use milter_guard.Wire.Payload.{parse_header}
use milter_guard.Session.Exact.{
  Storage, memory, file, hybrid, Backing, in_memory, memory_slot, on_file, ExactMessage, Pool,
  new_file, new_exact_message, write_file, append_exact, add_exact_header, add_exact_body,
  end_exact_headers, close_exact,
}
use milter_guard.Session.State.{
  Phase, negotiation, connection, envelope, body_phase, header_call, body_call, no_authentication,
  Session, Host,
}
use milter_guard.Session.Handlers.{
  send, close_exact_message, open_exact_message, cleared, reset_message, capture_exact, negotiate,
  collect_senders, note_domain, note_from, add_header, capture_hostname, capture_receiver,
  capture_authentication, capture_session_macros, is_negotiation,
}
use milter_guard.Session.Commands.{
  take_body, note_sender, note_recipient, before_negotiation, quit_smtp, handle_connect,
  handle_helo, handle_mail, handle_recipient, handle_end_headers, handle_body, finish_message,
  handle_end_body, dispatch, handle_command, new_session, run_frames,
}

-- The slot and the file of an exact message that is open.
slot_of : ExactMessage → ℕ
slot_of m = if m.closed then 0 else elim m.backing [ in_memory ↦ 0 | memory_slot ↦ 1 | on_file ↦ 0 ]

file_of : ExactMessage → ℕ
file_of m = if m.closed then 0 else elim m.backing [ in_memory ↦ 0 | memory_slot ↦ 0 | on_file ↦ 1 ]

pub slots_held : Option ExactMessage → ℕ
slots_held none = 0
slots_held (some m) = slot_of m

pub files_held : Option ExactMessage → ℕ
files_held none = 0
files_held (some m) = file_of m

-- The pool with an exact message is what it is without it, and what the message holds.
abbrev pub Holds : ℕ → ℕ → Option ExactMessage → Pool → Type 0
Holds taken files o p = (p.taken ≡ taken + slots_held o) × (p.files ≡ files + files_held o)

-- A session holds what its exact message does, above what the other sessions hold.
abbrev pub Balanced : ℕ → ℕ → Session → Type 0
Balanced taken files s = Holds taken files s.exact_message s.pool

new_exact_message-Holds :
    (storage : Storage) (max taken files : ℕ) (p : Pool)
    → Holds taken files none p
    → Holds taken files (new_exact_message storage max p).0 (new_exact_message storage max p).1
unfolding new_exact_message new_file slots_held files_held slot_of file_of
new_exact_message-Holds memory max taken files p = ground arith
new_exact_message-Holds file max taken files p = ground arith
new_exact_message-Holds hybrid max taken files p = ground arith

close_exact-Holds :
    (taken files : ℕ) (m : ExactMessage) (p : Pool)
    → Holds taken files (some m) p
    → Holds taken files none (close_exact m p).1
unfolding close_exact slots_held files_held slot_of file_of
close_exact-Holds taken files m p = ground arith

-- Appending to a store leaves what it holds.
append_exact-keeps :
    (payload : Bytes) (m : ExactMessage)
    → ((append_exact payload m).0.closed ≡ m.closed)
      × ((append_exact payload m).0.backing ≡ m.backing)
unfolding append_exact write_file
append_exact-keeps payload m = ground arith

abbrev Keeps : (ExactMessage → ExactMessage × Bool) → Type 0
Keeps write =
    (m : ExactMessage) → ((write m).0.closed ≡ m.closed) × ((write m).0.backing ≡ m.backing)

pub Keeps-header : (name value : Bytes) → Keeps (add_exact_header name value)
unfolding add_exact_header
Keeps-header name value m = append_exact-keeps _ m

pub Keeps-end : Keeps end_exact_headers
unfolding end_exact_headers
Keeps-end m = append_exact-keeps _ m

pub Keeps-body : (payload : Bytes) → Keeps (add_exact_body payload)
unfolding add_exact_body
Keeps-body payload m = append_exact-keeps payload m

-- The exact message and the pool are the same in two sessions.
abbrev pub SameExact : Session → Session → Type 0
SameExact s t = (t.exact_message ≡ s.exact_message) × (t.pool ≡ s.pool)

collect_senders-SameExact :
    (senders : List Bytes) (s : Session) → SameExact s (collect_senders senders s)
unfolding collect_senders
collect_senders-SameExact [] s = (refl, refl)
collect_senders-SameExact (x ∷ xs) s = ground (
  arith,
  collect_senders-SameExact xs s,
  collect_senders-SameExact xs
      (record s { sender_blocklist_from = s.sender_blocklist_from ++ x ∷ [] }),
)

domain-SameExact : (h : Host) (value : Bytes) (s : Session) → SameExact s (note_domain h value s)
domain-SameExact h value s = ground arith

pub note_from-SameExact :
    (h : Host) (name value : Bytes) (s : Session) → SameExact s (note_from h name value s)
unfolding note_from
note_from-SameExact h name value s = ground (
  arith,
  collect_senders-SameExact (h.from_mailboxes value) (note_domain h value s),
  domain-SameExact h value s,
)

pub macros-SameExact :
    (h : Host) (payload : Bytes) (s : Session) → SameExact s (capture_session_macros h payload s)
unfolding capture_session_macros capture_hostname capture_receiver capture_authentication
macros-SameExact h payload s = ground arith

pub recipient-SameExact : (payload : Bytes) (s : Session) → SameExact s (note_recipient payload s)
recipient-SameExact payload s = ground arith

pub sender-SameExact : (payload : Bytes) (s : Session) → SameExact s (note_sender payload s)
sender-SameExact payload s = ground arith

module _ (taken files : ℕ) where
  pub SameExact-Balanced :
      (s t : Session) → SameExact s t → Balanced taken files s → Balanced taken files t
  SameExact-Balanced s t (e, f) b = rw (e, f) b

  pub close_exact_message-Balanced :
      (s : Session)
      → Balanced taken files s
      → Holds taken files none (close_exact_message s).pool
        × ((close_exact_message s).exact_message ≡ none)
  unfolding close_exact_message slots_held files_held slot_of file_of
  close_exact_message-Balanced s b = elim (Option-cases s.exact_message) [
    | inl e ↦ ground (arith, e)
    | inr (m, e) ↦ ground (arith, e, close_exact-Holds taken files m s.pool)
  ]

  open_exact_message-Balanced :
      (h : Host) (s : Session)
      → s.exact_message ≡ none
      → Holds taken files none s.pool
      → Balanced taken files (open_exact_message h s)
  unfolding open_exact_message slots_held files_held
  open_exact_message-Balanced h s e b =
      ground (arith, e, new_exact_message-Holds h.storage h.max_message_size taken files s.pool)

  pub reset_message-Balanced :
      (h : Host) (p : Phase) (s : Session)
      → Balanced taken files s
      → Balanced taken files (reset_message h p s)
  unfolding reset_message
  reset_message-Balanced h p s b =
      let (closed, e) = close_exact_message-Balanced s b in
      open_exact_message-Balanced h (cleared p (close_exact_message s)) e closed

  pub capture_exact-Balanced :
      (write : ExactMessage → ExactMessage × Bool) (s : Session)
      → Keeps write
      → Balanced taken files s
      → Balanced taken files (capture_exact write s)
  unfolding capture_exact slots_held files_held slot_of file_of
  capture_exact-Balanced write s k b = elim (Option-cases s.exact_message) [
    | inl e ↦ ground (arith, e)
    | inr (m, e) ↦ ground (arith, e, k m)
  ]
