-- ===== src/Session/Handlers/Frames.antt =====
-- internal/milter/session_protocol.go and session_identity.go: what the called code leaves alone.
use milter_guard.Prelude.{Bool, List, [], ◌∷◌, ◌++◌, ◌≡◌, refl, arith}
use milter_guard.Prelude.Bytes.{Bytes}
use milter_guard.Session.Exact.{ExactMessage}
use milter_guard.Session.State.{Phase, Session, Host}
use milter_guard.Session.Handlers.{
  cleared, note_domain, close_exact_message, open_exact_message, reset_message, capture_exact,
  collect_senders, note_from, capture_hostname, capture_receiver, capture_authentication,
  capture_session_macros,
}

-- The phase and the connection are the same in two sessions.
abbrev pub SameStage : Session → Session → Type 0
SameStage s t = (t.phase ≡ s.phase) × (t.connected ≡ s.connected)

pub close_exact_message-SameStage : (s : Session) → SameStage s (close_exact_message s)
unfolding close_exact_message
close_exact_message-SameStage s = ground arith

open_exact_message-SameStage : (h : Host) (s : Session) → SameStage s (open_exact_message h s)
unfolding open_exact_message
open_exact_message-SameStage h s = ground arith

pub reset_message-stage :
    (h : Host) (p : Phase) (s : Session)
    → ((reset_message h p s).phase ≡ p) × ((reset_message h p s).connected ≡ s.connected)
unfolding reset_message
reset_message-stage h p s = ground (
  arith,
  open_exact_message-SameStage h (cleared p (close_exact_message s)),
  close_exact_message-SameStage s,
)

pub capture_exact-SameStage :
    (write : ExactMessage → ExactMessage × Bool) (s : Session) → SameStage s (capture_exact write s)
unfolding capture_exact
capture_exact-SameStage write s = ground arith

collect_senders-SameStage :
    (senders : List Bytes) (s : Session) → SameStage s (collect_senders senders s)
unfolding collect_senders
collect_senders-SameStage [] s = (refl, refl)
collect_senders-SameStage (x ∷ xs) s = ground (
  arith,
  collect_senders-SameStage xs s,
  collect_senders-SameStage xs
      (record s { sender_blocklist_from = s.sender_blocklist_from ++ x ∷ [] }),
)

domain-SameStage : (h : Host) (value : Bytes) (s : Session) → SameStage s (note_domain h value s)
domain-SameStage h value s = ground arith

pub note_from-SameStage :
    (h : Host) (name value : Bytes) (s : Session) → SameStage s (note_from h name value s)
unfolding note_from
note_from-SameStage h name value s = ground (
  arith,
  collect_senders-SameStage (h.from_mailboxes value) (note_domain h value s),
  domain-SameStage h value s,
)

pub capture_session_macros-SameStage :
    (h : Host) (payload : Bytes) (s : Session) → SameStage s (capture_session_macros h payload s)
unfolding capture_session_macros capture_hostname capture_receiver capture_authentication
capture_session_macros-SameStage h payload s = ground arith
