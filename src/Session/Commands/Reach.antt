-- ===== src/Session/Commands/Reach.antt =====
-- internal/milter/session_protocol.go: the states of a session that goes on.
use milter_guard.Prelude.{Bool, true, not, ◌||◌, ◌≡◌, refl, arith}
use milter_guard.Prelude.Bytes.{Bytes}
use milter_guard.Wire.Command.{Command}
use milter_guard.Wire.Frame.{Writer}
use milter_guard.Session.Exact.{Pool}
use milter_guard.Session.State.{Phase, negotiation, Session, Host}
use milter_guard.Session.Handlers.{is_envelope}
use milter_guard.Session.Handlers.Frames.{reset_message-stage}
use milter_guard.Session.Commands.{is_body, handle_command, blank_session, new_session}
use milter_guard.Session.Commands.Order.{
  Moves, negotiates, macros, aborts, quits, connects, greets, begins, refuses, adds_recipient,
  starts_data, adds_header, passes_over, ends_headers, adds_body, ends_body, handle_command-Moves,
}

-- A session and one that it becomes by commands that it goes on after.
pub data Reaches (h : Host) : Session → Session → Type 0 where
  stays : (s : Session) → Reaches h s s
  goes_on :
      (s t : Session) (k : Command) (payload : Bytes)
      → Reaches h s t
      → (handle_command h k payload t).1 ≡ true
      → Reaches h s (handle_command h k payload t).0

-- A stage in which a message is read, only with an SMTP connection.
abbrev connected_in_message : Phase → Bool → Bool
connected_in_message p c = not (is_envelope p || is_body p) || c

Moves-connected :
    (k : Command) (p p' : Phase) (c c' : Bool)
    → Moves k p c p' c'
    → connected_in_message p c ≡ true
    → connected_in_message p' c' ≡ true
Moves-connected k p p' c c' (negotiates _) h = refl
Moves-connected k p p' c c' (macros _ _) h = h
Moves-connected k p p' c c' (aborts _ _ _) h = refl
Moves-connected k p p' c c' (quits _ _ _) h = refl
Moves-connected k p p' c c' connects h = refl
Moves-connected k p p' c c' greets h = refl
Moves-connected k p p' c c' begins h = refl
Moves-connected k p p' c c' refuses h = refl
Moves-connected k p p' c c' (adds_recipient _) h = h
Moves-connected k p p' c c' (starts_data _) h = h
Moves-connected k p p' c c' (adds_header _) h = h
Moves-connected k p p' c c' (passes_over _ _ _) h = h
Moves-connected k p p' c c' (ends_headers _) h = h
Moves-connected k p p' c c' (adds_body _) h = h
Moves-connected k p p' c c' (ends_body _) h = refl

Reaches-stage :
    (h : Host) (s t : Session)
    → Reaches h s t
    → connected_in_message s.phase s.connected ≡ true
    → connected_in_message t.phase t.connected ≡ true
Reaches-stage h s _ (stays _) i = i
Reaches-stage h s _ (goes_on _ t k payload r kept) i =
    let t' : Session = (handle_command h k payload t).0 in
    Moves-connected k t.phase t'.phase t.connected t'.connected
      (handle_command-Moves h k payload t kept) (Reaches-stage h s t r i)

-- In every session that goes on from a new one: headers, recipients or a body are read only while an
-- SMTP connection is there.
pub Reaches-connected :
    (h : Host) (conn : Writer) (pool : Pool) (t : Session)
    → Reaches h (new_session h conn pool) t
    → (is_envelope t.phase || is_body t.phase) ≡ true
    → t.connected ≡ true
unfolding new_session
Reaches-connected h conn pool t r reads =
    let (p, c) = reset_message-stage h negotiation (blank_session conn pool) in
    ground (arith, reads, Reaches-stage h (new_session h conn pool) t r (rw p refl))
