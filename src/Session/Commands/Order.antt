-- ===== src/Session/Commands/Order.antt =====
-- internal/milter/session_protocol.go: the order of commands that a session accepts.
use milter_guard.Prelude.{Bool, true, false, not, ◌&&◌, ◌≡◌, inl, inr, refl, arith, ◌∙◌, Bool-cases}
use milter_guard.Prelude.Bytes.{Bytes}
use milter_guard.Wire.Command.{
  Command, abort, body, connect, macro, end_body, helo, header, mail, end_headers,
  option_negotiation, quit_milter_connection, recipient, transfer, unknown, quit_smtp_connection,
  unsupported,
}
use milter_guard.Session.State.{Phase, negotiation, connection, envelope, body_phase, Session, Host}
use milter_guard.Session.Handlers.{send, reset_message, negotiate, add_header, is_negotiation}
use milter_guard.Session.Handlers.Frames.{reset_message-stage, capture_session_macros-SameStage}
use milter_guard.Session.Commands.{
  before_negotiation, handle_connect, handle_helo, handle_mail, handle_recipient,
  handle_end_headers, handle_body, handle_end_body, dispatch, handle_command,
}
use milter_guard.Session.Commands.Stages.{
  Stages, negotiate-Stages, connect-Stages, helo-Stages, recipient-Stages, end_headers-Stages,
  body-Stages, end_body-Stages, header-Stages, mail-stage, quit_smtp-stage, transfer-stage,
}

-- The protocol's state machine: a command in a phase, with an SMTP connection or without, and the
-- phase and the connection after it. There is no move for a command that ends the session.
pub data Moves : Command → Phase → Bool → Phase → Bool → Type 0 where
  negotiates : (c : Bool) → Moves option_negotiation negotiation c connection c
  macros : (p : Phase) (c : Bool) → Moves macro p c p c
  aborts : (p : Phase) (c : Bool) → is_negotiation p ≡ false → Moves abort p c connection c
  quits :
      (p : Phase) (c : Bool)
      → is_negotiation p ≡ false
      → Moves quit_smtp_connection p c connection false
  connects : Moves connect connection false connection true
  greets : Moves helo connection true connection true
  begins : Moves mail connection true envelope true
  refuses : Moves mail connection true connection true
  adds_recipient : (c : Bool) → Moves recipient envelope c envelope c
  starts_data : (c : Bool) → Moves transfer envelope c envelope c
  adds_header : (c : Bool) → Moves header envelope c envelope c
  passes_over : (p : Phase) (c : Bool) → is_negotiation p ≡ false → Moves unknown p c p c
  ends_headers : (c : Bool) → Moves end_headers envelope c body_phase c
  adds_body : (c : Bool) → Moves body body_phase c body_phase c
  ends_body : (c : Bool) → Moves end_body body_phase c connection c

-- A move between equal stages.
moved :
    {k : Command} {p q p' q' : Phase} {c d c' d' : Bool}
    → Moves k q d q' d'
    → p ≡ q
    → c ≡ d
    → p' ≡ q'
    → c' ≡ d'
    → Moves k p c p' c'
moved m e f e' f' = rw (e, f, e', f') m

Stages-Moves :
    (k : Command) (s t : Session) (p p' : Phase) (c c' : Bool)
    → Moves k p c p' c'
    → Stages s t p c p' c'
    → Moves k s.phase s.connected t.phase t.connected
unfolding Stages
Stages-Moves k s t p p' c c' m (e, f, e', f') = moved m e f e' f'

mail-Moves :
    (h : Host) (payload : Bytes) (s : Session)
    → (handle_mail h payload s).1 ≡ true
    → Moves mail s.phase s.connected
        (handle_mail h payload s).0.phase
        (handle_mail h payload s).0.connected
mail-Moves h payload s kept =
    let (p, c, c', after) = mail-stage h payload s kept in
    elim after [ inl p' ↦ moved begins p c p' c' | inr p' ↦ moved refuses p c p' c' ]

reset-Moves :
    (k : Command) (h : Host) (s : Session)
    → Moves k s.phase s.connected connection s.connected
    → Moves k s.phase s.connected
        (reset_message h connection s).phase
        (reset_message h connection s).connected
reset-Moves k h s m = let (p, c) = reset_message-stage h connection s in moved m refl refl p c

dispatch-Moves :
    (h : Host) (k : Command) (payload : Bytes) (s : Session)
    → (is_negotiation s.phase && not (before_negotiation k)) ≡ false
    → (dispatch h k payload s).1 ≡ true
    → Moves k s.phase s.connected
        (dispatch h k payload s).0.phase
        (dispatch h k payload s).0.connected
unfolding dispatch Stages send
dispatch-Moves h option_negotiation payload s g kept =
    Stages-Moves option_negotiation s (negotiate h payload s).0 negotiation connection s.connected
      s.connected (negotiates s.connected) (negotiate-Stages h payload s kept)
dispatch-Moves h macro payload s g kept =
    let (p, c) = capture_session_macros-SameStage h payload s in
    moved (macros s.phase s.connected) refl refl p c
dispatch-Moves h abort payload s g kept =
    reset-Moves abort h s (aborts s.phase s.connected (ground (arith, g)))
dispatch-Moves h quit_smtp_connection payload s g kept =
    let (p, c) = quit_smtp-stage h s in
    moved (quits s.phase s.connected (ground (arith, g))) refl refl p c
dispatch-Moves h connect payload s g kept =
    Stages-Moves connect s (handle_connect h payload s).0 connection connection false true connects
      (connect-Stages h payload s kept)
dispatch-Moves h helo payload s g kept =
    Stages-Moves helo s (handle_helo h payload s).0 connection connection true true greets
      (helo-Stages h payload s kept)
dispatch-Moves h mail payload s g kept = mail-Moves h payload s kept
dispatch-Moves h recipient payload s g kept =
    Stages-Moves recipient s (handle_recipient payload s).0 envelope envelope s.connected
      s.connected (adds_recipient s.connected) (recipient-Stages payload s kept)
dispatch-Moves h transfer payload s g kept =
    let (e, same) = transfer-stage h payload s kept in
    let (p, c) = same in moved (starts_data s.connected) e refl (p ∙ e) c
dispatch-Moves h unknown payload s g kept = passes_over s.phase s.connected (ground (arith, g))
dispatch-Moves h header payload s g kept =
    Stages-Moves header s (add_header h payload s).0 envelope envelope s.connected s.connected
      (adds_header s.connected) (header-Stages h payload s kept)
dispatch-Moves h end_headers payload s g kept =
    Stages-Moves end_headers s (handle_end_headers s).0 envelope body_phase s.connected s.connected
      (ends_headers s.connected) (end_headers-Stages s kept)
dispatch-Moves h body payload s g kept =
    Stages-Moves body s (handle_body payload s).0 body_phase body_phase s.connected s.connected
      (adds_body s.connected) (body-Stages payload s kept)
dispatch-Moves h end_body payload s g kept =
    Stages-Moves end_body s (handle_end_body h payload s).0 body_phase connection s.connected
      s.connected (ends_body s.connected) (end_body-Stages h payload s kept)
dispatch-Moves h quit_milter_connection payload s g kept = cc
dispatch-Moves h (unsupported b) payload s g kept = cc

-- A command after which the session goes on is a move of the protocol's state machine, from the
-- stage before it to the stage after it.
pub handle_command-Moves :
    (h : Host) (k : Command) (payload : Bytes) (s : Session)
    → (handle_command h k payload s).1 ≡ true
    → Moves k s.phase s.connected
        (handle_command h k payload s).0.phase
        (handle_command h k payload s).0.connected
unfolding handle_command
handle_command-Moves h k payload s =
    elim (Bool-cases (is_negotiation s.phase && not (before_negotiation k))) [
      | inl e ↦ rw e (λ kept. cc)
      | inr e ↦ rw e (dispatch-Moves h k payload s e)
    ]
