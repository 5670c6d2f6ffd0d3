-- ===== src/Policy/Sessions.antt =====
-- internal/milter: a session whose messages the policies end.
use milter_guard.Prelude.{
  ◌∷◌, Bool, true, false, not, some, [], ◌≡◌, refl, ltb, length, if◌then◌else◌, if-cases,
  elim-cases,
}
use milter_guard.Prelude.Bytes.{Bytes}
use milter_guard.Session.State.{connection, Session, Host}
use milter_guard.Session.Handlers.{close_exact_message, open_exact_message, reset_message}
use milter_guard.Session.Address.{Addr, canonical_ip}
use milter_guard.Session.Commands.{is_body, take_body, handle_end_body}
use milter_guard.Policy.State.{
  rejected, event_ip_rejection, outcome_rejected, responded, noted, Ending, Policy, enforces,
}
use milter_guard.Policy.Updates.{domain_allowed}
use milter_guard.Policy.Finish.{
  finish_message, ip_reject_message, reject_reputation_ip, filtering_host,
}
use milter_guard.Wire.Frame.{Writer}
use milter_guard.Policy.Promises.{sent_answers, finish_message-sent_answers}

-- The session as the end of a message finds it: the command may bring a last part of the body.
abbrev pub with_body : Bytes → Session → Session
with_body payload s = if ltb 0 (length payload) then take_body payload s else s

close_exact_message-conn : (s : Session) → (close_exact_message s).conn ≡ s.conn
unfolding close_exact_message
close_exact_message-conn s =
    elim-cases (λ (t : Session). t.conn ≡ s.conn) s.exact_message (λ e. refl) (λ m e. refl)

-- What a session is like after a message.
abbrev pub IsReady : Session → Session → Type 0
IsReady s t =
    (t.phase ≡ connection) × (t.message ≡ []) × (t.envelope_recipients ≡ []) × (t.conn ≡ s.conn)

reset_message-IsReady : (h : Host) (s : Session) → IsReady s (reset_message h connection s)
unfolding reset_message open_exact_message
reset_message-IsReady h s = (refl, refl, refl, close_exact_message-conn s)

abbrev after_finish : Host → Session → Ending × Bool → Session × Bool
after_finish h s o =
    let s' : Session = record s { conn = o.0.conn } in
    if o.1 then (reset_message h connection s', true) else (s', false)

ended :
    (h : Host) (s : Session) (o : Ending × Bool)
    → (after_finish h s o).1 ≡ true
    → (o.1 ≡ true) × IsReady (record s { conn = o.0.conn }) (after_finish h s o).0
ended h s (m, true) e = (refl, reset_message-IsReady h (record s { conn = m.conn }))
ended h s (m, false) e = absurd (cc)

-- One answer was sent for the message of `s`, and `u` is ready for the next message.
abbrev Answered : Policy → Session → Session → Type 0
Answered c s u =
    (sent_answers (finish_message c s s.conn).0.events ≡ 1)
    × (u.phase ≡ connection)
    × (u.message ≡ [])
    × (u.envelope_recipients ≡ [])
    × (u.conn ≡ (finish_message c s s.conn).0.conn)

finished :
    (c : Policy) (s : Session)
    → (after_finish (filtering_host c) s (finish_message c s s.conn)).1 ≡ true
    → Answered c s (after_finish (filtering_host c) s (finish_message c s s.conn)).0
finished c s e =
    let (kept, (phase, message, recipients, conn)) =
      ended (filtering_host c) s (finish_message c s s.conn) e in
    (finish_message-sent_answers c s s.conn kept, phase, message, recipients, conn)

-- After an end of body that keeps the session, exactly one answer was sent for the message, and the session is ready for the
-- next one: in the connection phase, with no message and no recipients.
pub handle_end_body-sent_answers :
    (c : Policy) (payload : Bytes) (s : Session)
    → (handle_end_body (filtering_host c) payload s).1 ≡ true
    → (sent_answers (finish_message c (with_body payload s) (with_body payload s).conn).0.events
        ≡ 1)
      × ((handle_end_body (filtering_host c) payload s).0.phase ≡ connection)
      × ((handle_end_body (filtering_host c) payload s).0.message ≡ [])
      × ((handle_end_body (filtering_host c) payload s).0.envelope_recipients ≡ [])
      × ((handle_end_body (filtering_host c) payload s).0.conn
          ≡ (finish_message c (with_body payload s) (with_body payload s).conn).0.conn)
unfolding handle_end_body milter_guard.Session.Commands.finish_message
handle_end_body-sent_answers c payload s e =
    if-cases (λ (o : Session × Bool). o.1 ≡ true → Answered c (with_body payload s) o.0)
      (not (is_body s.phase)) (λ b f. absurd (cc)) (λ b f. finished c (with_body payload s) f) e

-- A sender who is not authenticated, at an address that is on no allowlist and has a running block.
abbrev IsBlocked : Policy → Session → Type 0
IsBlocked c s =
    (enforces c ≡ true)
    × (c.reputation_enabled ≡ true)
    × (s.authentication.authenticated ≡ false)
    × (domain_allowed c s ≡ false)
    × ((addr : Addr) × (s.peer_ip ≡ some addr)
        × (c.ip_allowed (canonical_ip addr) ≡ false)
        × (c.active_block (canonical_ip addr) ≡ true))

-- The rejection was sent and recorded, in this order, and the connection is what it left.
abbrev pub IsRecorded : Policy → Session → Writer → Type 0
IsRecorded c s conn =
    (m : Ending) × (reject_reputation_ip c s s.conn ≡ some (m, true))
    × (m.events
        ≡ noted event_ip_rejection outcome_rejected 0
          ∷ responded (rejected (ip_reject_message c)) true
          ∷ [])
    × (conn ≡ m.conn)
