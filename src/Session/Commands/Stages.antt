-- ===== src/Session/Commands/Stages.antt =====
-- internal/milter/session_protocol.go: the phase and the connection around each command.
use milter_guard.Prelude.{
  Bool, true, false, none, [], ◌∷◌, ◌++◌, ◌≡◌, ◌⊎◌, inl, inr, refl, arith, Option-cases,
}
use milter_guard.Prelude.Bytes.{Bytes}
use milter_guard.Wire.Command.{transfer}
use milter_guard.Wire.Payload.{parse_header}
use milter_guard.Session.Exact.{add_exact_header, add_exact_body, end_exact_headers}
use milter_guard.Session.State.{
  header_call, body_call, no_authentication, Phase, negotiation, connection, envelope, body_phase,
  Session, Host,
}
use milter_guard.Session.Handlers.{
  note_from, send, negotiate, add_header, is_negotiation, is_envelope,
}
use milter_guard.Session.Handlers.Frames.{
  SameStage, reset_message-stage, capture_exact-SameStage, note_from-SameStage,
}
use milter_guard.Session.Commands.{
  take_body, is_connection, is_body, quit_smtp, handle_connect, handle_helo, handle_mail,
  handle_recipient, handle_end_headers, handle_body, finish_message, handle_end_body, dispatch,
}

pub is_connection-eq : (p : Phase) → is_connection p ≡ true → p ≡ connection
is_connection-eq negotiation h = cc
is_connection-eq connection h = refl
is_connection-eq envelope h = cc
is_connection-eq body_phase h = cc

is_envelope-eq : (p : Phase) → is_envelope p ≡ true → p ≡ envelope
is_envelope-eq negotiation h = cc
is_envelope-eq connection h = cc
is_envelope-eq envelope h = refl
is_envelope-eq body_phase h = cc

is_body-eq : (p : Phase) → is_body p ≡ true → p ≡ body_phase
is_body-eq negotiation h = cc
is_body-eq connection h = cc
is_body-eq envelope h = cc
is_body-eq body_phase h = refl

is_negotiation-eq : (p : Phase) → is_negotiation p ≡ true → p ≡ negotiation
is_negotiation-eq negotiation h = refl
is_negotiation-eq connection h = cc
is_negotiation-eq envelope h = cc
is_negotiation-eq body_phase h = cc

-- What a kept session shows of the stage, before and after.
unfoldable pub Stages : Session → Session → Phase → Bool → Phase → Bool → Type 0
Stages s t p c p' c' = (s.phase ≡ p) × (s.connected ≡ c) × (t.phase ≡ p') × (t.connected ≡ c')

pub negotiate-Stages :
    (h : Host) (payload : Bytes) (s : Session)
    → (negotiate h payload s).1 ≡ true
    → Stages s (negotiate h payload s).0 negotiation s.connected connection s.connected
unfolding negotiate send Stages
negotiate-Stages h payload s = ground (arith, is_negotiation-eq s.phase)

pub connect-Stages :
    (h : Host) (payload : Bytes) (s : Session)
    → (handle_connect h payload s).1 ≡ true
    → Stages s (handle_connect h payload s).0 connection false connection true
unfolding handle_connect send Stages
connect-Stages h payload s = ground (arith, is_connection-eq s.phase)

pub helo-Stages :
    (h : Host) (payload : Bytes) (s : Session)
    → (handle_helo h payload s).1 ≡ true
    → Stages s (handle_helo h payload s).0 connection true connection true
unfolding handle_helo send Stages
helo-Stages h payload s = ground (arith, is_connection-eq s.phase)

pub recipient-Stages :
    (payload : Bytes) (s : Session)
    → (handle_recipient payload s).1 ≡ true
    → Stages s (handle_recipient payload s).0 envelope s.connected envelope s.connected
unfolding handle_recipient send Stages
recipient-Stages payload s = ground (arith, is_envelope-eq s.phase)

pub end_headers-Stages :
    (s : Session)
    → (handle_end_headers s).1 ≡ true
    → Stages s (handle_end_headers s).0 envelope s.connected body_phase s.connected
unfolding handle_end_headers send Stages
end_headers-Stages s = ground (
  arith,
  is_envelope-eq s.phase,
  capture_exact-SameStage end_exact_headers (record s { phase = body_phase }),
)

pub body-Stages :
    (payload : Bytes) (s : Session)
    → (handle_body payload s).1 ≡ true
    → Stages s (handle_body payload s).0 body_phase s.connected body_phase s.connected
unfolding handle_body send Stages
body-Stages payload s = ground (
  arith,
  is_body-eq s.phase,
  capture_exact-SameStage (add_exact_body payload)
      (record s { message = s.message ++ body_call payload ∷ [] }),
)

pub finish_message-stage :
    (h : Host) (s : Session)
    → (finish_message h s).1 ≡ true
    → ((finish_message h s).0.phase ≡ connection) × ((finish_message h s).0.connected ≡ s.connected)
unfolding finish_message
finish_message-stage h s =
    ground (arith, reset_message-stage h connection (record s { conn = (h.finish s).0 }))

pub end_body-Stages :
    (h : Host) (payload : Bytes) (s : Session)
    → (handle_end_body h payload s).1 ≡ true
    → Stages s (handle_end_body h payload s).0 body_phase s.connected connection s.connected
unfolding handle_end_body Stages
end_body-Stages h payload s = ground (
  arith,
  is_body-eq s.phase,
  finish_message-stage h s,
  finish_message-stage h (take_body payload s),
  capture_exact-SameStage (add_exact_body payload)
      (record s { message = s.message ++ body_call payload ∷ [] }),
)

pub header-Stages :
    (h : Host) (payload : Bytes) (s : Session)
    → (add_header h payload s).1 ≡ true
    → Stages s (add_header h payload s).0 envelope s.connected envelope s.connected
unfolding add_header send Stages
header-Stages h payload s = elim (Option-cases (parse_header payload)) [
  | inl e ↦ ground (arith, e)
  | inr ((name, value), e) ↦
      let s₁ : Session = note_from h name value s in
      ground (
        arith,
        e,
        is_envelope-eq s.phase,
        note_from-SameStage h name value s,
        capture_exact-SameStage (add_exact_header name value)
            (record s₁ { message = s₁.message ++ header_call name value ∷ [] }),
      )
]

pub mail-stage :
    (h : Host) (payload : Bytes) (s : Session)
    → (handle_mail h payload s).1 ≡ true
    → (s.phase ≡ connection)
      × (s.connected ≡ true)
      × ((handle_mail h payload s).0.connected ≡ true)
      × (((handle_mail h payload s).0.phase ≡ envelope)
          ⊎ ((handle_mail h payload s).0.phase ≡ connection))
unfolding handle_mail send
mail-stage h payload s = ground (arith, is_connection-eq s.phase, reset_message-stage h envelope s)

pub quit_smtp-stage :
    (h : Host) (s : Session)
    → ((quit_smtp h s).0.phase ≡ connection) × ((quit_smtp h s).0.connected ≡ false)
unfolding quit_smtp
quit_smtp-stage h s = reset_message-stage h connection (record s {
  connected = false;
  peer_ip = none;
  peer_hostname = [];
  mta_hostname = [];
  pending_mta_hostname = [];
  receiver_ip = none;
  pending_receiver_ip = none;
  helo_identity = [];
  smtp_utf8 = false;
  authentication = no_authentication;
})

pub transfer-stage :
    (h : Host) (payload : Bytes) (s : Session)
    → (dispatch h transfer payload s).1 ≡ true
    → (s.phase ≡ envelope) × SameStage s (dispatch h transfer payload s).0
unfolding dispatch send
transfer-stage h payload s = ground (arith, is_envelope-eq s.phase)
