-- ===== src/Session/Commands/Leaks/Runs.antt =====
-- internal/milter/session_protocol.go: what the commands of a session, and a whole session, hold.
use milter_guard.Prelude.{
  ℕ, false, none, List, [], ◌∷◌, ◌++◌, ◌≡◌, inl, inr, refl, arith, Option-cases,
}
use milter_guard.Prelude.Bytes.{Bytes}
use milter_guard.Wire.Command.{
  Command, abort, body, connect, macro, end_body, helo, header, mail, end_headers,
  option_negotiation, quit_milter_connection, recipient, transfer, unknown, quit_smtp_connection,
  unsupported, command_of,
}
use milter_guard.Wire.Frame.{Writer}
use milter_guard.Wire.Payload.{parse_header}
use milter_guard.Session.Exact.{Pool, add_exact_header, add_exact_body, end_exact_headers}
use milter_guard.Session.State.{
  negotiation, connection, envelope, body_phase, header_call, body_call, no_authentication, Session,
  Host,
}
use milter_guard.Session.Handlers.{
  send, reset_message, negotiate, note_from, add_header, capture_session_macros,
}
use milter_guard.Session.Commands.{
  blank_session, take_body, quit_smtp, handle_connect, handle_helo, handle_mail, handle_recipient,
  handle_end_headers, handle_body, finish_message, handle_end_body, dispatch, handle_command,
  new_session, run_frames,
}
use milter_guard.Session.Commands.Leaks.{
  Holds, Balanced, slots_held, files_held, Keeps-header, Keeps-end, Keeps-body, SameExact,
  note_from-SameExact, macros-SameExact, recipient-SameExact, sender-SameExact, SameExact-Balanced,
  close_exact_message-Balanced, reset_message-Balanced, capture_exact-Balanced,
}

send-SameExact : (response : Bytes) (s : Session) → SameExact s (send response s).0
unfolding send
send-SameExact response s = (refl, refl)

negotiate-SameExact :
    (h : Host) (payload : Bytes) (s : Session) → SameExact s (negotiate h payload s).0
unfolding negotiate send
negotiate-SameExact h payload s = ground arith

connect-SameExact :
    (h : Host) (payload : Bytes) (s : Session) → SameExact s (handle_connect h payload s).0
unfolding handle_connect send
connect-SameExact h payload s = ground arith

helo-SameExact :
    (h : Host) (payload : Bytes) (s : Session) → SameExact s (handle_helo h payload s).0
unfolding handle_helo send
helo-SameExact h payload s = ground arith

recipients-SameExact : (payload : Bytes) (s : Session) → SameExact s (handle_recipient payload s).0
unfolding handle_recipient send
recipients-SameExact payload s = ground (arith, recipient-SameExact payload s)

transfer-SameExact :
    (h : Host) (payload : Bytes) (s : Session) → SameExact s (dispatch h transfer payload s).0
unfolding dispatch send
transfer-SameExact h payload s = ground arith

module _ (taken files : ℕ) where
  mail-Balanced :
      (h : Host) (payload : Bytes) (s : Session)
      → Balanced taken files s
      → Balanced taken files (handle_mail h payload s).0
  unfolding handle_mail send
  mail-Balanced h payload s b = ground (
    arith,
    b,
    reset_message-Balanced taken files h envelope s b,
    sender-SameExact payload (reset_message h envelope s),
  )

  header-Balanced :
      (h : Host) (payload : Bytes) (s : Session)
      → Balanced taken files s
      → Balanced taken files (add_header h payload s).0
  unfolding add_header send
  header-Balanced h payload s b = elim (Option-cases (parse_header payload)) [
    | inl e ↦ ground (arith, e, b)
    | inr ((name, value), e) ↦
        let s₁ : Session = note_from h name value s in
        ground (
          arith,
          e,
          b,
          capture_exact-Balanced taken files (add_exact_header name value)
              (record s₁ { message = s₁.message ++ header_call name value ∷ [] })
              (Keeps-header name value)
              (SameExact-Balanced taken files s s₁ (note_from-SameExact h name value s) b),
        )
  ]

  end_headers-Balanced :
      (s : Session) → Balanced taken files s → Balanced taken files (handle_end_headers s).0
  unfolding handle_end_headers send
  end_headers-Balanced s b = ground (
    arith,
    b,
    capture_exact-Balanced taken files end_exact_headers (record s { phase = body_phase }) Keeps-end
        b,
  )

  take_body-Balanced :
      (payload : Bytes) (s : Session)
      → Balanced taken files s
      → Balanced taken files (take_body payload s)
  take_body-Balanced payload s b =
      capture_exact-Balanced taken files (add_exact_body payload)
        (record s { message = s.message ++ body_call payload ∷ [] }) (Keeps-body payload) b

  body-Balanced :
      (payload : Bytes) (s : Session)
      → Balanced taken files s
      → Balanced taken files (handle_body payload s).0
  unfolding handle_body send
  body-Balanced payload s b = ground (arith, b, take_body-Balanced payload s b)

  finish_message-Balanced :
      (h : Host) (s : Session)
      → Balanced taken files s
      → Balanced taken files (finish_message h s).0
  unfolding finish_message
  finish_message-Balanced h s b = ground (
    arith,
    b,
    reset_message-Balanced taken files h connection (record s { conn = (h.finish s).0 }) b,
  )

  end_body-Balanced :
      (h : Host) (payload : Bytes) (s : Session)
      → Balanced taken files s
      → Balanced taken files (handle_end_body h payload s).0
  unfolding handle_end_body
  end_body-Balanced h payload s b = ground (
    arith,
    b,
    finish_message-Balanced h s b,
    finish_message-Balanced h (take_body payload s) (take_body-Balanced payload s b),
  )

  quit_smtp-Balanced :
      (h : Host) (s : Session) → Balanced taken files s → Balanced taken files (quit_smtp h s).0
  unfolding quit_smtp
  quit_smtp-Balanced h s b =
      reset_message-Balanced taken files h connection
        (record s {
          connected = false;
          peer_ip = none;
          peer_hostname = [];
          mta_hostname = [];
          pending_mta_hostname = [];
          receiver_ip = none;
          pending_receiver_ip = none;
          helo_identity = [];
          smtp_utf8 = false;
          authentication = no_authentication;
        })
        b

  dispatch-Balanced :
      (h : Host) (k : Command) (payload : Bytes) (s : Session)
      → Balanced taken files s
      → Balanced taken files (dispatch h k payload s).0
  unfolding dispatch send
  dispatch-Balanced h option_negotiation payload s b =
      SameExact-Balanced taken files s (negotiate h payload s).0 (negotiate-SameExact h payload s) b
  dispatch-Balanced h macro payload s b =
      SameExact-Balanced taken files s (capture_session_macros h payload s)
        (macros-SameExact h payload s) b
  dispatch-Balanced h abort payload s b = reset_message-Balanced taken files h connection s b
  dispatch-Balanced h quit_smtp_connection payload s b = quit_smtp-Balanced h s b
  dispatch-Balanced h connect payload s b =
      SameExact-Balanced taken files s (handle_connect h payload s).0
        (connect-SameExact h payload s) b
  dispatch-Balanced h helo payload s b =
      SameExact-Balanced taken files s (handle_helo h payload s).0 (helo-SameExact h payload s) b
  dispatch-Balanced h mail payload s b = mail-Balanced h payload s b
  dispatch-Balanced h recipient payload s b =
      SameExact-Balanced taken files s (handle_recipient payload s).0
        (recipients-SameExact payload s) b
  dispatch-Balanced h transfer payload s b =
      SameExact-Balanced taken files s (dispatch h transfer payload s).0
        (transfer-SameExact h payload s) b
  dispatch-Balanced h unknown payload s b = b
  dispatch-Balanced h header payload s b = header-Balanced h payload s b
  dispatch-Balanced h end_headers payload s b = end_headers-Balanced s b
  dispatch-Balanced h body payload s b = body-Balanced payload s b
  dispatch-Balanced h end_body payload s b = end_body-Balanced h payload s b
  dispatch-Balanced h quit_milter_connection payload s b = b
  dispatch-Balanced h (unsupported c) payload s b = b

  handle_command-Balanced :
      (h : Host) (k : Command) (payload : Bytes) (s : Session)
      → Balanced taken files s
      → Balanced taken files (handle_command h k payload s).0
  unfolding handle_command
  handle_command-Balanced h k payload s b = ground (arith, b, dispatch-Balanced h k payload s b)

  run_frames-Balanced :
      (h : Host) (frames : List (ℕ × Bytes)) (s : Session)
      → Balanced taken files s
      → Holds taken files none (run_frames h frames s).pool
  unfolding run_frames
  run_frames-Balanced h [] s b = (close_exact_message-Balanced taken files s b).0
  run_frames-Balanced h ((c, payload) ∷ frames) s b =
      let after = handle_command-Balanced h (command_of c) payload s b in
      let s' : Session = (handle_command h (command_of c) payload s).0 in
      ground (
        arith,
        run_frames-Balanced h frames s' after,
        close_exact_message-Balanced taken files s' after,
      )

-- A session gives back all that it took for exact messages: whatever frames it reads, as many memory
-- slots are taken and as many temporary files are open after it as before it.
pub run_frames-pool :
    (h : Host) (conn : Writer) (pool : Pool) (frames : List (ℕ × Bytes))
    → ((run_frames h frames (new_session h conn pool)).pool.taken ≡ pool.taken)
      × ((run_frames h frames (new_session h conn pool)).pool.files ≡ pool.files)
unfolding new_session slots_held files_held
run_frames-pool h conn pool frames =
    let blank : Session = blank_session conn pool in
    ground (
      arith,
      run_frames-Balanced pool.taken pool.files h frames (reset_message h negotiation blank) (
          reset_message-Balanced pool.taken pool.files h negotiation blank
            (omega arith, omega arith)),
    )
