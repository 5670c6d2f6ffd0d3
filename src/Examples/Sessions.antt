-- ===== src/Examples/Sessions.antt =====
-- internal/milter/session_protocol.go: a session that negotiates, connects and starts a message.
use milter_guard.Prelude.{◌≤◌, ◌||◌, true, none, some, [], ◌∷◌, ◌++◌, ◌≡◌, refl, length}
use milter_guard.Prelude.Bytes.{Bytes, codes, cut}
use milter_guard.Wire.Command.{connect, mail, option_negotiation, put_u32, u32, option_response}
use milter_guard.Wire.Frame.{Writer, write_frame, write_all}
use milter_guard.Wire.Payload.{parse_envelope_address}
use milter_guard.Session.Exact.Lines.{ends_in_crlf, ends_in_crlf-exact_value}
use milter_guard.Session.Exact.{exact_value, hybrid, Pool, new_exact_message, new_file}
use milter_guard.Session.Address.{v4}
use milter_guard.Session.State.{Session, Host}
use milter_guard.Session.Handlers.{
  is_envelope, send, close_exact_message, open_exact_message, reset_message, and_bits, negotiate,
}
use milter_guard.Session.Commands.{
  is_body, handle_connect, handle_mail, dispatch, handle_command, new_session, run_frames,
}
use milter_guard.Session.Commands.Order.{Moves, handle_command-Moves}
use milter_guard.Session.Commands.Leaks.Runs.{run_frames-pool}
use milter_guard.Session.Commands.Reach.{Reaches, stays, goes_on, Reaches-connected}
use milter_guard.Session.Commands.Limits.{Reaches-IsLimited}

-- Exact messages of up to a thousand bytes; every text is taken as it is, and every message ends well.
abbrev host : Host
host = record {
  internal_authentication = true;
  storage = hybrid;
  max_message_size = 1000;
  has_factory = true;
  parse_addr = λ s. some (v4 0x7f000001);
  canonical_macro_ip = λ s. none;
  clean_smtp_identity = λ s. s;
  valid_mta_hostname = λ s. s;
  trim_space = λ s. s;
  authenticated_only_from = λ s. [];
  from_mailboxes = λ s. s ∷ [];
  reject_ip = λ s. none;
  finish = λ s. (s.conn, true);
}

abbrev conn : Writer
conn = record { sent = []; script = [] }

abbrev pool : Pool
pool = record { slots = 4; taken = 1; files = 0; creations = [] }

abbrev first : Session
first = new_session host conn pool

abbrev offer : Bytes
offer = 0 ∷ 0 ∷ 0 ∷ 6 ∷ 0 ∷ 0 ∷ 1 ∷ 0xff ∷ 0 ∷ 0 ∷ 0 ∷ 0 ∷ []

abbrev second : Session
second = (handle_command host option_negotiation offer first).0

abbrev third : Session
third = (handle_command host connect (codes "mx" ++ 0 ∷ codes "4") second).0

abbrev fourth : Session
fourth = (handle_command host mail (codes "<a@b>" ++ 0 ∷ []) third).0

negotiated : (handle_command host option_negotiation offer first).1 ≡ true
unfolding handle_command dispatch negotiate send write_frame write_all new_session reset_message
    close_exact_message open_exact_message u32 put_u32 and_bits option_response
negotiated = refl

connected : (handle_command host connect (codes "mx" ++ 0 ∷ codes "4") second).1 ≡ true
unfolding handle_command dispatch negotiate handle_connect send write_frame write_all new_session
    reset_message close_exact_message open_exact_message u32 put_u32 and_bits option_response
connected = refl

begun : (handle_command host mail (codes "<a@b>" ++ 0 ∷ []) third).1 ≡ true
unfolding handle_command dispatch negotiate handle_connect handle_mail send write_frame write_all
    new_session reset_message close_exact_message open_exact_message u32 put_u32 and_bits
    option_response new_exact_message parse_envelope_address cut
begun = refl

in_envelope : (is_envelope fourth.phase || is_body fourth.phase) ≡ true
unfolding handle_command dispatch negotiate handle_connect handle_mail send write_frame write_all
    new_session reset_message close_exact_message open_exact_message u32 put_u32 and_bits
    option_response new_exact_message new_file parse_envelope_address cut
in_envelope = refl

reaches : Reaches host first fourth
reaches =
    goes_on first third mail (codes "<a@b>" ++ 0 ∷ [])
      (goes_on first second connect (codes "mx" ++ 0 ∷ codes "4")
        (goes_on first first option_negotiation offer (stays first) negotiated) connected)
      begun

handle_command-Moves_example :
    Moves option_negotiation first.phase first.connected second.phase second.connected
handle_command-Moves_example = handle_command-Moves host option_negotiation offer first negotiated

run_frames-pool_example :
    ((run_frames host ((b'O', offer) ∷ (b'M', 65 ∷ 0 ∷ []) ∷ []) first).pool.taken ≡ 1)
    × ((run_frames host ((b'O', offer) ∷ (b'M', 65 ∷ 0 ∷ []) ∷ []) first).pool.files ≡ 0)
run_frames-pool_example = run_frames-pool host conn pool ((b'O', offer) ∷ (b'M', 65 ∷ 0 ∷ []) ∷ [])

Reaches-connected_example : fourth.connected ≡ true
Reaches-connected_example = Reaches-connected host conn pool fourth reaches in_envelope

Reaches-IsLimited_example :
    (length fourth.envelope_recipients ≤ 100) × (length fourth.sender_blocklist_from ≤ 100)
Reaches-IsLimited_example = Reaches-IsLimited host conn pool fourth reaches

ends_in_crlf-exact_value_example :
    ends_in_crlf (exact_value (65 ∷ 13 ∷ 66 ∷ 10 ∷ 67 ∷ 13 ∷ 10 ∷ [])) ≡ true
ends_in_crlf-exact_value_example = ends_in_crlf-exact_value (65 ∷ 13 ∷ 66 ∷ 10 ∷ 67 ∷ 13 ∷ 10 ∷ [])
