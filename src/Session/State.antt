-- ===== src/Session/State.antt =====
-- internal/milter/session.go: the state of a session. Its DNS lookup is not modelled; the fields that
-- only the end of a message writes and reads, visibleSender, visibleSenderDomain, visibleFromInvalid
-- and pendingSenderBlocks, are in Policy.
use milter_guard.Prelude.{ℕ, Bool, false, Option, List, []}
use milter_guard.Prelude.Bytes.{Bytes}
use milter_guard.Wire.Frame.{Writer}
use milter_guard.Session.Exact.{Storage, ExactMessage, Pool}
use milter_guard.Session.Address.{Addr}

pub data Phase : Type 0 where
  negotiation connection envelope body_phase : Phase

pub record Authentication : Type 0 where
  pub authenticated : Bool
  pub identity : Bytes

-- A call on the `message.Message` of the session.
pub data MessageCall : Type 0 where
  header_call : Bytes → Bytes → MessageCall
  body_call : Bytes → MessageCall

-- `conn` is the connection and `pool` what exact messages take of the process. `message` is the calls
-- on the message since it is new, and `exact_failed` is `exactMessageErr != nil`.
pub record Session : Type 0 where
  pub phase : Phase
  pub connected : Bool
  pub peer_ip : Option Addr
  pub peer_hostname : Bytes
  pub mta_hostname : Bytes
  pub pending_mta_hostname : Bytes
  pub receiver_ip : Option Addr
  pub pending_receiver_ip : Option Addr
  pub helo_identity : Bytes
  pub smtp_utf8 : Bool
  pub authentication : Authentication
  pub envelope_sender : Bytes
  pub envelope_recipients : List Bytes
  pub envelope_recipients_truncated : Bool
  pub protected_sender_domain : Bytes
  pub message : List MessageCall
  pub exact_message : Option ExactMessage
  pub exact_failed : Bool
  pub negotiated_actions : ℕ
  pub sender_blocklist_from : List Bytes
  pub sender_blocklist_from_truncated : Bool
  pub conn : Writer
  pub pool : Pool

-- The configuration that the session reads, and the code that it calls and that is not modelled here:
-- functions of strings, the reply to a sending address that is under a block, and the end of a
-- message. That writes to the connection, may fail before its answer is sent, and resets the message
-- after an answer, on each of its paths. Policy fills the last two.
pub record Host : Type 0 where
  pub internal_authentication : Bool
  pub storage : Storage
  pub max_message_size : ℕ
  pub has_factory : Bool
  pub parse_addr : Bytes → Option Addr
  pub canonical_macro_ip : Bytes → Option Addr
  pub clean_smtp_identity : Bytes → Bytes
  pub valid_mta_hostname : Bytes → Bytes
  pub trim_space : Bytes → Bytes
  pub authenticated_only_from : Bytes → Bytes
  pub from_mailboxes : Bytes → List Bytes
  pub reject_ip : Session → Option (Writer × Bool)
  pub finish : Session → Writer × Bool

abbrev pub no_authentication : Authentication
no_authentication = record { authenticated = false; identity = [] }
