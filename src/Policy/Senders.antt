-- ===== src/Policy/Senders.antt =====
-- internal/milter/sender_domain_policy.go and sender_blocklist_policy.go: who may send, and to whom.
use milter_guard.Prelude.{
  Bool, true, false, ◌||◌, not, Option, none, some, List, [], ◌∷◌, ◌++◌, if◌then◌else◌,
}
use milter_guard.Prelude.Bytes.{Bytes, codes}
use milter_guard.Wire.Command.{action_delete_recipient}
use milter_guard.Session.State.{Session}
use milter_guard.Session.Handlers.{among}
use milter_guard.Policy.State.{
  Action, action_reject, is_reject, is_accept, event_protected_sender_domain_rejection,
  event_sender_blocklist, outcome_rejected, Response, deleted_recipient, noted, recorded_rejection,
  Ending, Policy, enforces, offers, note, emit, emit_all, on_success, select_action_for_mode,
  response_for_action, record_deterministic,
}
use milter_guard.Policy.Headers.{
  accept_mode_action, is_blank, write_classification_headers, write_accepted_bypass_headers,
}
use milter_guard.Policy.Updates.{sender_blocklist_reason, recipient_set_complete, reputation_add}

abbrev pub authenticated_only_sender_domain_source : Bytes
authenticated_only_sender_domain_source = codes "authenticated_only_sender_domain"

abbrev pub domain_reason : Bytes → Bytes
domain_reason domain =
    codes "Visible From domain "
    ++ (domain ++ codes " may only be used by authenticated SMTP submissions")

unfoldable pub deleted_recipients : List Bytes → List Response
deleted_recipients [] = []
deleted_recipients (r ∷ rs) = deleted_recipient r ∷ deleted_recipients rs

-- The elements that come first among their equals.
unfoldable pub distinct : List Bytes → List Bytes → List Bytes
distinct seen [] = []
distinct seen (x ∷ xs) =
    let again = distinct seen xs in
    let new = distinct (x ∷ seen) xs in if among x seen then again else x ∷ new

unfoldable pub without : List Bytes → List Bytes → List Bytes
without blocked [] = []
without blocked (r ∷ rs) =
    let rest = without blocked rs in if among r blocked then rest else r ∷ rest

abbrev pub no_strings : List Bytes → Bool
no_strings [] = true
no_strings (r ∷ rs) = false

module _ (c : Policy) (s : Session) where
  unfoldable pub normal_values : List Bytes → List Bytes
  normal_values [] = []
  normal_values (x ∷ xs) =
      let rest = normal_values xs in if is_blank (c.normalize x) then rest else c.normalize x ∷ rest

  unfoldable pub normalized_recipients : List Bytes → List Bytes
  normalized_recipients xs = c.sort_strings (distinct [] (normal_values xs))

  -- The headers before the answer, for a message that is accepted.
  abbrev pub domain_headers : Action → Ending → Ending × Bool
  domain_headers selected m =
      if not (is_accept selected)
      then (m, true)
      else if c.add_email_headers
      then write_classification_headers c s (codes "unwanted") accept_mode_action m
      else write_accepted_bypass_headers c s m

  abbrev pub domain_updates : Bytes → Ending → Ending
  domain_updates sender m = reputation_add c s (
      note
        (recorded_rejection sender s.envelope_sender s.envelope_recipients
          (domain_reason s.protected_sender_domain ∷ []) authenticated_only_sender_domain_source)
        m)

  abbrev pub domain_answered : Bytes → Action → Ending × Bool → Ending × Bool
  domain_answered sender selected (m, sent) =
      let noted_m =
        if is_reject selected
        then record_deterministic event_protected_sender_domain_rejection selected sent m
        else m in
      if not sent
      then (noted_m, false)
      else (if is_reject selected then domain_updates sender noted_m else noted_m, true)

  unfoldable pub finish_authenticated_only_sender_domain : Bytes → Ending → Ending × Bool
  finish_authenticated_only_sender_domain sender m =
      let selected = select_action_for_mode action_reject c in
      domain_answered sender selected (
        on_success (domain_headers selected m)
          (emit (response_for_action selected c.reject_message)))

  unfoldable pub apply_authenticated_only_sender_domain : Bytes → Ending → Ending × Option Bool
  apply_authenticated_only_sender_domain sender m =
      if s.authentication.authenticated || is_blank s.protected_sender_domain
      then (m, none)
      else let (m', kept) = finish_authenticated_only_sender_domain sender m in (m', some kept)

  -- All the recipients are blocked.
  unfoldable pub reject_blocked : List Bytes → Bytes → Ending → Ending × Option Bool
  reject_blocked blocked sender m =
      let (m', sent) =
        emit (response_for_action action_reject c.sender_blocklist_reject_message) m in
      if not sent then (m', some false) else (
        note (noted event_sender_blocklist outcome_rejected 1) (
            note
              (recorded_rejection sender s.envelope_sender blocked (sender_blocklist_reason ∷ [])
                (codes "sender_blocklist"))
              m'),
        some true,
      )

  abbrev pub block_recipients : List Bytes → Bytes → List Bytes → Ending → Ending × Option Bool
  block_recipients blocked sender remaining m =
      if no_strings blocked
      then (m, none)
      else if not (enforces c)
      then (m, none)
      else if no_strings remaining
      then reject_blocked blocked sender m
      else if not (offers action_delete_recipient s)
      then (m, none)
      else (
        record m {
          pending_sender_blocks = some (record {
            blocked_recipients = blocked;
            remaining_recipients = remaining;
            matched_sender = sender;
          });
        },
        none,
      )

  unfoldable pub apply_sender_blocklist : Ending → Ending × Option Bool
  apply_sender_blocklist m =
      let mailboxes = normalized_recipients s.sender_blocklist_from in
      let recipients = normalized_recipients s.envelope_recipients in
      if s.authentication.authenticated || not c.has_sender_blocklist
      then (m, none)
      else if no_strings mailboxes
          || s.sender_blocklist_from_truncated
          || not (recipient_set_complete c s)
      then (m, none)
      else elim (c.match_sender_blocks mailboxes recipients) [
        | none ↦ (m, none)
        | some (blocked, sender) ↦ block_recipients blocked sender (without blocked recipients) m
      ]

  unfoldable pub write_policy_response : Action → Bytes → Ending → Ending × Bool
  write_policy_response selected message m =
      let answer = response_for_action selected message in
      if not (is_accept selected) then emit answer m else elim m.pending_sender_blocks [
        | none ↦ emit answer m
        | some pending ↦
            on_success (emit_all (deleted_recipients pending.blocked_recipients) m) (emit answer)
      ]
