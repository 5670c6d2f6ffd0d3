-- ===== src/Policy/Updates.antt =====
-- internal/milter: the updates after an answer, of message_policy.go, ip_reputation.go, activity.go and session.go.
use milter_guard.Prelude.{
  ℕ, Bool, true, false, ◌&&◌, ◌||◌, not, none, some, List, [], ◌∷◌, reverse, length, ◌==◌,
  if◌then◌else◌,
}
use milter_guard.Prelude.Bytes.{Bytes, codes, bytes_eq}
use milter_guard.Session.Address.{canonical_ip}
use milter_guard.Session.State.{Session}
use milter_guard.Policy.State.{
  is_reject, is_accept, ActivityEvent, event_scan, event_incomplete_inspection, event_html_dos,
  event_html_limit, event_sender_blocklist, outcome_accepted, noted, recorded_rejection, struck,
  credited, learned, classified, Ending, Policy, enforces, note, activity_outcome,
}
use milter_guard.Policy.Headers.{EvaluationResult, is_blank, incomplete_inspection_policy}

abbrev pub sender_blocklist_reason : Bytes
sender_blocklist_reason = codes "Visible sender matched manual recipient blocklist"

-- `strings.HasPrefix(s, prefix)`
unfoldable pub has_prefix : Bytes → Bytes → Bool
has_prefix s [] = true
has_prefix [] (y ∷ ys) = false
has_prefix (x ∷ xs) (y ∷ ys) = x == y && has_prefix xs ys

unfoldable pub domain_matches : Bytes → Bytes → Bool
domain_matches hostname domain =
    bytes_eq hostname domain || has_prefix (reverse hostname) (reverse (b'.' ∷ domain))

abbrev pub any_domain_matches : Bytes → List Bytes → Bool
any_domain_matches hostname [] = false
any_domain_matches hostname (d ∷ ds) = domain_matches hostname d || any_domain_matches hostname ds

-- `recordScan`: `cpuExceeded` and `memoryExceeded` are only used together.
unfoldable pub scan_event : EvaluationResult → ActivityEvent
scan_event r =
    if r.incomplete_inspection
    then event_incomplete_inspection
    else if r.html_exceeded && bytes_eq r.html_cpu_action (codes "dos-reject")
    then event_html_dos
    else if r.html_exceeded && bytes_eq r.html_cpu_action (codes "reject")
    then event_html_limit
    else event_scan

unfoldable pub record_scan : EvaluationResult → Bool → Ending → Ending
record_scan r sent m = note (noted (scan_event r) (activity_outcome r.selected sent) 0) m

abbrev pub limited_by_html : EvaluationResult → Bool
limited_by_html r = r.html_exceeded && bytes_eq r.html_cpu_action (codes "reject")

module _ (c : Policy) (s : Session) where
  -- Whether one of the names is confirmed and under a domain of the list.
  unfoldable pub some_name_allowed : List (Bytes × Bool) → Bool
  some_name_allowed [] = false
  some_name_allowed ((name, confirmed) ∷ names) =
      let rest = some_name_allowed names in
      if confirmed && any_domain_matches (c.dns_hostname name) c.domain_allowlist
      then true
      else rest

  unfoldable pub domain_allowed : Bool
  domain_allowed = elim (c.reverse_names s) [ none ↦ false | some names ↦ some_name_allowed names ]

  -- `ipReputationStore.add`
  unfoldable pub reputation_add : Ending → Ending
  reputation_add m = elim s.peer_ip [
    | none ↦ m
    | some addr ↦
        if not c.reputation_enabled || c.ip_allowed (canonical_ip addr) || domain_allowed
        then m
        else note (struck (canonical_ip addr)) m
  ]

  unfoldable pub record_legitimate_ip : Ending → Ending
  record_legitimate_ip m = elim s.peer_ip [
    | none ↦ m
    | some addr ↦ if not c.reputation_enabled then m else note (credited (canonical_ip addr)) m
  ]

  unfoldable pub policy_envelope_recipients : Ending → List Bytes
  policy_envelope_recipients m = elim m.pending_sender_blocks [
    | none ↦ s.envelope_recipients
    | some pending ↦ pending.remaining_recipients
  ]

  unfoldable pub complete_sender_blocklist_removal : Ending → Ending
  complete_sender_blocklist_removal m = elim m.pending_sender_blocks [
    | none ↦ m
    | some pending ↦
        note (noted event_sender_blocklist outcome_accepted (length pending.blocked_recipients)) (
          note
            (recorded_rejection pending.matched_sender s.envelope_sender pending.blocked_recipients
              (sender_blocklist_reason ∷ []) (codes "sender_blocklist"))
            m)
  ]

  unfoldable pub recipients_normal : List Bytes → Bool
  recipients_normal [] = true
  recipients_normal (r ∷ rs) = not (is_blank (c.normalize r)) && recipients_normal rs

  abbrev no_recipients : List Bytes → Bool
  no_recipients [] = true
  no_recipients (r ∷ rs) = false

  unfoldable pub recipient_set_complete : Bool
  recipient_set_complete =
      if s.envelope_recipients_truncated || no_recipients s.envelope_recipients
      then false
      else recipients_normal s.envelope_recipients

  -- The visible sender that `finishMessage` sets, and its domain.
  unfoldable pub visible_sender : ℕ → Bytes
  visible_sender count =
      if count == 1 then c.normalize (c.retained_header s.message (codes "From")) else []

  unfoldable pub record_inbound_classification : Bytes → EvaluationResult → Bool → Ending → Ending
  record_inbound_classification sender r satisfied m =
      if bytes_eq r.classification (codes "legitimate")
        || bytes_eq r.classification (codes "unwanted")
      then note
          (classified sender
            (if is_reject r.selected then s.envelope_recipients else policy_envelope_recipients m)
            r.classification r.score satisfied)
          m
      else m

  -- `messagePolicyService.applyPostDecisionUpdates`, step by step.
  abbrev pub rejection_updates : Bytes → EvaluationResult → Ending → Ending
  rejection_updates sender r m =
      if not (is_reject r.selected)
      then m
      else let recorded =
          note
            (recorded_rejection sender s.envelope_sender s.envelope_recipients r.reasons
              (codes "ai"))
            m in
        if not s.authentication.authenticated && not (limited_by_html r)
        then reputation_add recorded
        else recorded

  abbrev pub legitimate_updates : EvaluationResult → Ending → Ending
  legitimate_updates r m =
      if not s.authentication.authenticated
        && not r.failed
        && bytes_eq r.classification (codes "legitimate")
      then record_legitimate_ip m
      else m

  abbrev pub learning_updates : EvaluationResult → Ending → Ending
  learning_updates r m =
      if is_accept r.selected && s.authentication.authenticated
      then note (learned s.envelope_sender (policy_envelope_recipients m)) m
      else m

  abbrev pub correspondent_updates : Bytes → EvaluationResult → Bool → Ending → Ending
  correspondent_updates sender r trusted m =
      if not s.authentication.authenticated
        && not r.failed
        && not (is_blank sender)
        && not (limited_by_html r)
      then record_inbound_classification sender r trusted m
      else m

  unfoldable pub apply_post_decision_updates : Bytes → EvaluationResult → Bool → Ending → Ending
  apply_post_decision_updates sender r trusted m =
      if not (enforces c)
      then m
      else if r.incomplete_inspection
      then (if is_reject r.selected
          then note
              (recorded_rejection sender s.envelope_sender s.envelope_recipients r.reasons
                incomplete_inspection_policy)
              m
          else m)
      else correspondent_updates sender r trusted
          (learning_updates r (legitimate_updates r (rejection_updates sender r m)))
