-- ===== src/Policy/Headers.antt =====
-- internal/milter/result_headers.go, and of internal/message/message.go the counts of headers.
use milter_guard.Prelude.{
  ℕ, suc, Bool, true, false, ◌&&◌, not, List, [], ◌∷◌, ◌++◌, ◌==◌, if◌then◌else◌, replicate,
}
use milter_guard.Prelude.Bytes.{Bytes, codes, bytes_eq, to_lower}
use milter_guard.Wire.Command.{action_add_headers, action_change_headers}
use milter_guard.Session.State.{MessageCall, header_call, body_call, Session, Host}
use milter_guard.Policy.State.{
  Action, is_accept, is_reject, Response, deleted_header, added_header, Ending, Policy, offers,
  emit_all,
}

abbrev pub classification_header : Bytes
classification_header = codes "X-MilterGuard-Classification"

abbrev pub score_header : Bytes
score_header = codes "X-MilterGuard-Score"

abbrev pub confidence_header : Bytes
confidence_header = codes "X-MilterGuard-Confidence"

abbrev pub action_header : Bytes
action_header = codes "X-MilterGuard-Action"

abbrev pub policy_header : Bytes
policy_header = codes "X-MilterGuard-Policy"

abbrev pub accept_mode_action : Bytes
accept_mode_action = codes "accepted-accept-mode"

abbrev pub incomplete_inspection_policy : Bytes
incomplete_inspection_policy = codes "incomplete-inspection"

abbrev pub result_header_names : List Bytes
result_header_names =
    classification_header ∷ score_header ∷ confidence_header ∷ action_header ∷ policy_header ∷ []

-- `strings.ToLower(s)`, as far as it gives ASCII letters: U+0130 becomes `i` and U+212A `k`.
unfoldable pub lower_text : Bytes → Bytes
unfolding to_lower
lower_text [] = []
lower_text (x ∷ []) = to_lower x ∷ []
lower_text (x ∷ y ∷ []) = if x == 0xC4 && y == 0xB0 then b'i' ∷ [] else to_lower x ∷ to_lower y ∷ []
lower_text (x ∷ y ∷ z ∷ rest) =
    let after = lower_text rest in
    let after_two = lower_text (z ∷ rest) in
    let after_one = lower_text (y ∷ z ∷ rest) in
    if x == 0xC4 && y == 0xB0
    then b'i' ∷ after_two
    else if x == 0xE2 && y == 0x84 && z == 0xAA
    then b'k' ∷ after
    else to_lower x ∷ after_one

abbrev pub header_key : Host → Bytes → Bytes
header_key h name = lower_text (h.trim_space name)

-- The headers of a message with a name in lower case.
unfoldable pub count_headers : Host → Bytes → List MessageCall → ℕ
count_headers h key [] = 0
count_headers h key (header_call name value ∷ calls) =
    let rest = count_headers h key calls in
    if bytes_eq (header_key h name) key then suc rest else rest
count_headers h key (body_call body ∷ calls) = count_headers h key calls

-- `HeaderOccurrences` at a name that is counted, and `FromHeaderCount`.
unfoldable pub header_occurrences : Host → List MessageCall → Bytes → ℕ
header_occurrences h message name = count_headers h (header_key h name) message

unfoldable pub from_header_count : Host → List MessageCall → ℕ
from_header_count h message = count_headers h (codes "from") message

-- `ai.Classification`, the error and the rest of an `evaluationResult`; `failed` is `err != nil`.
pub record EvaluationResult : Type 0 where
  pub incomplete_inspection : Bool
  pub proposed : Action
  pub selected : Action
  pub classification : Bytes
  pub score : ℕ
  pub reasons : List Bytes
  pub html_exceeded : Bool
  pub html_cpu_action : Bytes
  pub reject_message : Bytes
  pub failed : Bool

abbrev pub is_blank : Bytes → Bool
is_blank [] = true
is_blank (x ∷ xs) = false

module _ (c : Policy) (s : Session) where
  -- One response for each header of the message that has one of the names.
  unfoldable pub deletions : List Bytes → List Response
  deletions [] = []
  deletions (name ∷ names) =
      replicate (header_occurrences c.host s.message name) (deleted_header name) ++ deletions names

  unfoldable pub additions : List (Bytes × Bytes) → List Response
  additions [] = []
  additions ((name, value) ∷ headers) = added_header name value ∷ additions headers

  abbrev pub add_headers : List (Bytes × Bytes) → Ending → Ending × Bool
  add_headers headers m =
      if offers action_add_headers s then emit_all (additions headers) m else (m, true)

  abbrev pub added_after : List (Bytes × Bytes) → Ending × Bool → Ending × Bool
  added_after headers (m, true) = add_headers headers m
  added_after headers (m, false) = (m, false)

  abbrev pub none_received : List Response → Bool
  none_received [] = true
  none_received (r ∷ rs) = false

  unfoldable pub replace_result_headers : List (Bytes × Bytes) → Ending → Ending × Bool
  replace_result_headers headers m =
      if offers action_change_headers s
      then added_after headers (emit_all (deletions result_header_names) m)
      else if none_received (deletions result_header_names)
      then add_headers headers m
      else (m, true)

  abbrev pub confidence_label : ℕ → Bytes
  confidence_label score =
      if c.score_less score c.low_confidence_score then codes "low" else codes "high"

  -- `writeClassificationHeaders` without a score: no caller has one.
  unfoldable pub write_classification_headers : Bytes → Bytes → Ending → Ending × Bool
  write_classification_headers classification action m =
      replace_result_headers
        ((classification_header, classification)
          ∷ (confidence_header, codes "unavailable")
          ∷ (action_header, action)
          ∷ [])
        m

  unfoldable pub accepted_action : EvaluationResult → Bytes
  accepted_action r =
      if is_reject r.proposed
      then accept_mode_action
      else if bytes_eq r.classification (codes "unwanted")
      then codes "accepted-below-threshold"
      else codes "accepted"

  unfoldable pub write_accepted_bypass_headers : Ending → Ending × Bool
  write_accepted_bypass_headers m =
      if not c.add_email_headers
      then replace_result_headers [] m
      else write_classification_headers (codes "not-scanned") (codes "accepted-bypass") m

  unfoldable pub accepted_result_headers : EvaluationResult → List (Bytes × Bytes)
  accepted_result_headers r =
      if r.incomplete_inspection
      then (classification_header, codes "not-scanned")
        ∷ (confidence_header, codes "unavailable")
        ∷ (action_header, accept_mode_action)
        ∷ (policy_header, incomplete_inspection_policy)
        ∷ []
      else if r.failed && is_accept r.selected
      then (classification_header, codes "unavailable")
        ∷ (confidence_header, codes "unavailable")
        ∷ (action_header, codes "accepted-ai-error")
        ∷ []
      else if is_blank r.classification
      then (classification_header, codes "unavailable")
        ∷ (confidence_header, codes "unavailable")
        ∷ (action_header, accepted_action r)
        ∷ []
      else (classification_header, r.classification)
        ∷ (score_header, c.format_score r.score)
        ∷ (confidence_header, confidence_label r.score)
        ∷ (action_header, accepted_action r)
        ∷ []

  unfoldable pub write_accepted_result_headers : EvaluationResult → Ending → Ending × Bool
  write_accepted_result_headers r m =
      if not c.add_email_headers
      then replace_result_headers [] m
      else replace_result_headers (accepted_result_headers r) m
