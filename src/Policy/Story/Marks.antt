-- ===== src/Policy/Story/Marks.antt =====
-- internal/milter/result_headers.go: the result headers, against the account.
use milter_guard.Prelude.{
  ℕ, zero, suc, Bool, true, false, ◌&&◌, not, List, [], ◌∷◌, ◌++◌, ◌≡◌, inl, inr, ◌⊎◌, refl, arith,
  if◌then◌else◌, ◌||◌, if-cases, Bool-cases, replicate,
}
use milter_guard.Prelude.Bytes.{Bytes, codes}
use milter_guard.Wire.Command.{action_add_headers, action_change_headers}
use milter_guard.Wire.Frame.{write_frame}
use milter_guard.Session.State.{Session}
use milter_guard.Policy.State.{
  Response, deleted_header, added_header, Ending, Policy, offers, frame_of, emit, emit_all,
}
use milter_guard.Policy.Headers.{
  EvaluationResult, result_header_names, header_occurrences, deletions, additions, add_headers,
  added_after, none_received, replace_result_headers, write_classification_headers,
  write_accepted_bypass_headers, accepted_result_headers, write_accepted_result_headers,
}
use milter_guard.Policy.Story.{allowed_change, allowed_mark, all_cleared}
use milter_guard.Policy.Story.Clearing.{all_cleared-cons, all_cleared-emit_all, all_cleared-none}
use milter_guard.Policy.Story.Answers.{
  Ready, Sent, SentAs, AllAllowed, emit_all-Sent, emit-mark-Sent,
}

module _ (c : Policy) (s : Session) where
  AllAllowed-append :
      (rs qs : List Response) → AllAllowed c s rs → AllAllowed c s qs → AllAllowed c s (rs ++ qs)
  unfolding AllAllowed
  AllAllowed-append [] qs a b = b
  AllAllowed-append (r ∷ rs) qs (a, all) b = (a, AllAllowed-append rs qs all b)

  pub AllAllowed-replicate :
      (n : ℕ) (r : Response) → allowed_change c s r ≡ true → AllAllowed c s (replicate n r)
  unfolding AllAllowed
  AllAllowed-replicate zero r a = tt
  AllAllowed-replicate (suc n) r a = (a, AllAllowed-replicate n r a)

  deletions-AllAllowed :
      (names : List Bytes)
      → offers action_change_headers s ≡ true
      → AllAllowed c s (deletions c s names)
  unfolding AllAllowed deletions allowed_change
  deletions-AllAllowed [] o = tt
  deletions-AllAllowed (name ∷ names) o =
      AllAllowed-append (replicate (header_occurrences c.host s.message name) (deleted_header name))
        (deletions c s names)
        (AllAllowed-replicate (header_occurrences c.host s.message name) (deleted_header name) o)
        (deletions-AllAllowed names o)

  -- Up to the first addition that is not sent.
  go_on_adding :
      (name value : Bytes) (headers : List (Bytes × Bytes)) (sent : Bool) (m : Ending)
      → SentAs c s sent m
      → all_cleared c s result_header_names m.events ≡ true
      → ((m' : Ending)
          → Ready c s m'
          → all_cleared c s result_header_names m'.events ≡ true
          → Sent c s (emit_all (additions c s headers) m'))
      → Sent c s (if sent then emit_all (additions c s headers) m else (m, false))
  go_on_adding name value headers true m ready k f = f m ready k
  go_on_adding name value headers false m story k f = story

  additions-Sent :
      (headers : List (Bytes × Bytes)) (m : Ending)
      → (offers action_add_headers s && c.add_email_headers) ≡ true
      → all_cleared c s result_header_names m.events ≡ true
      → Ready c s m
      → Sent c s (emit_all (additions c s headers) m)
  unfolding additions emit_all emit allowed_mark
  additions-Sent [] m o k ready = ready
  additions-Sent ((name, value) ∷ headers) m o k ready =
      go_on_adding name value headers (write_frame m.conn (frame_of (added_header name value))).1
        (emit (added_header name value) m).0
        (emit-mark-Sent c s name value m (ground (arith, o, k)) ready)
        (all_cleared-cons c s result_header_names _ m.events k)
        (λ m' ready' k'. additions-Sent headers m' o k' ready')

  add_headers-Sent :
      (headers : List (Bytes × Bytes)) (m : Ending)
      → (headers ≡ []) ⊎ (c.add_email_headers ≡ true)
      → all_cleared c s result_header_names m.events ≡ true
      → Ready c s m
      → Sent c s (add_headers c s headers m)
  unfolding additions emit_all
  add_headers-Sent headers m (inl none) k ready =
      if-cases (Sent c s) (offers action_add_headers s) (λ o. rw (none) ready) (λ o. ready)
  add_headers-Sent headers m (inr e) k ready =
      if-cases (Sent c s) (offers action_add_headers s)
        (λ o. additions-Sent headers m (ground (arith, o, e)) k ready) (λ o. ready)

  after_deletions :
      (headers : List (Bytes × Bytes)) (o : Ending × Bool)
      → (headers ≡ []) ⊎ (c.add_email_headers ≡ true)
      → (not o.1 || all_cleared c s result_header_names o.0.events) ≡ true
      → Sent c s o
      → Sent c s (added_after c s headers o)
  after_deletions headers (m, true) e k ready =
      add_headers-Sent headers m e (ground (arith, k)) ready
  after_deletions headers (m, false) e k story = story

  all_deletions :
      (m : Ending)
      → (not (emit_all (deletions c s result_header_names) m).1
          || all_cleared c s result_header_names
              (emit_all (deletions c s result_header_names) m).0.events)
        ≡ true
  all_deletions m = elim (Bool-cases (emit_all (deletions c s result_header_names) m).1) [
    | inl e ↦ ground (arith, all_cleared-emit_all c s result_header_names m e)
    | inr e ↦ ground (arith, e)
  ]

  none_received-nil : (rs : List Response) → none_received c s rs ≡ true → rs ≡ []
  none_received-nil [] e = refl
  none_received-nil (r ∷ rs) e = absurd (cc)

  pub replace_result_headers-Sent :
      (headers : List (Bytes × Bytes)) (m : Ending)
      → (headers ≡ []) ⊎ (c.add_email_headers ≡ true)
      → Ready c s m
      → Sent c s (replace_result_headers c s headers m)
  unfolding replace_result_headers
  replace_result_headers-Sent headers m e ready =
      if-cases (Sent c s) (offers action_change_headers s)
        (λ o.
          after_deletions headers (emit_all (deletions c s result_header_names) m) e
            (all_deletions m)
            (emit_all-Sent c s (deletions c s result_header_names) m
              (deletions-AllAllowed result_header_names o) ready))
        (λ o.
          if-cases (Sent c s) (none_received c s (deletions c s result_header_names))
            (λ n.
              add_headers-Sent headers m e
                (all_cleared-none c s result_header_names m.events (none_received-nil _ n)) ready)
            (λ n. ready))

  pub write_classification_headers-Sent :
      (classification action : Bytes) (m : Ending)
      → c.add_email_headers ≡ true
      → Ready c s m
      → Sent c s (write_classification_headers c s classification action m)
  unfolding write_classification_headers
  write_classification_headers-Sent classification action m e ready =
      replace_result_headers-Sent _ m (inr e) ready

  pub write_accepted_bypass_headers-Sent :
      (m : Ending) → Ready c s m → Sent c s (write_accepted_bypass_headers c s m)
  unfolding write_accepted_bypass_headers
  write_accepted_bypass_headers-Sent m ready =
      if-cases (Sent c s) (not c.add_email_headers)
        (λ e. replace_result_headers-Sent [] m (inl refl) ready)
        (λ e.
          write_classification_headers-Sent (codes "not-scanned") (codes "accepted-bypass") m
            (ground (arith, e)) ready)

  pub write_accepted_result_headers-Sent :
      (r : EvaluationResult) (m : Ending)
      → Ready c s m
      → Sent c s (write_accepted_result_headers c s r m)
  unfolding write_accepted_result_headers
  write_accepted_result_headers-Sent r m ready =
      if-cases (Sent c s) (not c.add_email_headers)
        (λ e. replace_result_headers-Sent [] m (inl refl) ready)
        (λ e.
          replace_result_headers-Sent (accepted_result_headers c s r) m (inr (ground (arith, e)))
            ready)
