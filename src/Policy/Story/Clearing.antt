-- ===== src/Policy/Story/Clearing.antt =====
-- internal/milter/result_headers.go: the headers that are removed, and those that the message has.
use milter_guard.Prelude.{
  ℕ, zero, suc, ◌+◌, ◌≤◌, true, List, [], ◌∷◌, ◌++◌, ◌≡◌, refl, arith, replicate, Bool-cases, inl,
  inr,
}
use milter_guard.Prelude.Bytes.{Bytes, bytes_eq_iff}
use milter_guard.Session.State.{Session}
use milter_guard.Policy.State.{
  Response, deleted_header, Event, responded, Ending, Policy, emit, emit_all,
}
use milter_guard.Policy.Headers.{header_occurrences, deletions}
use milter_guard.Policy.Story.{clears, cleared_headers, all_cleared}

-- The removals of a name among responses.
removals : Bytes → List Response → ℕ
removals name [] = 0
removals name (r ∷ rs) = clears name (responded r true) + removals name rs

removals-append :
    (name : Bytes) (rs qs : List Response)
    → removals name (rs ++ qs) ≡ removals name rs + removals name qs
unfolding removals
removals-append name [] qs = omega arith
removals-append name (r ∷ rs) qs = omega (arith, removals-append name rs qs)

removals-replicate : (name : Bytes) (n : ℕ) → removals name (replicate n (deleted_header name)) ≡ n
unfolding removals
removals-replicate name zero = refl
removals-replicate name (suc n) =
    ground (arith, (bytes_eq_iff name name).1 refl, removals-replicate name n)

cleared_headers-emit :
    (name : Bytes) (r : Response) (m : Ending)
    → (emit r m).1 ≡ true
    → cleared_headers name (emit r m).0.events
      ≡ clears name (responded r true) + cleared_headers name m.events
unfolding emit cleared_headers
cleared_headers-emit name r m e = rw (e) refl

cleared_headers-emit_all :
    (name : Bytes) (rs : List Response) (m : Ending)
    → (emit_all rs m).1 ≡ true
    → removals name rs + cleared_headers name m.events
      ≤ cleared_headers name (emit_all rs m).0.events
unfolding removals emit_all
cleared_headers-emit_all name [] m e = omega arith
cleared_headers-emit_all name (r ∷ rs) m e = elim (Bool-cases (emit r m).1) [
  | inl f ↦
      let rest = cleared_headers-emit_all name rs (emit r m).0 (ground (arith, e, f)) in
      rw (f) (omega (arith, rest, cleared_headers-emit name r m f))
  | inr f ↦ absurd (ground (arith, e, f))
]

module _ (c : Policy) (s : Session) where
  -- Where the removals of each name are at least those that the names ask for, the names are cleared.
  all_cleared-deletions :
      (names : List Bytes) (es : List Event)
      → ((name : Bytes) → removals name (deletions c s names) ≤ cleared_headers name es)
      → all_cleared c s names es ≡ true
  unfolding deletions all_cleared
  all_cleared-deletions [] es f = refl
  all_cleared-deletions (name ∷ names) es f =
      let n = header_occurrences c.host s.message name in
      let own : n ≤ cleared_headers name es = omega (
        arith,
        f name,
        removals-append name (replicate n (deleted_header name)) (deletions c s names),
        removals-replicate name n,
      ) in
      let rest = all_cleared-deletions names es (λ other. omega (
        arith,
        f other,
        removals-append other (replicate n (deleted_header name)) (deletions c s names),
      )) in
      ground (arith, own, rest)

  pub all_cleared-cons :
      (names : List Bytes) (e : Event) (es : List Event)
      → all_cleared c s names es ≡ true
      → all_cleared c s names (e ∷ es) ≡ true
  unfolding all_cleared cleared_headers
  all_cleared-cons [] e es h = refl
  all_cleared-cons (name ∷ names) e es h =
      let head : header_occurrences c.host s.message name ≤ cleared_headers name es =
        ground (arith, h) in
      let rest = all_cleared-cons names e es (ground (arith, h)) in
      let bound : header_occurrences c.host s.message name
          ≤ clears name e + cleared_headers name es =
        omega (arith, head) in
      ground (arith, bound, rest)

  pub all_cleared-emit_all :
      (names : List Bytes) (m : Ending)
      → (emit_all (deletions c s names) m).1 ≡ true
      → all_cleared c s names (emit_all (deletions c s names) m).0.events ≡ true
  all_cleared-emit_all names m e =
      all_cleared-deletions names _
        (λ name. omega (arith, cleared_headers-emit_all name (deletions c s names) m e))

  pub all_cleared-none :
      (names : List Bytes) (es : List Event)
      → deletions c s names ≡ []
      → all_cleared c s names es ≡ true
  unfolding removals
  all_cleared-none names es e = all_cleared-deletions names es (λ name. rw (e) (omega arith))
