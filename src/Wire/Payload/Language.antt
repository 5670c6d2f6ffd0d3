-- ===== src/Wire/Payload/Language.antt =====
-- internal/milter/protocol.go: which payloads the parsers accept, and what they return.
use milter_guard.Prelude.{false, some, [], ◌∷◌, ◌++◌, ◌≡◌, ◌≢◌, ◌↔◌, inl, inr, refl, arith, ==_iff}
use milter_guard.Prelude.Bytes.{
  Bytes, contains, cut-append, cut-cases, split_last-append, split_last-cases,
}
use milter_guard.Wire.Payload.{is_empty, terminated, parse_header, parse_smtp_identity}

terminated-append : (v : Bytes) → contains 0 v ≡ false → terminated (v ++ 0 ∷ []) ≡ some v
terminated-append v h = ground (arith, split_last-append v 0)

terminated-eq-some :
    (s v : Bytes) → terminated s ≡ some v → (s ≡ v ++ 0 ∷ []) × (contains 0 v ≡ false)
terminated-eq-some s v h = elim (split_last-cases s) [
  | inl (e, none_left) ↦ absurd (cc)
  | inr (a, x, e, split) ↦ ground (arith, ==_iff x 0)
]

is_empty-eq-false : (s : Bytes) → s ≢ [] → is_empty s ≡ false
is_empty-eq-false [] h = absurd (h refl)
is_empty-eq-false (x ∷ xs) h = refl

-- A header payload is accepted exactly when it is a name, a NUL, a value and a NUL, where the name
-- is not empty and neither part holds a NUL; the result is these two parts.
pub parse_header_iff :
    (payload name value : Bytes)
    → (parse_header payload ≡ some (name, value)) ↔ (
        (payload ≡ name ++ 0 ∷ (value ++ 0 ∷ []))
        × (name ≢ [])
        × (contains 0 name ≡ false)
        × (contains 0 value ≡ false))
unfolding parse_header
parse_header_iff payload name value = (there, back)
  where
    there :
        parse_header payload ≡ some (name, value)
        → (payload ≡ name ++ 0 ∷ (value ++ 0 ∷ []))
          × (name ≢ [])
          × (contains 0 name ≡ false)
          × (contains 0 value ≡ false)
    there h = elim (cut-cases 0 payload) [
      | inl (e, _) ↦ absurd (cc)
      | inr (a, b, e, split, clean) ↦ ground (arith, terminated-eq-some b value)
    ]

    back :
        (payload ≡ name ++ 0 ∷ (value ++ 0 ∷ []))
          × (name ≢ [])
          × (contains 0 name ≡ false)
          × (contains 0 value ≡ false)
        → parse_header payload ≡ some (name, value)
    back (e, filled, clean, clean') = rw e (
        ground (
          arith,
          cut-append 0 name (value ++ 0 ∷ []),
          terminated-append value,
          is_empty-eq-false name filled,
        ))

-- An identity payload is accepted exactly when it is the identity and a NUL, with no other NUL.
pub parse_smtp_identity_iff :
    (payload identity : Bytes)
    → (parse_smtp_identity payload ≡ some identity)
      ↔ ((payload ≡ identity ++ 0 ∷ []) × (contains 0 identity ≡ false))
unfolding parse_smtp_identity
parse_smtp_identity_iff payload identity =
    (terminated-eq-some payload identity, λ (e, clean). rw e (terminated-append identity clean))
