-- ===== src/Wire/Macros/Laws.antt =====
-- internal/milter/protocol.go: what `parseSessionMacros` reads, against a list of macros.
use milter_guard.Prelude.{
  ℕ, zero, suc, ◌≤◌, Bool, true, false, Option, none, some, List, [], ◌∷◌, ◌++◌, ◌≡◌, ◌≢◌, inl, inr,
  refl, arith, length, if◌then◌else◌, append_assoc, ◌∙◌, not, >>=-eq-some, guard, Option-cases,
}
use milter_guard.Prelude.Bytes.{Bytes, contains, cut, cut-append, split_last-append}
use milter_guard.Wire.Macros.{
  MacroValues, MacroScan, MacroName, auth_authen, daemon_addr, if_addr, is_empty, ends_in_nul,
  macro_name, scan_macro, scan_pair, scan_pairs, initial_scan, parse_session_macros,
  max_macro_pairs, max_authentication_bytes,
}

-- Macros as the MTA sends them: each name and each value ends in a NUL.
unfoldable pub encode_macros : List (Bytes × Bytes) → Bytes
encode_macros [] = []
encode_macros ((name, value) ∷ ps) = name ++ 0 ∷ (value ++ 0 ∷ encode_macros ps)

-- Names are not empty, and nothing holds a NUL.
abbrev pub AreMacros : List (Bytes × Bytes) → Type 0
AreMacros [] = Unit {0}
AreMacros ((name, value) ∷ ps) =
    (name ≢ []) × (contains 0 name ≡ false) × (contains 0 value ≡ false) × AreMacros ps

-- The switch over the list of macros, with no bytes in sight.
pub scan_macros : List (Bytes × Bytes) → MacroScan → MacroValues × Bool
scan_macros [] s = (s.values, true)
scan_macros ((name, value) ∷ ps) s = elim (scan_macro (macro_name name) value s) [
  | none ↦ (s.values, false)
  | some s' ↦ scan_macros ps s'
]

module _ (x : ℕ) (xs value rest : Bytes) (s : MacroScan) where
  scan_pair-none :
      contains 0 (x ∷ xs) ≡ false
      → contains 0 value ≡ false
      → scan_macro (macro_name (x ∷ xs)) value s ≡ none
      → scan_pair (x ∷ (xs ++ 0 ∷ (value ++ 0 ∷ rest))) s ≡ none
  unfolding scan_pair
  scan_pair-none h k e =
      ground (arith, cut-append 0 (x ∷ xs) (value ++ 0 ∷ rest) h, cut-append 0 value rest k)

  scan_pair-some :
      (s' : MacroScan)
      → contains 0 (x ∷ xs) ≡ false
      → contains 0 value ≡ false
      → scan_macro (macro_name (x ∷ xs)) value s ≡ some s'
      → scan_pair (x ∷ (xs ++ 0 ∷ (value ++ 0 ∷ rest))) s ≡ some (s', rest)
  unfolding scan_pair
  scan_pair-some s' h k e =
      ground (arith, cut-append 0 (x ∷ xs) (value ++ 0 ∷ rest) h, cut-append 0 value rest k)

scan_pairs-encode_macros :
    (rounds : ℕ) (ps : List (Bytes × Bytes)) (s : MacroScan)
    → AreMacros ps
    → length ps ≤ rounds
    → scan_pairs rounds (encode_macros ps) s ≡ scan_macros ps s
unfolding scan_pairs encode_macros scan_macros
scan_pairs-encode_macros zero [] s h fits = refl
scan_pairs-encode_macros (suc rounds) [] s h fits = refl
scan_pairs-encode_macros zero (p ∷ ps) s h fits = absurd (omega arith)
scan_pairs-encode_macros (suc rounds) (([], value) ∷ ps) s h fits = absurd (h.0 refl)
scan_pairs-encode_macros (suc rounds) ((x ∷ xs, value) ∷ ps) s h fits =
    elim (Option-cases (scan_macro (macro_name (x ∷ xs)) value s)) [
      | inl e ↦ ground (arith, scan_pair-none x xs value (encode_macros ps) s h.1 h.2 e)
      | inr (s', e) ↦ ground (
        arith,
        scan_pair-some x xs value (encode_macros ps) s s' h.1 h.2 e,
        scan_pairs-encode_macros rounds ps s' h.3 (omega arith),
      )
    ]

encode_macros-ends :
    (p : Bytes × Bytes) (ps : List (Bytes × Bytes))
    → (front : Bytes) × (encode_macros (p ∷ ps) ≡ front ++ 0 ∷ [])
unfolding encode_macros
encode_macros-ends (name, value) [] = (name ++ 0 ∷ value, rw append_assoc)
encode_macros-ends (name, value) (q ∷ qs) =
    let (front, e) = encode_macros-ends q qs in
    (name ++ 0 ∷ (value ++ 0 ∷ front), rw e (simp append_assoc))

scans_pairs :
    (target : ℕ) (bytes : Bytes)
    → is_empty bytes ≡ false
    → ends_in_nul bytes ≡ true
    → parse_session_macros (target ∷ bytes) ≡ (
        let (values, valid) = scan_pairs max_macro_pairs bytes initial_scan in
        record { target = target; values = values; valid = valid })
unfolding parse_session_macros
scans_pairs target [] filled ends = cc
scans_pairs target (x ∷ xs) filled ends = ground arith

ends_in_nul-encode_macros :
    (p : Bytes × Bytes) (ps : List (Bytes × Bytes)) → ends_in_nul (encode_macros (p ∷ ps)) ≡ true
ends_in_nul-encode_macros p ps =
    let (front, e) = encode_macros-ends p ps in rw e (ground (arith, split_last-append front 0))

-- On up to 128 well-formed macros the payload's parser does what the switch does with the list: it
-- is valid exactly when no macro is refused, and has the same values.
pub parse_session_macros-encode_macros :
    (target : ℕ) (ps : List (Bytes × Bytes))
    → AreMacros ps
    → length ps ≤ max_macro_pairs
    → parse_session_macros (target ∷ encode_macros ps) ≡ (
        let (values, valid) = scan_macros ps initial_scan in
        record { target = target; values = values; valid = valid })
unfolding parse_session_macros
parse_session_macros-encode_macros target [] h fits = unfold encode_macros scan_macros in refl
parse_session_macros-encode_macros target (([], value) ∷ ps) h fits = absurd (h.0 refl)
parse_session_macros-encode_macros target ((x ∷ xs, value) ∷ ps) h fits =
    let ps' = (x ∷ xs, value) ∷ ps in
    rw (← scan_pairs-encode_macros max_macro_pairs ps' initial_scan h fits) (
      scans_pairs target (encode_macros ps') (unfold encode_macros in refl)
        (ends_in_nul-encode_macros (x ∷ xs, value) ps))

-- No value is longer than its limit.
abbrev pub WithinLimits : MacroValues → Type 0
WithinLimits v =
    (length v.authentication_identity ≤ max_authentication_bytes)
    × (length v.mta_hostname ≤ 253)
    × (length v.receiver_address ≤ 64)

scan_macro-WithinLimits :
    (m : MacroName) (value : Bytes) (s s' : MacroScan)
    → WithinLimits s.values
    → scan_macro m value s ≡ some s'
    → WithinLimits s'.values
unfolding scan_macro
scan_macro-WithinLimits auth_authen value s s' h e = ground arith
scan_macro-WithinLimits _ value s s' h e = ground arith

scan_pair-WithinLimits :
    (bytes rest : Bytes) (s s' : MacroScan)
    → WithinLimits s.values
    → scan_pair bytes s ≡ some (s', rest)
    → WithinLimits s'.values
unfolding scan_pair
scan_pair-WithinLimits bytes rest s s' h e =
    let ((name, after), _, e₁) = >>=-eq-some (cut 0 bytes) _ e in
    let (_, _, e₂) = >>=-eq-some (guard (not (is_empty name))) _ e₁ in
    let ((value, left), _, e₃) = >>=-eq-some (cut 0 after) _ e₂ in
    let (t, kept, e₄) = >>=-eq-some (scan_macro (macro_name name) value s) _ e₃ in
    ground (arith, scan_macro-WithinLimits (macro_name name) value s t h kept)

scan_pairs-WithinLimits :
    (rounds : ℕ) (bytes : Bytes) (s : MacroScan)
    → WithinLimits s.values
    → WithinLimits (scan_pairs rounds bytes s).0
unfolding scan_pairs
scan_pairs-WithinLimits zero [] s h = h
scan_pairs-WithinLimits (suc rounds) [] s h = h
scan_pairs-WithinLimits zero (x ∷ xs) s h = h
scan_pairs-WithinLimits (suc rounds) (x ∷ xs) s h = elim (Option-cases (scan_pair (x ∷ xs) s)) [
  | inl e ↦ ground arith
  | inr ((s', rest), e) ↦ ground (
    arith,
    scan_pairs-WithinLimits rounds rest s' (scan_pair-WithinLimits (x ∷ xs) rest s s' h e),
  )
]

-- Whatever the payload, valid or not, no value that is returned exceeds its limit.
pub parse_session_macros-WithinLimits :
    (payload : Bytes) → WithinLimits (parse_session_macros payload).values
unfolding parse_session_macros
parse_session_macros-WithinLimits [] = omega arith
parse_session_macros-WithinLimits (target ∷ []) = omega arith
parse_session_macros-WithinLimits (target ∷ x ∷ xs) =
    ground (arith, scan_pairs-WithinLimits max_macro_pairs (x ∷ xs) initial_scan)

-- The value of the first macro of a kind.
abbrev pub interface_value : List (Bytes × Bytes) → Option Bytes
interface_value [] = none
interface_value ((name, value) ∷ ps) = elim (macro_name name) [
  | if_addr ↦ some value
  | _ ↦ interface_value ps
]

abbrev pub daemon_value : List (Bytes × Bytes) → Option Bytes
daemon_value [] = none
daemon_value ((name, value) ∷ ps) = elim (macro_name name) [
  | daemon_addr ↦ some value
  | _ ↦ daemon_value ps
]

-- The first value that is there.
abbrev pub or_else : Option Bytes → Bytes → Bytes
or_else none b = b
or_else (some a) b = a

-- The receiver address of a valid list of macros, read from the state `s`.
abbrev receiver_from : List (Bytes × Bytes) → MacroScan → Bytes
receiver_from ps s =
    if s.interface_address_found
    then s.values.receiver_address
    else or_else (interface_value ps) (
        if s.daemon_address_found
        then s.values.receiver_address
        else or_else (daemon_value ps) s.values.receiver_address)

receiver_step :
    (m : MacroName) (name value : Bytes) (ps : List (Bytes × Bytes)) (s s' : MacroScan)
    → macro_name name ≡ m
    → scan_macro m value s ≡ some s'
    → receiver_from ps s' ≡ receiver_from ((name, value) ∷ ps) s
unfolding scan_macro
receiver_step auth_authen name value ps s s' e h = ground arith
receiver_step _ name value ps s s' e h = ground arith

scan_macros-receiver :
    (ps : List (Bytes × Bytes)) (s : MacroScan) (v : MacroValues)
    → scan_macros ps s ≡ (v, true)
    → v.receiver_address ≡ receiver_from ps s
unfolding scan_macros
scan_macros-receiver [] s v e = ground arith
scan_macros-receiver ((name, value) ∷ ps) s v e =
    elim (Option-cases (scan_macro (macro_name name) value s)) [
      | inl none_left ↦ absurd (ground arith)
      | inr (s', e') ↦
          scan_macros-receiver ps s' v (ground arith)
          ∙ receiver_step (macro_name name) name value ps s s' refl e'
    ]

-- On a list of up to 128 well-formed macros of which none is refused, the receiver address is the value of the interface macro, wherever it
-- stands among the others; without one, that of the daemon macro; without either, empty.
pub parse_session_macros_receiver :
    (target : ℕ) (ps : List (Bytes × Bytes))
    → AreMacros ps
    → length ps ≤ max_macro_pairs
    → (parse_session_macros (target ∷ encode_macros ps)).valid ≡ true
    → (parse_session_macros (target ∷ encode_macros ps)).values.receiver_address
      ≡ or_else (interface_value ps) (or_else (daemon_value ps) [])
parse_session_macros_receiver target ps h fits valid =
    let e = parse_session_macros-encode_macros target ps h fits in
    let (v, done) = scan_macros ps initial_scan in
    rw e (scan_macros-receiver ps initial_scan v (ground arith))
