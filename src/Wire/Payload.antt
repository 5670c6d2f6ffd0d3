-- ===== src/Wire/Payload.antt =====
-- internal/milter/protocol.go: the payloads of single commands.
pub mod Language
use milter_guard.Prelude.{
  ℕ, zero, suc, ◌+◌, Bool, true, false, ◌&&◌, ◌||◌, not, Option, none, some, List, [], ◌∷◌, ◌++◌,
  ◌==◌, if◌then◌else◌, length,
}
use milter_guard.Prelude.Bytes.{Bytes, codes, contains, cut, split_last, equal_fold}

abbrev is_empty : Bytes → Bool
is_empty [] = true
is_empty (x ∷ xs) = false

-- `value` is what stands before the last byte, which must be the only NUL.
abbrev terminated : Bytes → Option Bytes
terminated s = elim (split_last s) [
  | none ↦ none
  | some (value, last) ↦ if not (last == 0) || contains 0 value then none else some value
]

unfoldable pub parse_header : Bytes → Option (Bytes × Bytes)
parse_header payload = elim (cut 0 payload) [
  | none ↦ none
  | some (name, remainder) ↦
      if is_empty name
      then none
      else elim (terminated remainder) [ none ↦ none | some value ↦ some (name, value) ]
]

unfoldable pub parse_envelope_address : Bytes → Option Bytes
parse_envelope_address payload = elim (cut 0 payload) [
  | none ↦ none
  | some (address, _) ↦ if is_empty address then none else some address
]

abbrev keyword : Bytes → Bytes
keyword argument = elim (cut b'=' argument) [ none ↦ argument | some (name, _) ↦ name ]

-- The loop of `envelopeHasSMTPUTF8` reads one argument a round, so the argument's bytes bound it.
smtp_utf8_among : ℕ → Bytes → Bool
smtp_utf8_among zero arguments = false
smtp_utf8_among (suc rounds) arguments = elim (cut 0 arguments) [
  | none ↦ false
  | some (argument, remainder) ↦
      let rest = smtp_utf8_among rounds remainder in
      if equal_fold (keyword argument) (codes "SMTPUTF8") then true else rest
]

unfoldable pub envelope_has_smtp_utf8 : Bytes → Bool
unfolding smtp_utf8_among
envelope_has_smtp_utf8 payload = elim (cut 0 payload) [
  | none ↦ false
  | some (_, arguments) ↦ smtp_utf8_among (length arguments) arguments
]

unfoldable pub parse_connect_hostname : Bytes → Option Bytes
parse_connect_hostname payload = elim (cut 0 payload) [
  | none ↦ none
  | some (hostname, _) ↦ some hostname
]

unfoldable pub parse_smtp_identity : Bytes → Option Bytes
parse_smtp_identity payload = terminated payload
