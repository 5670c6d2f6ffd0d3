-- ===== src/Wire/Macros.antt =====
-- internal/milter/protocol.go: `parseSessionMacros`.
pub mod Laws
use milter_guard.Prelude.{
  ℕ, zero, suc, Bool, true, false, ◌||◌, Option, none, some, List, [], ◌∷◌, ◌++◌, ◌==◌, ltb, not,
  if◌then◌else◌, length, ◌>>=◌, ◌>>◌, guard,
}
use milter_guard.Prelude.Bytes.{Bytes, codes, cut, split_last, equal_fold, trim_set}

abbrev pub max_macro_pairs : ℕ
max_macro_pairs = 128

abbrev pub max_authentication_bytes : ℕ
max_authentication_bytes = 1024

pub record MacroValues : Type 0 where
  pub authentication_identity : Bytes
  pub mta_hostname : Bytes
  pub receiver_address : Bytes
  pub authentication_found : Bool
  pub mta_hostname_found : Bool
  pub receiver_address_found : Bool

-- The named results, with the two local flags of the loop.
pub record MacroScan : Type 0 where
  pub values : MacroValues
  pub daemon_address_found : Bool
  pub interface_address_found : Bool

abbrev pub no_values : MacroValues
no_values = record {
  authentication_identity = [];
  mta_hostname = [];
  receiver_address = [];
  authentication_found = false;
  mta_hostname_found = false;
  receiver_address_found = false;
}

abbrev pub initial_scan : MacroScan
initial_scan = record {
  values = no_values;
  daemon_address_found = false;
  interface_address_found = false;
}

-- The macros that the loop tells apart; every other name is passed over.
pub data MacroName : Type 0 where
  auth_authen mta_name daemon_addr if_addr other : MacroName

unfoldable pub macro_name : Bytes → MacroName
macro_name name =
    let bare = trim_set (codes "{}") name in
    if equal_fold bare (codes "auth_authen")
    then auth_authen
    else if equal_fold bare (codes "j")
    then mta_name
    else if equal_fold bare (codes "daemon_addr")
    then daemon_addr
    else if equal_fold bare (codes "if_addr")
    then if_addr
    else other

-- The body of the switch; `none` is a macro that is refused.
unfoldable pub scan_macro : MacroName → Bytes → MacroScan → Option MacroScan
scan_macro auth_authen value s =
    if s.values.authentication_found || ltb max_authentication_bytes (length value)
    then none
    else some (record s {
      values = record (s.values) { authentication_identity = value; authentication_found = true };
    })
scan_macro mta_name value s =
    if s.values.mta_hostname_found || ltb 253 (length value)
    then none
    else some (record s {
      values = record (s.values) { mta_hostname = value; mta_hostname_found = true };
    })
scan_macro daemon_addr value s =
    if s.daemon_address_found || ltb 64 (length value)
    then none
    else some (record s {
      values = record (s.values) {
        receiver_address = if s.interface_address_found then s.values.receiver_address else value;
        receiver_address_found = true;
      };
      daemon_address_found = true;
    })
scan_macro if_addr value s =
    if s.interface_address_found || ltb 64 (length value)
    then none
    else some (record s {
      values = record (s.values) { receiver_address = value; receiver_address_found = true };
      interface_address_found = true;
    })
scan_macro other value s = some s

abbrev is_empty : Bytes → Bool
is_empty [] = true
is_empty (x ∷ xs) = false

-- One round of the loop: the scan after it and the bytes that remain, or none where it refuses.
unfoldable pub scan_pair : Bytes → MacroScan → Option (MacroScan × Bytes)
scan_pair bytes s = do
  (name, rest) ← cut 0 bytes
  guard (not (is_empty name))
  (value, remainder) ← cut 0 rest
  s' ← scan_macro (macro_name name) value s
  some (s', remainder)

-- `rounds` is `maxMacroPairs - pairs`.
unfoldable pub scan_pairs : ℕ → Bytes → MacroScan → MacroValues × Bool
scan_pairs rounds [] s = (s.values, true)
scan_pairs zero (x ∷ xs) s = (s.values, false)
scan_pairs (suc rounds) (x ∷ xs) s = elim (scan_pair (x ∷ xs) s) [
  | none ↦ (s.values, false)
  | some (s', remainder) ↦ scan_pairs rounds remainder s'
]

-- The target, the values, and whether the payload is well formed.
pub record Macros : Type 0 where
  pub target : ℕ
  pub values : MacroValues
  pub valid : Bool

abbrev ends_in_nul : Bytes → Bool
ends_in_nul s = elim (split_last s) [ none ↦ false | some (_, last) ↦ last == 0 ]

unfoldable pub parse_session_macros : Bytes → Macros
unfolding scan_pairs scan_pair
parse_session_macros [] = record { target = 0; values = no_values; valid = false }
parse_session_macros (target ∷ []) = record { target = target; values = no_values; valid = true }
parse_session_macros (target ∷ x ∷ xs) =
    if not (ends_in_nul (x ∷ xs))
    then record { target = target; values = no_values; valid = false }
    else let (values, valid) = scan_pairs max_macro_pairs (x ∷ xs) initial_scan in
      record { target = target; values = values; valid = valid }
