-- ===== src/Policy/Promises/Lines.antt =====
-- internal/milter/email_commands.go: how many commands a message gives, and which.
use milter_guard.Prelude.{
  ◌+◌, ◌≤◌, ◌<◌, Bool, true, false, ◌&&◌, not, Option, none, some, List, [], ◌∷◌, ◌++◌, ◌≡◌, refl,
  arith, ◌==◌, length, length-append, if-cases, elim-cases,
}
use milter_guard.Prelude.Bytes.{Bytes}
use milter_guard.Policy.State.{AdminCommand, command_line, parse_error}
use milter_guard.Policy.Commands.{
  max_commands_per_message, no_commands, Collected, collected, invalid_command, collect_commands,
}

abbrev fails : Option Bytes → Bool
fails none = false
fails (some error) = true

-- A line among the commands was parsed, and an error belongs to a line that was not.
abbrev fits_line : (Bytes → Option Bytes) → AdminCommand → Bool
fits_line failure (command_line line) = not (fails (failure line))
fits_line failure (parse_error line error) = fails (failure line)

unfoldable pub all_fit : (Bytes → Option Bytes) → List AdminCommand → Bool
all_fit failure [] = true
all_fit failure (x ∷ xs) = fits_line failure x && all_fit failure xs

-- The commands that are carried out: none where a reply says that the message is invalid.
abbrev pub commands_of : Collected → List AdminCommand
commands_of (collected commands) = commands
commands_of (invalid_command error) = []

all_fit-append :
    (failure : Bytes → Option Bytes) (xs : List AdminCommand) (x : AdminCommand)
    → all_fit failure xs ≡ true
    → fits_line failure x ≡ true
    → all_fit failure (xs ++ x ∷ []) ≡ true
unfolding all_fit
all_fit-append failure [] x h k = ground (arith, k)
all_fit-append failure (y ∷ ys) x h k = ground (arith, h, all_fit-append failure ys x)

none_fit : (failure : Bytes → Option Bytes) → all_fit failure [] ≡ true
unfolding all_fit
none_fit failure = refl

module _ (failure : Bytes → Option Bytes) (recognized : Bytes → Bool) where
  abbrev InOrder : Collected → Type 0
  InOrder found =
      (length (commands_of found) ≤ max_commands_per_message)
      × (all_fit failure (commands_of found) ≡ true)

  collect_commands-InOrder :
      (commands : List AdminCommand) (lines : List Bytes)
      → length commands < max_commands_per_message
      → all_fit failure commands ≡ true
      → InOrder (collect_commands failure recognized commands lines)
  unfolding collect_commands
  collect_commands-InOrder commands [] l h = (omega (arith, l), h)
  collect_commands-InOrder commands (line ∷ lines) l h =
      let more = commands ++ command_line line ∷ [] in
      let longer : length more ≡ length commands + 1 =
        omega (arith, length-append commands (command_line line ∷ [])) in
      elim-cases InOrder (failure line)
        (λ e.
          let fit : all_fit failure more ≡ true =
            all_fit-append failure commands (command_line line) h (ground (arith, e)) in
          if-cases InOrder (length more == max_commands_per_message)
            (λ full. (omega (arith, longer, l), fit))
            (λ on. collect_commands-InOrder more lines (ground (arith, longer, l, on)) fit))
        (λ error e.
          if-cases InOrder (no_commands commands) (λ n. (omega arith, none_fit failure))
            (λ n.
              if-cases InOrder (recognized line)
                (λ r. (
                  omega (arith, l, length-append commands (parse_error line error ∷ [])),
                  all_fit-append failure commands (parse_error line error) h (ground (arith, e)),
                ))
                (λ r. (omega (arith, l), h))))

-- A message gives at most a hundred commands; each of them is a line that the parser takes, or reports a line that it
-- does not take.
pub collect_commands_lem :
    (failure : Bytes → Option Bytes) (recognized : Bytes → Bool) (lines : List Bytes)
    → (length (commands_of (collect_commands failure recognized [] lines))
        ≤ max_commands_per_message)
      × (all_fit failure (commands_of (collect_commands failure recognized [] lines)) ≡ true)
collect_commands_lem failure recognized lines =
    collect_commands-InOrder failure recognized [] lines (omega arith) (none_fit failure)
