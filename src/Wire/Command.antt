-- ===== src/Wire/Command.antt =====
-- internal/milter/protocol.go: the command bytes, and the response bytes that the model writes.
use milter_guard.Prelude.{ℕ, ◌+◌, ◌*◌, ◌^◌, ◌/◌, ◌%◌, ◌==◌, [], ◌∷◌, ◌++◌, if◌then◌else◌}
use milter_guard.Prelude.Bytes.{Bytes}

-- `unsupported` stands for every other byte.
pub data Command : Type 0 where
  abort body connect macro end_body helo header mail end_headers option_negotiation : Command
  quit_milter_connection recipient transfer unknown quit_smtp_connection : Command
  unsupported : ℕ → Command

unfoldable pub command_of : ℕ → Command
command_of b =
    if b == b'A'
    then abort
    else if b == b'B'
    then body
    else if b == b'C'
    then connect
    else if b == b'D'
    then macro
    else if b == b'E'
    then end_body
    else if b == b'H'
    then helo
    else if b == b'L'
    then header
    else if b == b'M'
    then mail
    else if b == b'N'
    then end_headers
    else if b == b'O'
    then option_negotiation
    else if b == b'Q'
    then quit_milter_connection
    else if b == b'R'
    then recipient
    else if b == b'T'
    then transfer
    else if b == b'U'
    then unknown
    else if b == b'K'
    then quit_smtp_connection
    else unsupported b

-- The action flags of the negotiation, as bit masks.
abbrev pub action_add_headers : ℕ
action_add_headers = 0x01

abbrev pub action_change_headers : ℕ
action_change_headers = 0x10

abbrev pub action_delete_recipient : ℕ
action_delete_recipient = 0x08

-- `binary.BigEndian.PutUint32` into four bytes, and `Uint32` of four bytes.
unfoldable pub put_u32 : ℕ → Bytes
put_u32 n = n / 2 ^ 24 % 256 ∷ n / 2 ^ 16 % 256 ∷ n / 2 ^ 8 % 256 ∷ n % 256 ∷ []

unfoldable pub u32 : Bytes → ℕ
u32 (a ∷ b ∷ c ∷ d ∷ _) = a * 2 ^ 24 + b * 2 ^ 16 + c * 2 ^ 8 + d
u32 _ = 0

-- The responses.
abbrev pub continue_response : Bytes
continue_response = b'c' ∷ []

abbrev pub progress_response : Bytes
progress_response = b'p' ∷ []

unfoldable pub option_response : ℕ → ℕ → Bytes
option_response version actions = b'O' ∷ (put_u32 version ++ (put_u32 actions ++ put_u32 0))

unfoldable pub add_header_response : Bytes → Bytes → Bytes
add_header_response name value = b'h' ∷ (name ++ 0 ∷ (value ++ 0 ∷ []))

unfoldable pub delete_header_response : Bytes → Bytes
delete_header_response name = b'm' ∷ (put_u32 1 ++ (name ++ 0 ∷ 0 ∷ []))

unfoldable pub delete_recipient_response : Bytes → Bytes
delete_recipient_response address = b'-' ∷ (address ++ 0 ∷ [])
