-- ===== src/Wire/Reply.antt =====
-- internal/milter/protocol.go: `replyCode` and `truncateUTF8`.
pub mod Plain
pub mod Laws
use milter_guard.Prelude.{
  ℕ, zero, suc, ◌+◌, ◌-◌, ◌%◌, Bool, true, false, not, ◌&&◌, ◌||◌, Option, none, some, List, [],
  ◌∷◌, ◌++◌, ◌==◌, leb, ltb, if◌then◌else◌, length, take, get_or, reverse,
}
use milter_guard.Prelude.Bytes.{Bytes, split_last, codes}
use milter_guard.Prelude.Utf8.{rune_start, to_valid_utf8}

abbrev pub max_smtp_reply_bytes : ℕ
max_smtp_reply_bytes = 510

-- The local `clean`: no NUL, and blanks for line ends.
unfoldable pub clean : Bytes → Bytes
clean [] = []
clean (x ∷ xs) =
    let rest = clean xs in
    if x == 0 then rest else if x == 13 || x == 10 then b' ' ∷ rest else x ∷ rest

unfoldable pub double_percents : Bytes → Bytes
double_percents [] = []
double_percents (x ∷ xs) =
    let rest = double_percents xs in if x == b'%' then b'%' ∷ b'%' ∷ rest else x ∷ rest

-- The loop that steps back to the start of a rune.
unfoldable pub rune_end : ℕ → Bytes → ℕ
rune_end zero value = zero
rune_end (suc n) value =
    let less = rune_end n value in if rune_start (get_or value (suc n) 0) then suc n else less

unfoldable pub truncate_utf8 : Bytes → ℕ → Bytes
truncate_utf8 value max_bytes =
    let valid = to_valid_utf8 value in
    if leb (length valid) max_bytes then valid else take (rune_end max_bytes valid) valid

-- `trailingPercents%2 != 0`, by the percents that stand at the end.
unfoldable pub odd_percents : Bytes → Bool
odd_percents [] = false
odd_percents (x ∷ xs) = if x == b'%' then not (odd_percents xs) else false

unfoldable pub trim_percent : Bytes → Bytes
trim_percent reply = if odd_percents (reverse reply) then take (length reply - 1) reply else reply

unfoldable pub reply_text : Bytes → Bytes → Bytes → Bytes
reply_text code enhanced text = trim_percent (
    truncate_utf8 (double_percents (clean code ++ b' ' ∷ (clean enhanced ++ b' ' ∷ clean text)))
      max_smtp_reply_bytes)

unfoldable pub reply_code : Bytes → Bytes → Bytes → Bytes
reply_code code enhanced text = b'y' ∷ (reply_text code enhanced text ++ 0 ∷ [])
