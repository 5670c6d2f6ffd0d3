-- ===== src/Wire/Reply/Plain.antt =====
-- internal/milter/protocol.go: NULs and line ends in a reply.
use milter_guard.Prelude.{
  ℕ, zero, suc, ◌-◌, Bool, true, false, ◌||◌, [], ◌∷◌, ◌++◌, ◌≡◌, refl, arith, ◌==◌, leb, length,
  take, reverse, if-cases,
}
use milter_guard.Prelude.Bytes.{Bytes, contains}
use milter_guard.Prelude.Utf8.{rune_rest, valid_from, to_valid_utf8}
use milter_guard.Wire.Reply.{
  max_smtp_reply_bytes, clean, double_percents, rune_end, truncate_utf8, odd_percents, trim_percent,
  reply_text,
}

contains-append :
    (c : ℕ) (a b : Bytes)
    → contains c a ≡ false
    → contains c b ≡ false
    → contains c (a ++ b) ≡ false
unfolding contains
contains-append c [] b h k = k
contains-append c (x ∷ a) b h k = ground (arith, h, contains-append c a b, k)

contains-take : (c n : ℕ) (s : Bytes) → contains c s ≡ false → contains c (take n s) ≡ false
unfolding contains
contains-take c zero s h = refl
contains-take c (suc n) [] h = refl
contains-take c (suc n) (x ∷ xs) h = ground (arith, h, contains-take c n xs)

-- What a reply's line must not hold.
abbrev is_line_end : ℕ → Bool
is_line_end c = c == 0 || c == 13 || c == 10

contains-clean : (c : ℕ) (s : Bytes) → is_line_end c ≡ true → contains c (clean s) ≡ false
unfolding contains clean
contains-clean c [] l = refl
contains-clean c (x ∷ xs) l = ground (arith, l, contains-clean c xs l)

contains-double_percents :
    (c : ℕ) (s : Bytes)
    → is_line_end c ≡ true
    → contains c s ≡ false
    → contains c (double_percents s) ≡ false
unfolding contains double_percents
contains-double_percents c [] l h = refl
contains-double_percents c (x ∷ xs) l h = ground (arith, l, h, contains-double_percents c xs l)

contains-valid_from :
    (c pending : ℕ) (invalid : Bool) (s : Bytes)
    → is_line_end c ≡ true
    → contains c s ≡ false
    → contains c (valid_from pending invalid s) ≡ false
unfolding contains valid_from
contains-valid_from c pending invalid [] l h = refl
contains-valid_from c (suc pending) invalid (x ∷ xs) l h =
    ground (arith, h, contains-valid_from c pending false xs l)
contains-valid_from c zero invalid (x ∷ xs) l h = ground (
  arith,
  l,
  h,
  contains-valid_from c zero false xs l,
  contains-valid_from c (rune_rest x xs) false xs l,
  contains-valid_from c zero true xs l,
)

contains-truncate_utf8 :
    (c : ℕ) (s : Bytes) (n : ℕ)
    → is_line_end c ≡ true
    → contains c s ≡ false
    → contains c (truncate_utf8 s n) ≡ false
unfolding truncate_utf8 to_valid_utf8
contains-truncate_utf8 c s n l h =
    let valid = contains-valid_from c zero false s l h in
    if-cases (λ t. contains c t ≡ false) (leb (length (to_valid_utf8 s)) n) (λ e. valid)
      (λ e. contains-take c (rune_end n (to_valid_utf8 s)) (to_valid_utf8 s) valid)

contains-blank : (c : ℕ) (s : Bytes) → is_line_end c ≡ true → contains c (b' ' ∷ clean s) ≡ false
unfolding contains
contains-blank c s l = ground (arith, l, contains-clean c s l)

contains-trim_percent :
    (c : ℕ) (s : Bytes) → contains c s ≡ false → contains c (trim_percent s) ≡ false
unfolding trim_percent
contains-trim_percent c s h =
    if-cases (λ t. contains c t ≡ false) (odd_percents (reverse s))
      (λ e. contains-take c (length s - 1) s h) (λ e. h)

pub contains-reply_text :
    (c : ℕ) (code enhanced text : Bytes)
    → is_line_end c ≡ true
    → contains c (reply_text code enhanced text) ≡ false
unfolding reply_text
contains-reply_text c code enhanced text l =
    let joined : contains c (clean code ++ b' ' ∷ (clean enhanced ++ b' ' ∷ clean text)) ≡ false =
      contains-append c (clean code) _ (contains-clean c code l) (
        contains-append c (b' ' ∷ clean enhanced) _ (contains-blank c enhanced l)
          (contains-blank c text l)) in
    contains-trim_percent c _
      (contains-truncate_utf8 c _ max_smtp_reply_bytes l (contains-double_percents c _ l joined))
