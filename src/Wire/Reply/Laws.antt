-- ===== src/Wire/Reply/Laws.antt =====
-- internal/milter/protocol.go: what a reply holds, whatever text it is made of.
use milter_guard.Prelude.{
  ℕ, zero, suc, ◌-◌, ◌≤◌, Bool, true, false, not, ◌&&◌, Option, none, some, [], ◌∷◌, ◌++◌, ◌≡◌, inl,
  inr, refl, sym, ap, ◌∙◌, arith, ◌==◌, leb, if◌then◌else◌, length, take, get_or, reverse,
  reverse-cons, length-take, tests, Bool-cases, if-cases,
}
use milter_guard.Prelude.Bytes.{Bytes, contains}
use milter_guard.Prelude.Utf8.{rune_start, rune_rest, valid_from, to_valid_utf8}
use milter_guard.Wire.Reply.Plain.{contains-reply_text}
use milter_guard.Wire.Reply.{
  max_smtp_reply_bytes, clean, double_percents, rune_end, truncate_utf8, odd_percents, trim_percent,
  reply_text,
}

-- A scan of the pairs of percents: whether one is open at the end, or none where a lone one stands.
unfoldable pub pairs_from : Bool → Bytes → Option Bool
pairs_from unmatched [] = some unmatched
pairs_from unmatched (x ∷ xs) =
    let matched = pairs_from (not unmatched) xs in
    let rest = pairs_from false xs in
    if x == b'%' then matched else if unmatched then none else rest

pairs_from-double_percents : (s : Bytes) → pairs_from false (double_percents s) ≡ some false
unfolding pairs_from double_percents
pairs_from-double_percents [] = refl
pairs_from-double_percents (x ∷ xs) = ground (arith, pairs_from-double_percents xs)

-- Bytes that are no percents come and go only behind other such bytes.
pairs_from-valid_from :
    (pending : ℕ) (invalid unmatched : Bool) (s : Bytes) (r : Bool)
    → (invalid && unmatched) ≡ false
    → pairs_from unmatched s ≡ some r
    → pairs_from unmatched (valid_from pending invalid s) ≡ some r
unfolding pairs_from valid_from
pairs_from-valid_from pending invalid unmatched [] r i h = h
pairs_from-valid_from (suc pending) invalid unmatched (x ∷ xs) r i h = ground (
  arith,
  h,
  pairs_from-valid_from pending false (not unmatched) xs r refl,
  pairs_from-valid_from pending false false xs r refl,
)
pairs_from-valid_from zero invalid unmatched (x ∷ xs) r i h = ground (
  arith,
  i,
  h,
  pairs_from-valid_from zero false (not unmatched) xs r refl,
  pairs_from-valid_from zero false false xs r refl,
  pairs_from-valid_from (rune_rest x xs) false false xs r refl,
  pairs_from-valid_from zero true false xs r refl,
)

pairs_from-take :
    (n : ℕ) (unmatched : Bool) (s : Bytes) (r : Bool)
    → pairs_from unmatched s ≡ some r
    → (b : Bool) × (pairs_from unmatched (take n s) ≡ some b)
unfolding pairs_from
pairs_from-take zero unmatched s r h = (unmatched, refl)
pairs_from-take (suc n) unmatched [] r h = (unmatched, refl)
pairs_from-take (suc n) unmatched (x ∷ xs) r h = elim (Bool-cases (x == b'%')) [
  | inl e ↦
      let (b, k) = pairs_from-take n (not unmatched) xs r (ground (arith, h, e)) in
      (b, ground (arith, e, k))
  | inr e ↦
      let (b, k) = pairs_from-take n false xs r (ground (arith, h, e)) in
      (b, ground (arith, h, e, k))
]

-- The parity of the percents at the end, from a state at the start.
abbrev odd_at : Bytes → Bool → Bool
odd_at [] unmatched = unmatched
odd_at (x ∷ xs) unmatched = let rest = odd_at xs unmatched in if x == b'%' then not rest else false

odd_at-append : (a b : Bytes) (u : Bool) → odd_at (a ++ b) u ≡ odd_at a (odd_at b u)
odd_at-append [] b u = refl
odd_at-append (x ∷ a) b u = rw (odd_at-append a b u)

odd_percents-odd_at : (s : Bytes) → odd_percents s ≡ odd_at s false
unfolding odd_percents
odd_percents-odd_at [] = refl
odd_percents-odd_at (x ∷ xs) = rw (odd_percents-odd_at xs)

odd_at-reverse : (s : Bytes) (u r : Bool) → pairs_from u s ≡ some r → odd_at (reverse s) u ≡ r
unfolding pairs_from
odd_at-reverse [] u r h = ground (arith, h)
odd_at-reverse (x ∷ xs) u r h = elim (Bool-cases (x == b'%')) [
  | inl e ↦
      ap (λ s. odd_at s u) (reverse-cons x xs)
      ∙ odd_at-append (reverse xs) (x ∷ []) u
      ∙ (rw (e) (odd_at-reverse xs (not u) r (ground (arith, h, e))))
  | inr e ↦
      ap (λ s. odd_at s u) (reverse-cons x xs)
      ∙ odd_at-append (reverse xs) (x ∷ []) u
      ∙ (rw (e) (odd_at-reverse xs false r (ground (arith, h, e))))
]

pairs_from-front :
    (x : ℕ) (xs : Bytes) (u : Bool)
    → pairs_from u (x ∷ xs) ≡ some true
    → pairs_from u (take (length xs) (x ∷ xs)) ≡ some false
unfolding pairs_from
pairs_from-front x [] u h = ground (arith, h)
pairs_from-front x (y ∷ ys) u h = elim (Bool-cases (x == b'%')) [
  | inl e ↦ rw (e) (pairs_from-front y ys (not u) (ground (arith, h, e)))
  | inr e ↦ ground (arith, h, e, pairs_from-front y ys false (ground (arith, h, e)))
]

pairs_from-trim_percent :
    (s : Bytes) (r : Bool)
    → pairs_from false s ≡ some r
    → pairs_from false (trim_percent s) ≡ some false
unfolding trim_percent pairs_from odd_percents
pairs_from-trim_percent [] r h = refl
pairs_from-trim_percent (x ∷ xs) r h =
    let parity : odd_percents (reverse (x ∷ xs)) ≡ r =
      odd_percents-odd_at (reverse (x ∷ xs)) ∙ odd_at-reverse (x ∷ xs) false r h in
    let shorter : length (x ∷ xs) - 1 ≡ length xs = omega arith in
    if-cases (λ t. pairs_from false t ≡ some false) (odd_percents (reverse (x ∷ xs)))
      (λ o.
        ap (λ n. pairs_from false (take n (x ∷ xs))) shorter
        ∙ pairs_from-front x xs false (h ∙ ap some (sym parity ∙ o)))
      (λ o. h ∙ ap some (sym parity ∙ o))

rune_end-le : (n : ℕ) (v : Bytes) → rune_end n v ≤ n
unfolding rune_end
rune_end-le zero v = ground arith
rune_end-le (suc n) v = elim (Bool-cases (rune_start (get_or v (suc n) 0))) [
  | inl e ↦ rw (e) (omega arith)
  | inr e ↦ rw (e) (omega (arith, rune_end-le n v))
]

length-truncate_utf8 : (v : Bytes) (n : ℕ) → length (truncate_utf8 v n) ≤ n
unfolding truncate_utf8
length-truncate_utf8 v n = elim (Bool-cases (leb (length (to_valid_utf8 v)) n)) [
  | inl e ↦ rw (e) (omega (tests, e))
  | inr e ↦ rw (e) (
      omega (
        arith,
        length-take (rune_end n (to_valid_utf8 v)) (to_valid_utf8 v),
        rune_end-le n (to_valid_utf8 v),
      ))
]

length-trim_percent : (s : Bytes) → length (trim_percent s) ≤ length s
unfolding trim_percent
length-trim_percent s = elim (Bool-cases (odd_percents (reverse s))) [
  | inl o ↦ rw (o) (omega (arith, length-take (length s - 1) s))
  | inr o ↦ rw (o) (omega arith)
]

pairs_from-truncate_utf8 :
    (s : Bytes) (n : ℕ)
    → pairs_from false s ≡ some false
    → (r : Bool) × (pairs_from false (truncate_utf8 s n) ≡ some r)
unfolding truncate_utf8 to_valid_utf8
pairs_from-truncate_utf8 s n h =
    let valid = pairs_from-valid_from zero false false s false refl h in
    if-cases (λ t. (r : Bool) × (pairs_from false t ≡ some r)) (leb (length (to_valid_utf8 s)) n)
      (λ e. (false, valid))
      (λ e. pairs_from-take (rune_end n (to_valid_utf8 s)) false (to_valid_utf8 s) false valid)

-- Whatever a reply is made of, its text has at most 510 bytes, each percent stands in a pair, and there is no NUL and no line
-- end in it.
pub reply_text_lem :
    (code enhanced text : Bytes)
    → (length (reply_text code enhanced text) ≤ max_smtp_reply_bytes)
      × (pairs_from false (reply_text code enhanced text) ≡ some false)
      × (contains 0 (reply_text code enhanced text) ≡ false)
      × (contains 13 (reply_text code enhanced text) ≡ false)
      × (contains 10 (reply_text code enhanced text) ≡ false)
unfolding reply_text
reply_text_lem code enhanced text =
    let doubled = double_percents (clean code ++ b' ' ∷ (clean enhanced ++ b' ' ∷ clean text)) in
    let cut_short = truncate_utf8 doubled max_smtp_reply_bytes in
    let (r, scanned) =
      pairs_from-truncate_utf8 doubled max_smtp_reply_bytes (pairs_from-double_percents _) in
    (
      omega
          (arith, length-trim_percent cut_short, length-truncate_utf8 doubled max_smtp_reply_bytes),
      pairs_from-trim_percent cut_short r scanned,
      contains-reply_text 0 code enhanced text refl,
      contains-reply_text 13 code enhanced text refl,
      contains-reply_text 10 code enhanced text refl,
    )
