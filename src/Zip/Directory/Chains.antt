-- ===== src/Zip/Directory/Chains.antt =====
-- internal/attachment/zip_limits.go: what `countZIPDirectory` counts.
use milter_guard.Prelude.{
  ℕ, zero, suc, ◌+◌, ◌≤◌, true, false, ◌≡◌, refl, ap, subst, ◌∙◌, inl, inr, arith, Bool-cases,
}
use milter_guard.Prelude.Bytes.{Bytes}
use milter_guard.Zip.Reads.{ok, >>=-eq-ok, Checks, check, ◌>>=◌}
use milter_guard.Zip.Directory.{
  header_at, header_length, Count, count_from, count_directory, header_round,
}

-- From `offset` stand `n` central headers of `b` bytes one behind the other, and then none.
pub data Chain (s : Bytes) : ℕ → ℕ → ℕ → Type 0 where
  stop : {offset : ℕ} → header_at s offset ≡ ok false → Chain s offset zero zero
  link :
      {offset n b : ℕ} (size : ℕ)
      → header_at s offset ≡ ok true
      → header_length s offset ≡ ok size
      → Chain s (offset + size) n b
      → Chain s offset (suc n) (size + b)

-- The chain from a position is determined.
pub Chain-unique :
    {s : Bytes} {offset n b n' b' : ℕ}
    → Chain s offset n b
    → Chain s offset n' b'
    → (n ≡ n') × (b ≡ b')
Chain-unique (stop e) (stop e') = (refl, refl)
Chain-unique (stop e) (link size e' l' c') = absurd (cc)
Chain-unique (link size e l c) (stop e') = absurd (cc)
Chain-unique {s} {offset} {n' = n'} {b' = b'} (link size e l c)
      (link {n = m'} {b = d'} size' e' l' c') =
    let same : size' ≡ size = cc in
    let tails = Chain-unique c (subst (λ z. Chain s (offset + z) m' d') same c') in
    (ap suc tails.0, omega (arith, tails.1, same))

-- A round that goes on has read the length of a header that fits the byte limit.
header_round-ok :
    (byte_limit : ℕ) (s : Bytes) (offset used size : ℕ)
    → header_round byte_limit s offset used ≡ ok size
    → (used + size ≤ byte_limit) × (header_length s offset ≡ ok size)
header_round-ok byte_limit s offset used size h =
    let (size', e, h') = >>=-eq-ok (header_length s offset) _ h in ground arith

round_of :
    (left byte_limit : ℕ) (s : Bytes) (offset count used : ℕ) (checks : Checks) (r : Count)
    → (check checks >>= λ checks'. header_round byte_limit s offset used >>= λ size.
        count_from left byte_limit s (offset + size) (count + 1) (used + size) checks')
      ≡ ok r
    → (checks' : Checks) × (size : ℕ) × (used + size ≤ byte_limit)
      × (header_length s offset ≡ ok size)
      × (count_from left byte_limit s (offset + size) (count + 1) (used + size) checks' ≡ ok r)
round_of left byte_limit s offset count used checks r h =
    let (checks', _, h₁) = >>=-eq-ok (check checks) _ h in
    let (size, e, h₂) = >>=-eq-ok (header_round byte_limit s offset used) _ h₁ in
    let (fits, found) = header_round-ok byte_limit s offset used size e in
    (checks', size, fits, found, h₂)

count_from-Chain :
    (left byte_limit : ℕ) (s : Bytes) (offset count used : ℕ) (checks : Checks) (r : Count)
    → count_from left byte_limit s offset count used checks ≡ ok r
    → used ≤ byte_limit
    → (n : ℕ) × (b : ℕ) × Chain s offset n b
      × (r.headers ≡ count + n)
      × (r.bytes ≡ used + b)
      × (n ≤ left)
      × (used + b ≤ byte_limit)
unfolding count_from
count_from-Chain zero byte_limit s offset count used checks r h small =
    let (more, e, h') = >>=-eq-ok (header_at s offset) _ h in
    elim (Bool-cases more) [
      | inl t ↦ absurd (ground arith)
      | inr f ↦ (0, 0, stop (e ∙ ap ok f), ground arith, ground arith, omega arith, omega arith)
    ]
count_from-Chain (suc left) byte_limit s offset count used checks r h small =
    let (more, e, h') = >>=-eq-ok (header_at s offset) _ h in
    elim (Bool-cases more) [
      | inl t ↦
          let (checks', size, fits, found, h₁) =
            round_of left byte_limit s offset count used checks r (rw t at h') in
          let (n, b, chain, counted, bytes, room, limit) =
            count_from-Chain left byte_limit s (offset + size) (count + 1) (used + size) checks' r
              h₁ fits in
          (
            suc n,
            size + b,
            link size (e ∙ ap ok t) found chain,
            omega arith,
            omega arith,
            omega arith,
            omega arith,
          )
      | inr f ↦ (0, 0, stop (e ∙ ap ok f), ground arith, ground arith, omega arith, omega arith)
    ]

-- A count that is returned is that of the chain of headers from the position, which is within both
-- limits.
pub count_directory-Chain :
    (s : Bytes) (offset entry_limit byte_limit : ℕ) (checks : Checks) (r : Count)
    → count_directory s offset entry_limit byte_limit checks ≡ ok r
    → Chain s offset r.headers r.bytes × (r.headers ≤ entry_limit) × (r.bytes ≤ byte_limit)
unfolding count_directory
count_directory-Chain s offset entry_limit byte_limit checks r h =
    let (n, b, chain, counted, bytes, room, limit) =
      count_from-Chain entry_limit byte_limit s offset 0 0 checks r h (omega arith) in
    let n_is : n ≡ r.headers = omega arith in
    let b_is : b ≡ r.bytes = omega arith in
    (
      subst (λ z. Chain s offset z r.bytes) n_is (subst (λ z. Chain s offset n z) b_is chain),
      omega arith,
      omega arith,
    )
