-- ===== src/Session/Exact/Lines.antt =====
-- internal/mailauth/exact_message.go: the line ends of a header's value.
use milter_guard.Prelude.{
  ℕ, Bool, true, false, not, ◌&&◌, [], ◌∷◌, ◌≡◌, refl, arith, ◌==◌, if◌then◌else◌,
}
use milter_guard.Prelude.Bytes.{Bytes, contains}
use milter_guard.Session.Exact.{lf_of_cr, lf_of_crlf, crlf_of_lf, exact_value}

-- A CR stands only in front of an LF, and an LF only behind a CR.
pub ends_in_crlf : Bytes → Bool
ends_in_crlf [] = true
ends_in_crlf (x ∷ []) = not (x == 13) && not (x == 10)
ends_in_crlf (x ∷ y ∷ zs) =
    let behind = ends_in_crlf zs in
    let next = ends_in_crlf (y ∷ zs) in
    if x == 13 && y == 10 then behind else not (x == 13) && not (x == 10) && next

ends_in_crlf-cons :
    (x : ℕ) (s : Bytes)
    → (x == 13) ≡ false
    → (x == 10) ≡ false
    → ends_in_crlf s ≡ true
    → ends_in_crlf (x ∷ s) ≡ true
unfolding ends_in_crlf
ends_in_crlf-cons x [] h k e = ground (arith, h, k)
ends_in_crlf-cons x (y ∷ zs) h k e = ground (arith, h, k, e)

lf_of_cr-contains : (s : Bytes) → contains 13 (lf_of_cr s) ≡ false
unfolding lf_of_cr contains
lf_of_cr-contains [] = refl
lf_of_cr-contains (x ∷ xs) = ground (arith, lf_of_cr-contains xs)

crlf_of_lf-ends : (s : Bytes) → contains 13 s ≡ false → ends_in_crlf (crlf_of_lf s) ≡ true
unfolding crlf_of_lf contains ends_in_crlf
crlf_of_lf-ends [] h = refl
crlf_of_lf-ends (x ∷ xs) h =
    ground (arith, h, crlf_of_lf-ends xs, ends_in_crlf-cons x (crlf_of_lf xs))

-- Whatever line ends a header's value comes with, in the exact message every CR of it is followed by
-- an LF and every LF of it follows a CR.
pub ends_in_crlf-exact_value : (value : Bytes) → ends_in_crlf (exact_value value) ≡ true
unfolding exact_value
ends_in_crlf-exact_value value =
    crlf_of_lf-ends (lf_of_cr (lf_of_crlf value)) (lf_of_cr-contains (lf_of_crlf value))
