-- ===== src/Resource/Memory/Runs.antt =====
-- internal/resourceguard/memory.go: what holds of a budget after any sequence of calls, also after
-- calls that ended the stage or panicked.
use milter_guard.Prelude.{
  Bool, false, none, some, List, [], ◌∷◌, ◌≡◌, ◌⊎◌, inl, inr, refl, sym, ap, arith, ◌∙◌,
}
use milter_guard.Prelude.Int.{ℤ, pos, negsuc, max_int64, ◌≤ℤ◌, ◌+ℤ◌, +ℤ-pos, -ℤ-pos}
use milter_guard.Resource.Memory.{
  Memory, Ledger, Ends, returns, terminates, panics, new_memory, reserve, try_reserve, record_usage,
  does_not_fit, charge,
}

pub data Call : Type 0 where
  reserves tries records : ℤ → Call

abbrev ledger_of : {A : Type 0} → Ends A → Ledger
ledger_of (returns a m) = m
ledger_of (terminates f m) = m
ledger_of (panics m) = m

pub after : Call → Ledger → Ledger
after (reserves n) m = ledger_of (reserve n m)
after (tries n) m = ledger_of (try_reserve n m)
after (records n) m = record_usage n m

pub run : List Call → Ledger → Ledger
run [] m = m
run (c ∷ cs) m = run cs (after c m)

-- The charges are not negative, and within a limit that is positive; else there are none.
abbrev pub IsSound : Ledger → Type 0
IsSound none = Unit {0}
IsSound (some m) =
    (m.limit ≤ℤ pos max_int64) × (pos 0 ≤ℤ m.used) × ((m.used ≤ℤ m.limit) ⊎ (m.used ≡ pos 0))

-- The shared guard passes only on a sum that does not wrap.
charge-parts :
    (l u n : ℤ) (e : Bool)
    → IsSound (some (record { limit = l; used = u; exhausted = e }))
    → pos 0 ≤ℤ n
    → does_not_fit (record { limit = l; used = u; exhausted = e }) n ≡ false
    → IsSound (some (record { limit = l; used = u +ℤ n; exhausted = e })) × (u ≤ℤ u +ℤ n)
charge-parts (pos l) (pos u) (pos n) e s h fits = ground (arith, +ℤ-pos u n, -ℤ-pos l u)
charge-parts (negsuc l) u n e s h fits = absurd (ground arith)
charge-parts l (negsuc u) n e s h fits = absurd (omega arith)
charge-parts l u (negsuc n) e s h fits = absurd (omega arith)

charge-lem :
    (m : Memory) (n : ℤ)
    → IsSound (some m)
    → pos 0 ≤ℤ n
    → does_not_fit m n ≡ false
    → IsSound (some (charge m n)) × (m.used ≤ℤ (charge m n).used)
charge-lem m n = charge-parts m.limit m.used n m.exhausted

-- What one call keeps: a sound budget stays sound, its charges and its limit do not fall, and one
-- that is exhausted does not change.
abbrev pub Keeps : Ledger → Ledger → Type 0
Keeps none m' = m' ≡ none
Keeps (some m) none = ⊥
Keeps (some m) (some m') =
    IsSound (some m')
    × (m.used ≤ℤ m'.used)
    × (m'.limit ≡ m.limit)
    × ((m.exhausted ≡ false) ⊎ (m' ≡ m))

Keeps-refl : (m : Ledger) → IsSound m → Keeps m m
Keeps-refl none s = refl
Keeps-refl (some m) s = (s, omega arith, refl, inr refl)

Keeps-trans : (a b c : Ledger) → Keeps a b → Keeps b c → Keeps a c
Keeps-trans none b c h k = ground arith
Keeps-trans (some a) (some b) (some c) h k = (
  k.0,
  omega arith,
  k.2 ∙ h.2,
  elim h.3 [
    | inl running ↦ inl running
    | inr same ↦ elim k.3 [
      | inl running ↦ inl (ap (λ (z : Memory). z.exhausted) (sym same) ∙ running)
      | inr same' ↦ inr (same' ∙ same)
    ]
  ],
)
Keeps-trans (some a) none c h k = absurd h
Keeps-trans (some a) (some b) none h k = absurd k

after-Keeps : (c : Call) (m : Ledger) → IsSound m → Keeps m (after c m)
unfolding after reserve try_reserve record_usage
after-Keeps (reserves n) none s = ground arith
after-Keeps (tries n) none s = ground arith
after-Keeps (records n) none s = refl
after-Keeps (reserves n) (some m) s = ground (arith, charge-lem m n s)
after-Keeps (tries n) (some m) s = ground (arith, charge-lem m n s)
after-Keeps (records n) (some m) s = ground (arith, charge-lem m n s)

Keeps-IsSound : (m m' : Ledger) → Keeps m m' → IsSound m'
Keeps-IsSound none none h = tt
Keeps-IsSound none (some m') h = absurd (cc)
Keeps-IsSound (some m) none h = absurd h
Keeps-IsSound (some m) (some m') h = h.0

-- More calls on a sound budget never give charges back, keep it sound and keep its limit; a budget
-- that is exhausted stays as it is.
pub run-Keeps : (cs : List Call) (m : Ledger) → IsSound m → Keeps m (run cs m)
unfolding run
run-Keeps [] m s = Keeps-refl m s
run-Keeps (c ∷ cs) m s =
    let one = after-Keeps c m s in
    Keeps-trans m (after c m) (run cs (after c m)) one
      (run-Keeps cs (after c m) (Keeps-IsSound m (after c m) one))

-- Any calls on a new budget, for any int64 limit and any requests: the charges are never negative, never
-- above a positive limit, and nothing at all is charged under a limit that is not positive.
pub run-new_memory-IsSound :
    (limit : ℤ) (cs : List Call) → limit ≤ℤ pos max_int64 → IsSound (run cs (new_memory limit))
unfolding new_memory
run-new_memory-IsSound limit cs h =
    Keeps-IsSound (new_memory limit) (run cs (new_memory limit))
      (run-Keeps cs (new_memory limit) (h, omega arith, inr refl))
