-- ===== src/Session/Exact.antt =====
-- internal/mailauth/exact_message.go: the stores of an exact message, and their factory. A file takes
-- what its script says, and all after that; `os.CreateTemp` and `os.Remove` are one step, which fails
-- or gives a file. The error that `Close` passes on from a file is not modelled.
pub mod Lines
use milter_guard.Prelude.{
  ℕ, suc, ◌+◌, ◌-◌, Bool, true, false, ◌&&◌, ◌||◌, not, Option, none, some, List, [], ◌∷◌, ◌++◌,
  ◌==◌, ltb, if◌then◌else◌, length, take,
}
use milter_guard.Prelude.Bytes.{Bytes, codes}
use milter_guard.Wire.Frame.{Outcome, accepts, fails}

pub data Storage : Type 0 where
  memory file hybrid : Storage

-- `memory_slot` is the memory store of the hybrid mode, which holds a slot.
pub data Backing : Type 0 where
  in_memory memory_slot on_file : Backing

pub record ExactMessage : Type 0 where
  pub contents : Bytes
  pub max_bytes : ℕ
  pub closed : Bool
  pub backing : Backing
  pub writes : List Outcome

-- What the stores take of the process: the slots that are taken, of those there are, and the open
-- files. A creation that is to come fails, or gives a file with a script.
pub record Pool : Type 0 where
  pub slots : ℕ
  pub taken : ℕ
  pub files : ℕ
  pub creations : List (Option (List Outcome))

unfoldable pub new_file : ℕ → Pool → Option ExactMessage × Pool
new_file max_bytes p = elim p.creations [
  | [] ↦ (
    some (record {
      contents = [];
      max_bytes = max_bytes;
      closed = false;
      backing = on_file;
      writes = [];
    }),
    record p { files = suc p.files },
  )
  | none ∷ rest ↦ (none, record p { creations = rest })
  | some script ∷ rest ↦ (
    some (record {
      contents = [];
      max_bytes = max_bytes;
      closed = false;
      backing = on_file;
      writes = script;
    }),
    record p { files = suc p.files; creations = rest },
  )
]

abbrev in_memory_store : ℕ → Backing → ExactMessage
in_memory_store max_bytes backing = record {
  contents = [];
  max_bytes = max_bytes;
  closed = false;
  backing = backing;
  writes = [];
}

-- `ExactMessageFactory.New` with `NewExactMessage`; `none` is the error.
unfoldable pub new_exact_message : Storage → ℕ → Pool → Option ExactMessage × Pool
new_exact_message memory max_bytes p =
    if ltb max_bytes 1 then (none, p) else (some (in_memory_store max_bytes in_memory), p)
new_exact_message file max_bytes p =
    let created = new_file max_bytes p in if ltb max_bytes 1 then (none, p) else created
new_exact_message hybrid max_bytes p =
    let created = new_file max_bytes p in
    if ltb p.taken p.slots
    then (if ltb max_bytes 1
        then (none, p)
        else (some (in_memory_store max_bytes memory_slot), record p { taken = suc p.taken }))
    else if ltb max_bytes 1
    then (none, p)
    else created

-- A write to the file: the file after it, and whether all was written.
unfoldable pub write_file : Bytes → ExactMessage → ExactMessage × Bool
write_file payload m = elim m.writes [
  | [] ↦ (record m { contents = m.contents ++ payload }, true)
  | accepts n ∷ script ↦ (
    record m { contents = m.contents ++ take n payload; writes = script },
    not (ltb n (length payload)),
  )
  | fails n ∷ script ↦
      (record m { contents = m.contents ++ take n payload; writes = script }, false)
]

-- `append` of the two stores; false is an error.
unfoldable pub append_exact : Bytes → ExactMessage → ExactMessage × Bool
append_exact payload m =
    if m.closed || ltb m.max_bytes (length m.contents + length payload)
    then (m, false)
    else elim m.backing [
      | in_memory ↦ (record m { contents = m.contents ++ payload }, true)
      | memory_slot ↦ (record m { contents = m.contents ++ payload }, true)
      | on_file ↦ write_file payload m
    ]

-- The three replacements of line ends: CR LF to LF, CR to LF, LF to CR LF.
unfoldable pub lf_of_crlf : Bytes → Bytes
lf_of_crlf [] = []
lf_of_crlf (x ∷ []) = x ∷ []
lf_of_crlf (x ∷ y ∷ zs) =
    let skipped = lf_of_crlf zs in
    let kept = lf_of_crlf (y ∷ zs) in if x == 13 && y == 10 then 10 ∷ skipped else x ∷ kept

unfoldable pub lf_of_cr : Bytes → Bytes
lf_of_cr [] = []
lf_of_cr (x ∷ xs) = (if x == 13 then 10 else x) ∷ lf_of_cr xs

unfoldable pub crlf_of_lf : Bytes → Bytes
crlf_of_lf [] = []
crlf_of_lf (x ∷ xs) = let rest = crlf_of_lf xs in if x == 10 then 13 ∷ 10 ∷ rest else x ∷ rest

unfoldable pub exact_value : Bytes → Bytes
exact_value value = crlf_of_lf (lf_of_cr (lf_of_crlf value))

abbrev pub crlf : Bytes
crlf = 13 ∷ 10 ∷ []

unfoldable pub add_exact_header : Bytes → Bytes → ExactMessage → ExactMessage × Bool
add_exact_header name value = append_exact (name ++ (codes ": " ++ (exact_value value ++ crlf)))

unfoldable pub end_exact_headers : ExactMessage → ExactMessage × Bool
end_exact_headers = append_exact crlf

unfoldable pub add_exact_body : Bytes → ExactMessage → ExactMessage × Bool
add_exact_body payload = append_exact payload

-- The slot is released once, and the file closed once.
unfoldable pub close_exact : ExactMessage → Pool → ExactMessage × Pool
close_exact m p = if m.closed then (m, p) else elim m.backing [
  | in_memory ↦ (record m { contents = []; closed = true }, p)
  | memory_slot ↦ (record m { contents = []; closed = true }, record p { taken = p.taken - 1 })
  | on_file ↦ (record m { closed = true }, record p { files = p.files - 1 })
]
