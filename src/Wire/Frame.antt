-- ===== src/Wire/Frame.antt =====
-- internal/milter/protocol.go: `readFrameProgress`, `writeFrame` and `writeAll`.
pub mod Laws
use milter_guard.Prelude.{
  ℕ, zero, suc, ◌+◌, Bool, true, false, ◌||◌, List, [], ◌∷◌, ◌++◌, ◌==◌, ltb, leb, if◌then◌else◌,
  length, take, drop, min, ◌%◌, ◌^◌,
}
use milter_guard.Prelude.Bytes.{Bytes}
use milter_guard.Wire.Command.{put_u32, u32}

abbrev pub max_frame_bytes : ℕ
max_frame_bytes = 2 ^ 20

pub data ReadError : Type 0 where
  eof unexpected_eof timeout transport : ReadError
  invalid_length : ℕ → ReadError

-- What the peer's stream will give: bytes, and then the error that ends it.
pub record Reader : Type 0 where
  pub input : Bytes
  pub fault : ReadError

-- `io.ReadFull` reports an end inside the data as unexpected; other errors are passed on.
abbrev pub inside : ReadError → ReadError
inside eof = unexpected_eof
inside e = e

-- The bytes, how many were read, and the reader behind them; or the count and the error.
pub data Read : Type 0 where
  ok : Bytes → ℕ → Reader → Read
  failed : ℕ → ReadError → Read

unfoldable pub read_full : ℕ → Reader → Read
read_full n r =
    if leb n (length r.input)
    then ok (take n r.input) n (record r { input = drop n r.input })
    else if length r.input == 0
    then failed 0 r.fault
    else failed (length r.input) (inside r.fault)

abbrev count_header : Read → Read
count_header (ok frame n r) = ok frame (4 + n) r
count_header (failed n e) = failed (4 + n) e

abbrev read_body : Read → Read
read_body (ok header n r) =
    let size = u32 header in
    if size == 0 || ltb max_frame_bytes size
    then failed n (invalid_length size)
    else count_header (read_full size r)
read_body (failed n e) = failed n e

unfoldable pub read_frame : Reader → Read
read_frame r = read_body (read_full 4 r)

-- What one call of `Write` does: it takes so many of the bytes at most, with an error or without.
pub data Outcome : Type 0 where
  accepts fails : ℕ → Outcome

-- What was sent, and what the coming calls of `Write` will do. After those, all is accepted.
pub record Writer : Type 0 where
  pub sent : Bytes
  pub script : List Outcome

unfoldable pub write_all : List Outcome → Bytes → Bytes → Writer × Bool
write_all script sent [] = (record { sent = sent; script = script }, true)
write_all [] sent (x ∷ xs) = (record { sent = sent ++ x ∷ xs; script = [] }, true)
write_all (fails n ∷ script) sent (x ∷ xs) =
    (record { sent = sent ++ take n (x ∷ xs); script = script }, false)
write_all (accepts zero ∷ script) sent (x ∷ xs) = (record { sent = sent; script = script }, false)
write_all (accepts (suc n) ∷ script) sent (x ∷ xs) =
    write_all script (sent ++ take (suc n) (x ∷ xs)) (drop n xs)

-- `uint32(len(payload))` wraps.
unfoldable pub write_frame : Writer → Bytes → Writer × Bool
unfolding write_all
write_frame w payload =
    let (w', sent) = write_all w.script w.sent (put_u32 (length payload % 2 ^ 32)) in
    if sent then write_all w'.script w'.sent payload else (w', false)
