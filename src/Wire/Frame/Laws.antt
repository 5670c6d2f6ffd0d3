-- ===== src/Wire/Frame/Laws.antt =====
-- internal/milter/protocol.go: the reading of frames that were written in pieces.
use milter_guard.Prelude.{
  ℕ, zero, suc, ◌+◌, ◌≤◌, ◌<◌, ◌%◌, ◌^◌, true, false, List, [], ◌∷◌, ◌++◌, ◌≡◌, ◌⊎◌, inl, inr, refl,
  sym, ap, ◌∙◌, arith, length, take, drop, append_assoc, append-nil, take-append-drop,
  length-append, length-take, Bool-cases,
}
use milter_guard.Prelude.Bytes.{Bytes}
use milter_guard.Wire.Command.{put_u32, u32}
use milter_guard.Wire.Frame.{
  Reader, ReadError, ok, read_full, read_frame, max_frame_bytes, Writer, Outcome, accepts, fails,
  write_all, write_frame,
}

header_size : (n : ℕ) → n ≤ max_frame_bytes → u32 (put_u32 (n % 2 ^ 32)) ≡ n
unfolding u32 put_u32
header_size n h = omega arith

-- What the writer holds is what it held, and a part of the payload; all of it on success.
write_all-sent :
    (script : List Outcome) (sent payload : Bytes)
    → let (w, done) = write_all script sent payload in
      (rest : Bytes) × (w.sent ++ rest ≡ sent ++ payload) × (done ≡ true → rest ≡ [])
unfolding write_all
write_all-sent [] sent [] = ([], refl, λ _. refl)
write_all-sent (accepts n ∷ script) sent [] = ([], refl, λ _. refl)
write_all-sent (fails n ∷ script) sent [] = ([], refl, λ _. refl)
write_all-sent [] sent (x ∷ xs) = ([], append-nil _, λ _. refl)
write_all-sent (fails n ∷ script) sent (x ∷ xs) =
    (drop n (x ∷ xs), rw (append_assoc, take-append-drop n (x ∷ xs)), λ e. cc)
write_all-sent (accepts zero ∷ script) sent (x ∷ xs) = (x ∷ xs, refl, λ e. cc)
write_all-sent (accepts (suc n) ∷ script) sent (x ∷ xs) =
    let (rest, joined, full) = write_all-sent script (sent ++ take (suc n) (x ∷ xs)) (drop n xs) in
    (rest, joined ∙ rw (append_assoc, take-append-drop n xs), full)

write_frame-splits :
    (w : Writer) (payload : Bytes)
    → let (w', done) = write_frame w payload in
      (rest : Bytes) × (w'.sent ++ rest ≡ w.sent ++ (put_u32 (length payload % 2 ^ 32) ++ payload))
      × (done ≡ true → rest ≡ [])
unfolding write_frame
write_frame-splits w payload =
    let header = put_u32 (length payload % 2 ^ 32) in
    let (rest, joined, full) = write_all-sent w.script w.sent header in
    let first = (write_all w.script w.sent header).0 in
    elim (Bool-cases (write_all w.script w.sent header).1) [
      | inl done ↦
          let (rest', joined', full') = write_all-sent first.script first.sent payload in
          let whole : first.sent ≡ w.sent ++ header =
            sym (append-nil first.sent) ∙ ap (◌++◌ first.sent) (sym (full done)) ∙ joined in
          (
            rest',
            rw (done, write_frame) (joined' ∙ rw (whole, append_assoc)),
            rw (done, write_frame) full',
          )
      | inr broken ↦ (
        rest ++ payload,
        rw (broken, write_frame)
            (sym (append_assoc first.sent rest payload)
              ∙ ap (λ z. z ++ payload) joined
              ∙ append_assoc w.sent header payload),
        rw (broken, write_frame) (λ e. cc),
      )
    ]

-- Whatever the writer does, it has sent a part of the frame from its front: the four length bytes
-- and then the payload. It has sent the whole frame if the call reports success.
pub write_frame-sent :
    (w : Writer) (payload : Bytes)
    → let (w', done) = write_frame w payload in
      (rest : Bytes) × (w'.sent ++ rest ≡ w.sent ++ (put_u32 (length payload % 2 ^ 32) ++ payload))
      × ((done ≡ false) ⊎ (rest ≡ []))
write_frame-sent w payload =
    let (rest, joined, full) = write_frame-splits w payload in
    elim (Bool-cases (write_frame w payload).1) [
      | inl done ↦ (rest, joined, inr (full done))
      | inr broken ↦ (rest, joined, inl broken)
    ]

take-append : (a b : Bytes) → take (length a) (a ++ b) ≡ a
take-append [] b = refl
take-append (x ∷ a) b = ap (◌∷◌ x) (take-append a b)

drop-append : (a b : Bytes) → drop (length a) (a ++ b) ≡ b
drop-append [] b = refl
drop-append (x ∷ a) b = drop-append a b

read_full-append :
    (a b : Bytes) (n : ℕ) (fault : ReadError)
    → n ≡ length a
    → read_full n (record { input = a ++ b; fault = fault })
      ≡ ok a n (record { input = b; fault = fault })
unfolding read_full
read_full-append a b n fault e =
    rw e (ground (arith, length-append a b, take-append a b, drop-append a b))

read_frame-append :
    (header payload rest : Bytes) (fault : ReadError)
    → length header ≡ 4
    → u32 header ≡ length payload
    → 0 < length payload
    → length payload ≤ max_frame_bytes
    → read_frame (record { input = header ++ (payload ++ rest); fault = fault })
      ≡ ok payload (4 + length payload) (record { input = rest; fault = fault })
unfolding read_frame
read_frame-append header payload rest fault four size filled fits =
    rw (read_full-append header (payload ++ rest) 4 fault (sym four), read_frame)
      (ground (arith, read_full-append payload rest (u32 header) fault))

-- A frame of 1 to 2^20 bytes that was written with success to a writer that had sent nothing, in
-- however many pieces, is read back whole, with the count
-- of its bytes, and what follows it in the stream stays unread.
pub read_frame-write_frame :
    (w w' : Writer) (payload rest : Bytes) (fault : ReadError)
    → w.sent ≡ []
    → 0 < length payload
    → length payload ≤ max_frame_bytes
    → write_frame w payload ≡ (w', true)
    → read_frame (record { input = w'.sent ++ rest; fault = fault })
      ≡ ok payload (4 + length payload) (record { input = rest; fault = fault })
read_frame-write_frame w w' payload rest fault fresh filled fits done =
    let header = put_u32 (length payload % 2 ^ 32) in
    let (left, joined, full) = rw done at (write_frame-splits w payload) in
    let sent : w'.sent ≡ header ++ payload =
      sym (append-nil w'.sent)
      ∙ ap (◌++◌ w'.sent) (sym (full refl))
      ∙ joined
      ∙ ap (λ z. z ++ (header ++ payload)) fresh in
    rw (sent, append_assoc header payload rest)
      (read_frame-append header payload rest fault (unfold put_u32 in refl)
        (header_size (length payload) fits) filled fits)

-- A frame that is read has 1 to 2^20 bytes, the count is four more, and the stream held the length
-- bytes, the frame and what is left.
pub read_frame_bounds :
    (r r' : Reader) (frame : Bytes) (n : ℕ)
    → read_frame r ≡ ok frame n r'
    → (0 < length frame)
      × (length frame ≤ max_frame_bytes)
      × (n ≡ 4 + length frame)
      × (drop 4 r.input ≡ frame ++ r'.input)
unfolding read_frame read_full
read_frame_bounds r r' frame n h = ground (
  arith,
  length-take (u32 (take 4 r.input)) (drop 4 r.input),
  take-append-drop (u32 (take 4 r.input)) (drop 4 r.input),
)
