-- ===== src/Examples/Frames.antt =====
-- internal/milter/protocol.go: a frame in pieces, and payloads.
use milter_guard.Prelude.{
  ℕ, ◌+◌, ◌<◌, ◌≤◌, ◌%◌, ◌^◌, true, false, some, List, [], ◌∷◌, ◌++◌, ◌≡◌, ◌≢◌, ◌⊎◌, ◌↔◌, refl,
  arith, length, drop,
}
use milter_guard.Prelude.Bytes.{
  Bytes, codes, contains, cut, split_last, equal_fold, fold_case, to_lower, bytes_eq, trim_set,
  trim_left_set,
}
use milter_guard.Wire.Command.{put_u32, u32}
use milter_guard.Wire.Frame.{
  Reader, eof, ok, read_full, read_frame, max_frame_bytes, Writer, accepts, fails, write_all,
  write_frame,
}
use milter_guard.Wire.Frame.Laws.{read_frame-write_frame, write_frame-sent, read_frame_bounds}
use milter_guard.Wire.Payload.{parse_header}
use milter_guard.Wire.Payload.Language.{parse_header_iff}
use milter_guard.Wire.Macros.{
  initial_scan, macro_name, scan_macro, scan_pair, scan_pairs, parse_session_macros,
}
use milter_guard.Wire.Macros.Laws.{
  encode_macros, scan_macros, AreMacros, WithinLimits, interface_value, daemon_value, or_else,
  parse_session_macros-encode_macros, parse_session_macros-WithinLimits,
  parse_session_macros_receiver,
}

-- A connection that takes three bytes, then one, and then all.
abbrev slow : Writer
slow = record { sent = []; script = accepts 3 ∷ accepts 1 ∷ [] }

abbrev slow_after : Writer
slow_after = record { sent = 0 ∷ 0 ∷ 0 ∷ 2 ∷ 99 ∷ 100 ∷ []; script = [] }

writes : write_frame slow (99 ∷ 100 ∷ []) ≡ (slow_after, true)
unfolding write_frame write_all put_u32
writes = refl

read_frame-write_frame_example :
    read_frame (record { input = slow_after.sent ++ 7 ∷ []; fault = eof })
    ≡ ok (99 ∷ 100 ∷ []) 6 (record { input = 7 ∷ []; fault = eof })
read_frame-write_frame_example =
    read_frame-write_frame slow slow_after (99 ∷ 100 ∷ []) (7 ∷ []) eof refl (omega arith)
      (omega arith) writes

-- A connection that breaks after two bytes.
abbrev broken : Writer
broken = record { sent = []; script = fails 2 ∷ [] }

write_frame-sent_example :
    let (w', done) = write_frame broken (99 ∷ []) in
    (rest : Bytes) × (w'.sent ++ rest ≡ put_u32 (length {A = ℕ} (99 ∷ []) % 2 ^ 32) ++ 99 ∷ [])
    × ((done ≡ false) ⊎ (rest ≡ []))
write_frame-sent_example = write_frame-sent broken (99 ∷ [])

abbrev stream : Reader
stream = record { input = 0 ∷ 0 ∷ 0 ∷ 1 ∷ 65 ∷ 9 ∷ []; fault = eof }

reads : read_frame stream ≡ ok (65 ∷ []) 5 (record { input = 9 ∷ []; fault = eof })
unfolding read_frame read_full u32
reads = refl

read_frame_bounds_example :
    (0 < length {A = ℕ} (65 ∷ []))
    × (length {A = ℕ} (65 ∷ []) ≤ max_frame_bytes)
    × (5 ≡ 4 + length {A = ℕ} (65 ∷ []))
    × (drop 4 stream.input ≡ (65 ∷ []) ++ 9 ∷ [])
read_frame_bounds_example =
    read_frame_bounds stream (record { input = 9 ∷ []; fault = eof }) (65 ∷ []) 5 reads

abbrev a_byte : Bytes
a_byte = 65 ∷ []

abbrev b_byte : Bytes
b_byte = 66 ∷ []

parse_header_iff_example :
    (parse_header (a_byte ++ 0 ∷ (b_byte ++ 0 ∷ [])) ≡ some (a_byte, b_byte)) ↔ (
      (a_byte ++ 0 ∷ (b_byte ++ 0 ∷ []) ≡ a_byte ++ 0 ∷ (b_byte ++ 0 ∷ []))
      × (a_byte ≢ [])
      × (contains 0 a_byte ≡ false)
      × (contains 0 b_byte ≡ false))
parse_header_iff_example = parse_header_iff (a_byte ++ 0 ∷ (b_byte ++ 0 ∷ [])) a_byte b_byte

-- The daemon's address and then the interface's.
abbrev addresses : List (Bytes × Bytes)
addresses = (codes "{daemon_addr}", codes "::") ∷ (codes "{if_addr}", codes "10.0.0.1") ∷ []

addresses-AreMacros : AreMacros addresses
unfolding contains
addresses-AreMacros = (λ e. cc, refl, refl, (λ e. cc, refl, refl, tt))

addresses_valid : (parse_session_macros (b'C' ∷ encode_macros addresses)).valid ≡ true
unfolding encode_macros parse_session_macros scan_pairs scan_pair scan_macro macro_name equal_fold
    fold_case to_lower bytes_eq trim_set trim_left_set cut split_last
addresses_valid = refl

parse_session_macros-encode_macros_example :
    parse_session_macros (b'C' ∷ encode_macros addresses) ≡ (
      let (values, valid) = scan_macros addresses initial_scan in
      record { target = b'C'; values = values; valid = valid })
parse_session_macros-encode_macros_example =
    parse_session_macros-encode_macros b'C' addresses addresses-AreMacros (omega arith)

parse_session_macros-WithinLimits_example :
    WithinLimits (parse_session_macros (b'M' ∷ 106 ∷ 0 ∷ [])).values
parse_session_macros-WithinLimits_example = parse_session_macros-WithinLimits (b'M' ∷ 106 ∷ 0 ∷ [])

parse_session_macros_receiver_example :
    (parse_session_macros (b'C' ∷ encode_macros addresses)).values.receiver_address
    ≡ or_else (interface_value addresses) (or_else (daemon_value addresses) [])
parse_session_macros_receiver_example =
    parse_session_macros_receiver b'C' addresses addresses-AreMacros (omega arith) addresses_valid
