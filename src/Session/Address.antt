-- ===== src/Session/Address.antt =====
-- internal/netsafety/netsafety.go: `CanonicalIP`; internal/milter/protocol.go: `parseConnectIP`.
-- `netip.ParseAddr` is a parameter.
use milter_guard.Prelude.{
  ℕ, ◌/◌, ◌%◌, ◌^◌, Bool, true, false, ◌&&◌, ◌||◌, not, Option, none, some, [], ◌∷◌, ◌==◌, ltb,
  if◌then◌else◌, length, drop, ◌>>=◌, ◌>>◌, guard,
}
use milter_guard.Prelude.Bytes.{Bytes, cut, split_last, contains}

-- `netip.Addr` of a valid address: its bits, and the zone of an IPv6 one.
pub data Addr : Type 0 where
  v4 : ℕ → Addr
  v6 : ℕ → Bytes → Addr

unfoldable pub is_4in6 : Addr → Bool
is_4in6 (v4 n) = false
is_4in6 (v6 n zone) = n / 2 ^ 32 == 0xffff

abbrev pub is_4 : Addr → Bool
is_4 (v4 n) = true
is_4 (v6 n zone) = false

abbrev pub is_6 : Addr → Bool
is_6 a = not (is_4 a)

unfoldable pub without_zone : Addr → Addr
without_zone (v4 n) = v4 n
without_zone (v6 n zone) = v6 n []

unfoldable pub unmap : Addr → Addr
unmap (v4 n) = v4 n
unmap (v6 n zone) = if n / 2 ^ 32 == 0xffff then v4 (n % 2 ^ 32) else v6 n zone

unfoldable pub canonical_ip : Addr → Addr
canonical_ip a = if is_6 a then unmap (without_zone a) else unmap a

-- The address family is a byte, and two bytes of a port follow it.
unfoldable pub parse_connect_ip : (Bytes → Option Addr) → Bytes → Option Addr
parse_connect_ip parse_addr payload = do
  (_, remainder) ← cut 0 payload
  guard (not (ltb (length remainder) 4))
  (family, address_bytes) ← elim remainder [ [] ↦ none | f ∷ rest ↦ some (f, drop 2 rest) ]
  guard (family == b'4' || family == b'6')
  guard (not (ltb (length address_bytes) 2))
  (text, last) ← split_last address_bytes
  guard (last == 0 && not (contains 0 text))
  addr ← parse_addr text
  guard (not (family == b'4' && not (is_4 addr) && not (is_4in6 addr)))
  guard (not (family == b'6' && not (is_6 addr)))
  some (canonical_ip addr)
