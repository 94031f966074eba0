-- ===== src/Proxy/Conf/Value.antt =====
-- src/proxy/config.cpp: the values of directives, times, sizes, ports, hosts and addresses.
pub mod Bounds
use mathlib.Core.Option
use starweb.Base.{
  ℕ, suc, ◌+◌, ◌-◌, ◌*◌, ◌%◌, ◌^◌, ◌≤◌, Bool, true, false, not, ◌||◌, ◌&&◌, Option, none, some,
  List, [], ◌∷◌, ◌++◌, ◌==◌, leb, ltb, length, take, drop, if◌then◌else◌,
}
use starweb.Base.Bytes.{Bytes, codes, equal, is_digit, is_empty, lower, find, rfind, substr}
use starweb.Base.Decimal.{digits_value, u64_mod}
use starweb.Base.Maybe.{◌>>=◌, ◌>>◌, guard}

unfoldable pub digits_only : Bytes → Bool
digits_only [] = true
digits_only (c ∷ s) = is_digit c && digits_only s

abbrev pub all_digits : Bytes → Bool
all_digits s = not (is_empty s) && digits_only s

-- The length of the run of digits at the front.
unfoldable pub digits_front : Bytes → ℕ
digits_front [] = 0
digits_front (c ∷ s) = let rest = digits_front s in if is_digit c then suc rest else 0

-- The milliseconds of a unit.
unfoldable pub time_unit : Bytes → Option ℕ
time_unit unit =
    if is_empty unit || equal unit (codes "s")
    then some 1000
    else if equal unit (codes "ms")
    then some 1
    else if equal unit (codes "m")
    then some (60 * 1000)
    else if equal unit (codes "h")
    then some (3600 * 1000)
    else none

abbrev pub day_ms : ℕ
day_ms = 24 * 3600 * 1000

-- The digits are at most 9, so `std::stoll` gives their value, and the product stays below 2^63.
unfoldable pub parse_duration : Bytes → Option ℕ
parse_duration s = do
  let k = digits_front s
  guard (not (k == 0 || ltb 9 k))
  let v = digits_value 0 (take k s)
  mult ← time_unit (drop k s)
  guard (leb (v * mult) day_ms)
  some (v * mult)

-- The shift of a unit.
unfoldable pub size_unit : Bytes → Option ℕ
size_unit unit =
    if is_empty unit
    then some 0
    else if equal unit (codes "k")
    then some 10
    else if equal unit (codes "m")
    then some 20
    else if equal unit (codes "g")
    then some 30
    else none

-- A shift of a `uint64_t` drops what does not fit.
unfoldable pub parse_size : Bytes → Option ℕ
parse_size s = do
  let k = digits_front s
  guard (not (k == 0 || ltb 12 k))
  shift ← size_unit (lower (drop k s))
  some (digits_value 0 (take k s) * 2 ^ shift % u64_mod)

unfoldable pub parse_port : Bytes → Option ℕ
parse_port s = do
  guard (all_digits s && leb (length s) 5)
  let v = digits_value 0 s
  guard (leb 1 v && leb v 65535)
  some v

abbrev pub is_lower : ℕ → Bool
is_lower c = leb b'a' c && leb c b'z'

abbrev pub is_alnum : ℕ → Bool
is_alnum c = is_digit c || is_lower c || (leb b'A' c && leb c b'Z')

abbrev pub host_byte : ℕ → Bool
host_byte c = is_alnum c || c == b'.' || c == b'-' || c == b'_' || c == b':'

unfoldable pub host_bytes : Bytes → Bool
host_bytes [] = true
host_bytes (c ∷ s) = host_byte c && host_bytes s

abbrev pub valid_hostname : Bytes → Bool
valid_hostname h = not (is_empty h) && host_bytes h

-- `rest` after a bracketed host: nothing, or what starts with a colon.
abbrev starts_colon : Bytes → Bool
starts_colon [] = true
starts_colon (c ∷ s) = c == b':'

-- The host and what follows it, the colon included.
unfoldable pub split_address : Bytes → Option (Bytes × Bytes)
split_address [] = some ([], [])
split_address (c ∷ s) =
    if c == b'['
    then (do
      close ← find b']' (c ∷ s)
      guard (starts_colon (drop (close + 1) (c ∷ s)))
      some (substr 1 (close - 1) (c ∷ s), drop (close + 1) (c ∷ s)))
    else elim (rfind b':' (c ∷ s)) [
      | none ↦ some (c ∷ s, [])
      | some colon ↦ elim (find b':' (c ∷ s)) [
        | none ↦ none
        | some i ↦ if i == colon then some (take colon (c ∷ s), drop colon (c ∷ s)) else none
      ]
    ]

pub record Address : Type 0 where
  pub host : Bytes
  -- `has_port` and the port
  pub port : Option ℕ

abbrev pub port_after : Bytes → Option (Option ℕ)
port_after [] = some none
port_after (c ∷ s) = Option.map some (parse_port s)

unfoldable pub parse_host_port : Bytes → Option Address
parse_host_port s = do
  (host, rest) ← split_address s
  port ← port_after rest
  guard (valid_hostname (lower host))
  some (record { host = lower host; port = port })
