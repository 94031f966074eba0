-- ===== src/Url.antt =====
-- src/common/url_parser.hpp: `ParsedURL`, `parse_url` and `format_host`.
pub mod RoundTrip
pub mod Sound
mod Tests
use mathlib.Core.Option
use starweb.Base.{
  ℕ, suc, ◌+◌, ◌-◌, Bool, true, false, not, ◌&&◌, ◌||◌, Option, none, some, List, [], ◌∷◌, ◌++◌,
  ◌==◌, if◌then◌else◌, take, drop, length,
}
use starweb.Base.Bytes.{Bytes, codes, equal, is_empty, find, find_sub, substr, lower}
use starweb.Base.Decimal.{stoi}
use starweb.Base.Maybe.{◌>>=◌, ◌>>◌, guard}
use starweb.Base.Int.{ℤ, pos}

pub record ParsedUrl : Type 0 where
  pub scheme : Bytes
  pub host : Bytes
  pub port : ℤ
  pub path : Bytes

abbrev pub moon : Bytes
moon = codes "moon"

abbrev pub star : Bytes
star = codes "star"

abbrev pub scheme_delim : Bytes
scheme_delim = codes "://"

abbrev pub default_port : Bytes → ℤ
default_port scheme = if equal scheme moon then pos 8090 else pos 8490

-- What may follow a bracketed host: nothing, or a colon and the text of the port.
unfoldable pub after_bracket : Bytes → Bytes → Option (Bytes × Bytes)
after_bracket host [] = some (host, [])
after_bracket host (c ∷ port) = if c == b':' then some (host, port) else none

-- The bracketed form `[host]` or `[host]:port`: the host and the text of the port.
unfoldable pub split_bracket : Bytes → Option (Bytes × Bytes)
split_bracket host_port = elim (find b']' host_port) [
  | none ↦ none
  | some close ↦
      if close == 1
      then none
      else after_bracket (substr 1 (close - 1) host_port) (drop (close + 1) host_port)
]

-- `host` or `host:port`; a colon with nothing behind it is refused.
unfoldable pub split_plain : Bytes → Option (Bytes × Bytes)
split_plain host_port = elim (find b':' host_port) [
  | none ↦ some (host_port, [])
  | some colon ↦
      if is_empty (drop (colon + 1) host_port)
      then none
      else some (take colon host_port, drop (colon + 1) host_port)
]

unfoldable pub split_host_port : Bytes → Option (Bytes × Bytes)
split_host_port [] = none
split_host_port (c ∷ s) = if c == b'[' then split_bracket (c ∷ s) else split_plain (c ∷ s)

-- The port that the text states, or the scheme's.
unfoldable pub read_port : Bytes → ℤ → Option ℤ
read_port text default = if is_empty text then some default else stoi text

-- `host_port` and `path` around the first slash; no slash is the path "/".
unfoldable pub split_path : Bytes → Bytes × Bytes
split_path rest = elim (find b'/' rest) [
  | none ↦ (rest, codes "/")
  | some i ↦ (take i rest, drop i rest)
]

-- What follows "://", for a scheme that is already in lower case and known.
unfoldable pub parse_rest : Bytes → Bytes → Option ParsedUrl
parse_rest scheme rest = do
  guard (not (is_empty rest))
  let (host_port, path) = split_path rest
  (host, port_part) ← split_host_port host_port
  port ← read_port port_part (default_port scheme)
  guard (not (is_empty host))
  some (record { scheme = scheme; host = host; port = port; path = path })

unfoldable pub parse_url : Bytes → Option ParsedUrl
parse_url url = do
  scheme_pos ← find_sub scheme_delim url
  let scheme = lower (take scheme_pos url)
  guard (equal scheme moon || equal scheme star)
  parse_rest scheme (drop (scheme_pos + length scheme_delim) url)

-- An IPv6 literal is put back into brackets.
unfoldable pub format_host : Bytes → Bytes
format_host host = elim (find b':' host) [ none ↦ host | some _ ↦ codes "[" ++ (host ++ codes "]") ]
