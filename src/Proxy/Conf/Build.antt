-- ===== src/Proxy/Conf/Build.antt =====
-- src/proxy/config.cpp: `Builder`, what its functions share: the checks of a directive and the settings that
-- blocks inherit.
pub mod Upstreams
pub mod Pass
pub mod Locations
pub mod Servers
pub mod Top
use starweb.Base.{
  arith, ℕ, zero, suc, ◌≡◌, refl, Bool, true, false, not, ◌||◌, ◌&&◌, Option, none, some, List, [],
  ◌∷◌, ◌++◌, ◌==◌, leb, ltb, length, if◌then◌else◌,
}
use starweb.Base.Bytes.{Bytes, codes, equal, is_empty, lower}
use starweb.Base.Dict.{Dict, lookup, insert}
use starweb.Base.Int.{ℤ, pos}
use starweb.Proxy.{HeaderRule}
use starweb.Proxy.Conf.{Result, ok, error, ◌>>=◌, ◌>>◌}
use starweb.Proxy.Conf.Lexer.{at}
use starweb.Proxy.Conf.Tree.{Node, name_of, args_of, is_block, file_of, line_of}
use starweb.Proxy.Conf.Value.{parse_duration, is_alnum, is_lower}

abbrev pub is_any : Bytes → List Bytes → Bool
is_any name [] = false
is_any name (n ∷ names) = equal n name || is_any name names

abbrev pub all_directives : List Bytes
all_directives =
    codes "error_log"
    ∷ codes "stwp"
    ∷ codes "access_log"
    ∷ codes "keepalive_timeout"
    ∷ codes "client_max_body_size"
    ∷ codes "tls_trusted_certificate"
    ∷ codes "upstream"
    ∷ codes "server"
    ∷ codes "keepalive"
    ∷ codes "listen"
    ∷ codes "server_name"
    ∷ codes "tls_certificate"
    ∷ codes "tls_certificate_key"
    ∷ codes "location"
    ∷ codes "proxy_pass"
    ∷ codes "proxy_set_header"
    ∷ codes "proxy_connect_timeout"
    ∷ codes "proxy_read_timeout"
    ∷ codes "root"
    ∷ codes "index"
    ∷ codes "return"
    ∷ []

abbrev pub known_variables : List Bytes
known_variables =
    codes "remote_addr"
    ∷ codes "host"
    ∷ codes "scheme"
    ∷ codes "request_uri"
    ∷ codes "proxy_host"
    ∷ codes "server_port"
    ∷ []

-- A text between double quotes.
abbrev pub in_quotes : Bytes → Bytes
in_quotes s = codes "\"" ++ (s ++ codes "\"")

-- n.args[i]; the callers have counted the arguments.
abbrev pub nth_arg : ℕ → List Bytes → Bytes
nth_arg i [] = []
nth_arg zero (a ∷ args) = a
nth_arg (suc i) (a ∷ args) = nth_arg i args

abbrev pub arg : ℕ → Node → Bytes
arg i n = nth_arg i (args_of n)

abbrev pub fail {ℓ} : {A : Type ℓ} → Node → Bytes → Result A
fail n msg = error (at (file_of n) (line_of n) ++ msg)

unfoldable pub misplaced {ℓ} : {A : Type ℓ} → Node → Result A
misplaced n =
    if is_any (name_of n) all_directives
    then fail n (in_quotes (name_of n) ++ codes " directive is not allowed here")
    else fail n (codes "unknown directive " ++ in_quotes (name_of n))

pub misplaced-ne-ok {ℓ} : {A : Type ℓ} {x : A} (n : Node) → ¬ (misplaced n ≡ ok x)
unfolding misplaced
misplaced-ne-ok n h = ground arith

-- Goes on when the test holds.
abbrev pub check : Bool → Node → Bytes → Result (Unit {0})
check true n msg = ok tt
check false n msg = fail n msg

pub check-eq-ok {ℓ} :
    {B : Type ℓ} (b : Bool) (n : Node) (msg : Bytes) (k : Result B) {x : B}
    → (check b n msg >> k) ≡ ok x
    → (b ≡ true) × (k ≡ ok x)
check-eq-ok true n msg k h = (refl, h)
check-eq-ok false n msg k h = absurd (cc)

abbrev pub arity : Node → ℕ → ℕ → Result (Unit {0})
arity n least most =
    check (leb least (length (args_of n)) && leb (length (args_of n)) most) n
      (codes "invalid number of arguments in " ++ (in_quotes (name_of n) ++ codes " directive"))

unfoldable pub simple : Node → ℕ → ℕ → Result (Unit {0})
simple n least most =
    check (not (is_block n)) n
      (codes "directive " ++ (in_quotes (name_of n) ++ codes " takes no block"))
    >> arity n least most

unfoldable pub block : Node → ℕ → ℕ → Result (Unit {0})
block n least most =
    check (is_block n) n
      (codes "directive " ++ (in_quotes (name_of n) ++ codes " has no opening \"{\""))
    >> arity n least most

-- The directives that a block has had, by name.
abbrev pub Seen : Type 0
Seen = Dict Node

unfoldable pub once : Seen → Node → Result Seen
once seen n = elim (lookup (name_of n) seen) [
  | some m ↦ fail n (in_quotes (name_of n) ++ codes " directive is duplicate")
  | none ↦ ok (insert (name_of n) n seen)
]

unfoldable pub duration : Node → Result ℕ
duration n = elim (parse_duration (arg 0 n)) [
  | some ms ↦ ok ms
  | none ↦
      fail n
        (codes "invalid time " ++ (in_quotes (arg 0 n) ++ (codes " in " ++ in_quotes (name_of n))))
]

-- The text of a variable's name at the front.
unfoldable pub variable_front : Bytes → Bytes
variable_front [] = []
variable_front (c ∷ s) =
    let rest = variable_front s in if is_lower c || c == b'_' then c ∷ rest else []

-- Behind each `$` of the value stands the name of a variable; `s` is what is left of the value.
unfoldable pub check_variables : Node → Bytes → Bytes → Result (Unit {0})
check_variables n value [] = ok tt
check_variables n value (c ∷ s) =
    let rest = check_variables n value s in
    if c == b'$'
    then check (not (is_empty (variable_front s))) n
        (codes "invalid variable name in " ++ in_quotes value)
      >> check (is_any (variable_front s) known_variables) n
          (codes "unknown " ++ (in_quotes (variable_front s) ++ codes " variable"))
      >> rest
    else rest

pub record Inherited : Type 0 where
  pub headers : List HeaderRule
  pub connect_ms : ℤ
  pub read_ms : ℤ

abbrev pub inherited : Inherited
inherited = record { headers = []; connect_ms = pos 5000; read_ms = pos 60000 }

-- The settings of a block while its directives are read.
pub record Settings : Type 0 where
  pub inh : Inherited
  pub headers_reset : Bool
  pub seen : Seen

abbrev pub settings : Inherited → Settings
settings inh = record { inh = inh; headers_reset = false; seen = [] }

abbrev header_byte : ℕ → Bool
header_byte c = is_alnum c || c == b'-' || c == b'_'

unfoldable pub header_bytes : Bytes → Bool
header_bytes [] = true
header_bytes (c ∷ s) = header_byte c && header_bytes s

unfoldable pub has_rule : Bytes → List HeaderRule → Bool
has_rule name [] = false
has_rule name (rule ∷ rules) = equal rule.name name || has_rule name rules

-- The headers in force before the directive: the first one of a block drops the inherited ones.
abbrev headers_here : Settings → List HeaderRule
headers_here st = if st.headers_reset then st.inh.headers else []

unfoldable pub set_header_rule : Node → Settings → Result Settings
set_header_rule n st = do
  simple n 2 2
  let name = lower (arg 0 n)
  let before = headers_here st
  check (not (is_empty name) && header_bytes name) n
      (codes "invalid header name " ++ in_quotes (arg 0 n))
  check (not (equal name (codes "content-length") || equal name (codes "connection"))) n
      (in_quotes name ++ codes " is managed by the proxy and cannot be set")
  check_variables n (arg 1 n) (arg 1 n)
  check (not (has_rule name before)) n
      (codes "header " ++ (in_quotes name ++ codes " is set twice"))
  ok (record st {
    inh = record (st.inh) { headers = before ++ record { name = name; value = arg 1 n } ∷ [] };
    headers_reset = true;
  })

abbrev pub with_timeout : Node → ℕ → Inherited → Inherited
with_timeout n ms inh =
    if equal (name_of n) (codes "proxy_connect_timeout")
    then record inh { connect_ms = pos ms }
    else record inh { read_ms = pos ms }

unfoldable pub set_timeout : Node → Settings → Result Settings
set_timeout n st = do
  simple n 1 1
  seen ← once (st.seen) n
  ms ← duration n
  check (not (ms == 0)) n (in_quotes (name_of n) ++ codes " must be greater than 0")
  ok (record st { inh = with_timeout n ms st.inh; seen = seen })

-- The settings behind `n`, or `none` when `n` is not a setting that blocks inherit.
unfoldable pub inheritable : Node → Settings → Result (Option Settings)
inheritable n st =
    if equal (name_of n) (codes "proxy_set_header")
    then (set_header_rule n st >>= λ s. ok (some s))
    else if equal (name_of n) (codes "proxy_connect_timeout")
        || equal (name_of n) (codes "proxy_read_timeout")
    then (set_timeout n st >>= λ s. ok (some s))
    else ok none
