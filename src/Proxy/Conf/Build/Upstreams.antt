-- ===== src/Proxy/Conf/Build/Upstreams.antt =====
-- src/proxy/config.cpp: `Builder::build_upstream`.
use starweb.Base.{
  ℕ, ◌+◌, Bool, true, false, not, ◌||◌, ◌&&◌, Option, none, some, List, [], ◌∷◌, ◌++◌, leb, ltb,
  length, take, drop, if◌then◌else◌,
}
use starweb.Base.Bytes.{Bytes, codes, equal, lower, find}
use starweb.Base.Decimal.{digits_value}
use starweb.Base.Int.{pos}
use starweb.Proxy.{Peer, UpstreamConfig}
use starweb.Proxy.Conf.{Result, ok, ◌>>=◌, ◌>>◌, each}
use starweb.Proxy.Conf.Build.{in_quotes, arg, fail, misplaced, check, simple, Seen, once}
use starweb.Proxy.Conf.Tree.{Node, name_of, args_of, children_of}
use starweb.Proxy.Conf.Value.{Address, all_digits, parse_duration, parse_host_port}

abbrev pub peer_at : Bytes → ℕ → Peer
peer_at host port = record {
  host = host;
  port = port;
  weight = pos 1;
  max_fails = pos 1;
  fail_timeout_ms = pos 10000;
}

-- Is there an upstream of this name, upper and lower case alike?
unfoldable pub has_upstream : Bytes → List UpstreamConfig → Bool
has_upstream name [] = false
has_upstream name (u ∷ us) = equal (lower u.name) (lower name) || has_upstream name us

-- A parameter `key=value`; without `=` the key is the whole of it and the value is empty.
abbrev pub key_of : Bytes → Bytes
key_of a = elim (find b'=' a) [ none ↦ a | some eq ↦ take eq a ]

abbrev pub value_of : Bytes → Bytes
value_of a = elim (find b'=' a) [ none ↦ [] | some eq ↦ drop (eq + 1) a ]

-- The number of at most three digits.
abbrev small : Bytes → Option ℕ
small val = if all_digits val && ltb (length val) 4 then some (digits_value 0 val) else none

abbrev pub positive : Option ℕ → Option ℕ
positive none = none
positive (some v) = if ltb 0 v then some v else none

-- The peer with the parameter, or nothing when the parameter is not one.
unfoldable pub with_param : Bytes → Bytes → Peer → Option Peer
with_param key val p =
    if equal key (codes "weight")
    then elim (positive (small val)) [ none ↦ none | some v ↦ some (record p { weight = pos v }) ]
    else if equal key (codes "max_fails")
    then elim (small val) [ none ↦ none | some v ↦ some (record p { max_fails = pos v }) ]
    else if equal key (codes "fail_timeout")
    then elim (parse_duration val) [
      | none ↦ none
      | some ms ↦ some (record p { fail_timeout_ms = pos ms })
    ]
    else none

unfoldable pub peer_param : Node → Bytes → Peer → Result Peer
peer_param n a p = elim (with_param (key_of a) (value_of a) p) [
  | some q ↦ ok q
  | none ↦ fail n (codes "invalid parameter " ++ in_quotes a)
]

unfoldable pub address_of : Node → Result Address
address_of n = elim (parse_host_port (arg 0 n)) [
  | some a ↦ ok a
  | none ↦ fail n (codes "invalid address " ++ in_quotes (arg 0 n))
]

unfoldable pub port_of : Node → Address → Result ℕ
port_of n a = elim (a.port) [
  | some port ↦ ok port
  | none ↦ fail n (codes "upstream server " ++ (in_quotes (arg 0 n) ++ codes " has no port"))
]

-- The upstream so far and the directives it has had.
pub record Group : Type 0 where
  pub up : UpstreamConfig
  pub seen : Seen

unfoldable pub add_peer : Node → Group → Result Group
add_peer n g = do
  simple n 1 4
  a ← address_of n
  port ← port_of n a
  p ← each (peer_param n) (drop 1 (args_of n)) (peer_at a.host port)
  ok (record g { up = record (g.up) { peers = g.up.peers ++ p ∷ [] } })

unfoldable pub set_keepalive : Node → Group → Result Group
set_keepalive n g = do
  simple n 1 1
  seen ← once (g.seen) n
  check (all_digits (arg 0 n) && leb (length (arg 0 n)) 4) n
      (codes "invalid value " ++ (in_quotes (arg 0 n) ++ codes " in \"keepalive\""))
  ok (record g { up = record (g.up) { keepalive = pos (digits_value 0 (arg 0 n)) }; seen = seen })

unfoldable pub upstream_directive : Node → Group → Result Group
upstream_directive n g =
    if equal (name_of n) (codes "server")
    then add_peer n g
    else if equal (name_of n) (codes "keepalive")
    then set_keepalive n g
    else misplaced n

abbrev pub no_peers : Bytes → UpstreamConfig
no_peers name = record { name = name; peers = []; keepalive = pos 0; implicit = false }

abbrev pub has_peer : UpstreamConfig → Bool
has_peer u = elim (u.peers) [ [] ↦ false | p ∷ ps ↦ true ]

-- The upstreams behind the block `u`.
unfoldable pub build_upstream : Node → List UpstreamConfig → Result (List UpstreamConfig)
build_upstream u upstreams = do
  check (not (has_upstream (arg 0 u) upstreams)) u
      (codes "duplicate upstream " ++ in_quotes (arg 0 u))
  g ← each upstream_directive (children_of u) (record { up = no_peers (arg 0 u); seen = [] })
  check (has_peer g.up) u (codes "no servers are inside upstream " ++ in_quotes (arg 0 u))
  ok (upstreams ++ g.up ∷ [])
