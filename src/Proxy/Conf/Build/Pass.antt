-- ===== src/Proxy/Conf/Build/Pass.antt =====
-- src/proxy/config.cpp: `Builder::build_proxy_pass`.
use starweb.Base.{
  ℕ, suc, Bool, true, false, not, ◌&&◌, Option, none, some, List, [], ◌∷◌, ◌++◌, length, take, drop,
  if◌then◌else◌,
}
use starweb.Base.Bytes.{Bytes, codes, equal, lower, find, find_sub, starts_with}
use starweb.Base.Decimal.{to_string}
use starweb.Base.Int.{pos}
use starweb.Proxy.{UpstreamConfig, ProxyPass, Location}
use starweb.Proxy.Conf.{Result, ok, ◌>>=◌}
use starweb.Proxy.Conf.Build.{in_quotes, arg, fail}
use starweb.Proxy.Conf.Build.Upstreams.{peer_at}
use starweb.Proxy.Conf.Tree.{Node}
use starweb.Proxy.Conf.Value.{Address, parse_host_port}
use starweb.Url.{format_host}

-- What the builder keeps beside the servers: `cfg_.upstreams` and `first_star_pass_`.
pub record Shared : Type 0 where
  pub upstreams : List UpstreamConfig
  pub first_star_pass : Option Node

-- The scheme is star, and what follows the scheme.
unfoldable pub pass_scheme : Node → Result (Bool × Bytes)
pass_scheme n =
    if starts_with (codes "moon://") (arg 0 n)
    then ok (false, drop 7 (arg 0 n))
    else if starts_with (codes "star://") (arg 0 n)
    then ok (true, drop 7 (arg 0 n))
    else elim (find_sub (codes "://") (arg 0 n)) [
      | some i ↦ fail n (codes "proxy_pass accepts only moon:// and star:// URLs")
      | none ↦ fail n (codes "invalid URL prefix in " ++ in_quotes (arg 0 n))
    ]

abbrev pub before_slash : Bytes → Bytes
before_slash s = elim (find b'/' s) [ none ↦ s | some i ↦ take i s ]

abbrev pub uri_of : Bytes → Option Bytes
uri_of s = elim (find b'/' s) [ none ↦ none | some i ↦ some (drop i s) ]

abbrev pub host_of : Node → Bytes → Result Address
host_of n s = elim (parse_host_port s) [
  | some a ↦ ok a
  | none ↦ fail n (codes "invalid host in " ++ in_quotes (arg 0 n))
]

-- The last upstream that passes a test, its index counted from `i`, or what is given.
unfoldable pub last_upstream :
    (UpstreamConfig → Bool)
    → ℕ
    → List UpstreamConfig
    → Option (ℕ × UpstreamConfig)
    → Option (ℕ × UpstreamConfig)
last_upstream p i [] found = found
last_upstream p i (u ∷ us) found =
    let rest = last_upstream p (suc i) us in if p u then rest (some (i, u)) else rest found

abbrev pub named : Bytes → UpstreamConfig → Bool
named host u = not u.implicit && equal (lower u.name) host

abbrev pub made_for : Bytes → UpstreamConfig → Bool
made_for key u = u.implicit && equal u.name key

-- The upstream that a bare host names.
unfoldable pub by_name : Address → List UpstreamConfig → Option (ℕ × UpstreamConfig)
by_name a us = elim (a.port) [ some port ↦ none | none ↦ last_upstream (named a.host) 0 us none ]

abbrev pub pass_port : Bool → Address → ℕ
pass_port star a = elim (a.port) [ some port ↦ port | none ↦ if star then 8490 else 8090 ]

abbrev pub pass_key : Bool → Address → Bytes
pass_key star a = format_host a.host ++ (codes ":" ++ to_string (pass_port star a))

-- An upstream that no block declares, with one peer.
abbrev pub implicit_upstream : Bool → Address → UpstreamConfig
implicit_upstream star a = record {
  name = pass_key star a;
  peers = peer_at a.host (pass_port star a) ∷ [];
  keepalive = pos 0;
  implicit = true;
}

abbrev pub host_name : Bool → Address → Bytes
host_name star a = elim (a.port) [ some port ↦ pass_key star a | none ↦ format_host a.host ]

-- The index of the upstream, the name that is sent to it, and the upstreams, where the implicit one is added if it
-- is not there yet.
unfoldable pub choose_upstream :
    Bool → Address → List UpstreamConfig → ℕ × (Bytes × List UpstreamConfig)
choose_upstream star a us = elim (by_name a us) [
  | some iu ↦ (iu.0, (iu.1.name, us))
  | none ↦ elim (last_upstream (made_for (pass_key star a)) 0 us none) [
    | some iu ↦ (iu.0, (host_name star a, us))
    | none ↦ (length us, (host_name star a, us ++ implicit_upstream star a ∷ []))
  ]
]

abbrev first_of : Bool → Node → Option Node → Option Node
first_of star n (some m) = some m
first_of star n none = if star then some n else none

abbrev pub pass_to : Bool → ℕ × (Bytes × List UpstreamConfig) → Option Bytes → ProxyPass
pass_to star chosen uri = record {
  star = star;
  upstream = pos chosen.0;
  proxy_host = chosen.1.0;
  has_uri = elim uri [ none ↦ false | some u ↦ true ];
  uri = elim uri [ none ↦ [] | some u ↦ u ];
}

unfoldable pub build_proxy_pass : Node → Location → Shared → Result (Location × Shared)
build_proxy_pass n loc pool = do
  (star, rest) ← pass_scheme n
  a ← host_of n (before_slash rest)
  let chosen = choose_upstream star a pool.upstreams
  ok (
    record loc { proxy = true; pass = pass_to star chosen (uri_of rest) },
    record { upstreams = chosen.1.1; first_star_pass = first_of star n pool.first_star_pass },
  )
