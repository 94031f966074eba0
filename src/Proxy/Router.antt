-- ===== src/Proxy/Router.antt =====
-- src/proxy/router.cpp: which server and which location of the configuration a request belongs to. A
-- pointer into the configuration is the server or the location it points to.
pub mod Chosen
pub mod Longest
pub mod Named
pub mod Merge
pub mod Step
pub mod Best
use starweb.Base.{
  ℕ, suc, ◌+◌, ◌-◌, Bool, true, false, not, ◌&&◌, ◌||◌, Option, none, some, List, [], ◌∷◌,
  if◌then◌else◌, ltb, ◌==◌, length, take, drop,
}
use starweb.Base.Bytes.{
  Bytes, equal, find, rfind, lower, starts_with, is_empty, last_or_0, pop_back, substr,
}
use starweb.Proxy.{Match, Location, Listen, Server, Config}

abbrev in_brackets : Bytes → Bytes
in_brackets h = elim (find b']' h) [ none ↦ [] | some close ↦ substr 1 (close - 1) h ]

-- The port after the only colon goes.
abbrev without_port : Bytes → Bytes
without_port h = elim (rfind b':' h) [
  | none ↦ h
  | some colon ↦ elim (find b':' h) [ none ↦ h | some i ↦ if i == colon then take colon h else h ]
]

abbrev bare_host : Bytes → Bytes
bare_host [] = []
bare_host (c ∷ h) = if c == b'[' then in_brackets (c ∷ h) else without_port (c ∷ h)

abbrev drop_final_dot : Bytes → Bytes
drop_final_dot h = if last_or_0 h == b'.' then pop_back h else h

unfoldable pub normalize_host : Bytes → Bytes
normalize_host host = drop_final_dot (lower (bare_host host))

-- `std::find_if` of the first entry for the port.
unfoldable pub find_listen : ℕ → List Listen → Option Listen
find_listen port [] = none
find_listen port (x ∷ xs) =
    let rest = find_listen port xs in if x.port == port then some x else rest

-- What the loops of `pick_server` keep.
pub record Found : Type 0 where
  pub first : Option Server
  pub fallback : Option Server
  pub wildcard : Option Server
  pub wildcard_len : ℕ

-- host.size() > suffix.size() and host ends with the suffix
abbrev pub has_suffix : Bytes → Bytes → Bool
has_suffix host suffix =
    ltb (length suffix) (length host) && equal (drop (length host - length suffix) host) suffix

-- The suffix of a name that begins with a star.
abbrev pub star_suffix : Bytes → Option Bytes
star_suffix [] = none
star_suffix (c ∷ suffix) = if c == b'*' then some suffix else none

abbrev note_name : Bytes → Server → Bytes → Found → Found
note_name host srv name f = elim (star_suffix name) [
  | none ↦ f
  | some suffix ↦
      if has_suffix host suffix && ltb f.wildcard_len (length suffix)
      then record f { wildcard = some srv; wildcard_len = length suffix }
      else f
]

-- The loop over the names: `none` is the return of the server.
unfoldable pub scan_names : Bytes → Server → List Bytes → Found → Option Found
scan_names host srv [] f = some f
scan_names host srv (name ∷ names) f =
    let rest = scan_names host srv names (note_name host srv name f) in
    if equal name host then none else rest

abbrev pub or_this : Option Server → Server → Option Server
or_this none srv = some srv
or_this (some s) srv = some s

abbrev pub listens_here : Listen → Server → Found → Found
listens_here l srv f = record f {
  first = or_this f.first srv;
  fallback = if l.default_server then or_this f.fallback srv else f.fallback;
}

abbrev pub or_else : Option Server → Option Server → Option Server
or_else none b = b
or_else (some s) b = some s

unfoldable pub scan_servers : ℕ → Bytes → List Server → Found → Option Server
scan_servers port host [] f = or_else f.wildcard (or_else f.fallback f.first)
scan_servers port host (srv ∷ servers) f = elim (find_listen port srv.listens) [
  | none ↦ scan_servers port host servers f
  | some l ↦
      if is_empty host
      then scan_servers port host servers (listens_here l srv f)
      else elim (scan_names host srv srv.names (listens_here l srv f)) [
        | none ↦ some srv
        | some f' ↦ scan_servers port host servers f'
      ]
]

abbrev pub nothing_found : Found
nothing_found = record { first = none; fallback = none; wildcard = none; wildcard_len = 0 }

unfoldable pub pick_server : Config → ℕ → Bytes → Option Server
pick_server cfg port host = scan_servers port host cfg.servers nothing_found

abbrev longer_than : Option Location → Bytes → Bool
longer_than none path = true
longer_than (some best) path = ltb (length best.path) (length path)

unfoldable pub scan_locations : Bytes → List Location → Option Location → Option Location
scan_locations path [] best = best
scan_locations path (loc ∷ locs) best = elim loc.kind [
  | Match.exact ↦
      let rest = scan_locations path locs best in if equal loc.path path then some loc else rest
  | Match.prefix ↦
      scan_locations path locs
        (if starts_with loc.path path && longer_than best loc.path then some loc else best)
]

unfoldable pub pick_location : Server → Bytes → Option Location
pick_location srv path = scan_locations path srv.locations none
