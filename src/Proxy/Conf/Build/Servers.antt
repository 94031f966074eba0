-- ===== src/Proxy/Conf/Build/Servers.antt =====
-- src/proxy/config.cpp: `Builder::build_server`.
use starweb.Base.{
  ℕ, Bool, true, false, not, ◌||◌, ◌&&◌, none, some, List, [], ◌∷◌, ◌++◌, ◌==◌, ltb, length, drop,
  if◌then◌else◌,
}
use starweb.Base.Bytes.{Bytes, codes, equal, find, lower, last_or_0, pop_back}
use starweb.Base.Decimal.{to_string}
use starweb.Base.Dict.{insert}
use starweb.Base.Int.{pos}
use starweb.Proxy.{Listen, Server}
use starweb.Proxy.Conf.{Result, ok, ◌>>=◌, ◌>>◌, each}
use starweb.Proxy.Conf.Build.{
  in_quotes, arg, fail, misplaced, check, simple, block, Seen, once, Inherited, Settings, settings,
  inheritable,
}
use starweb.Proxy.Conf.Build.Locations.{build_location}
use starweb.Proxy.Conf.Build.Pass.{Shared}
use starweb.Proxy.Conf.Tree.{Node, name_of, args_of, children_of, file_of, line_of}
use starweb.Proxy.Conf.Value.{parse_port, valid_hostname}

-- A server while its directives are read; the locations are built at its end.
pub record Host : Type 0 where
  pub srv : Server
  pub settings : Settings
  pub locations : List Node

abbrev with_seen : Seen → Settings → Settings
with_seen seen st = record st { seen = seen }

abbrev pub new_listen : ℕ → Listen
new_listen port = record { port = port; star = false; default_server = false }

unfoldable pub listen_param : Node → Bytes → Listen → Result Listen
listen_param n a l =
    if equal a (codes "star")
    then ok (record l { star = true })
    else if equal a (codes "default_server")
    then ok (record l { default_server = true })
    else fail n (codes "invalid parameter " ++ in_quotes a)

unfoldable pub has_port : ℕ → List Listen → Bool
has_port port [] = false
has_port port (l ∷ ls) = l.port == port || has_port port ls

abbrev pub listen_key : ℕ → Bytes
listen_key port = codes "listen:" ++ to_string port

unfoldable pub listen_port : Node → Result ℕ
listen_port n = elim (parse_port (arg 0 n)) [
  | some port ↦ ok port
  | none ↦ fail n (codes "invalid port " ++ (in_quotes (arg 0 n) ++ codes " in \"listen\""))
]

unfoldable pub add_listen : Node → Host → Result Host
add_listen n h = do
  simple n 1 3
  port ← listen_port n
  l ← each (listen_param n) (drop 1 (args_of n)) (new_listen port)
  check (not (has_port (l.port) (h.srv.listens))) n (codes "duplicate listen on port " ++ arg 0 n)
  ok (record h {
    srv = record (h.srv) { listens = h.srv.listens ++ l ∷ [] };
    settings = with_seen (insert (listen_key (l.port)) n h.settings.seen) h.settings;
  })

-- In lower case and without one dot at the end.
unfoldable pub plain_name : Bytes → Bytes
plain_name raw = if last_or_0 (lower raw) == b'.' then pop_back (lower raw) else lower raw

-- A host name, of which `*.` may stand in place of the front.
unfoldable pub is_server_name : Bytes → Bool
is_server_name name = elim (find b'*' name) [
  | none ↦ valid_hostname name
  | some i ↦
      i == 0
      && valid_hostname (drop 1 name)
      && ltb 2 (length name)
      && (elim (drop 1 name) [ [] ↦ false | c ∷ s ↦ c == b'.' ])
      && (elim (find b'*' (drop 1 name)) [ none ↦ true | some j ↦ false ])
]

unfoldable pub add_name : Node → Bytes → List Bytes → Result (List Bytes)
add_name n raw names = do
  check (is_server_name (plain_name raw)) n (codes "invalid server name " ++ in_quotes raw)
  ok (names ++ plain_name raw ∷ [])

unfoldable pub add_names : Node → Host → Result Host
add_names n h = do
  simple n 1 64
  names ← each (add_name n) (args_of n) (h.srv.names)
  ok (record h { srv = record (h.srv) { names = names } })

abbrev with_certificate : Node → Server → Server
with_certificate n srv =
    if equal (name_of n) (codes "tls_certificate")
    then record srv { cert = arg 0 n }
    else record srv { key = arg 0 n }

unfoldable pub set_certificate : Node → Host → Result Host
set_certificate n h = do
  simple n 1 1
  seen ← once (h.settings.seen) n
  ok (record h { srv = with_certificate n h.srv; settings = with_seen seen h.settings })

unfoldable pub host_own : Node → Host → Result Host
host_own n h =
    if equal (name_of n) (codes "listen")
    then add_listen n h
    else if equal (name_of n) (codes "server_name")
    then add_names n h
    else if equal (name_of n) (codes "tls_certificate")
        || equal (name_of n) (codes "tls_certificate_key")
    then set_certificate n h
    else if equal (name_of n) (codes "location")
    then block n 1 2 >> ok (record h { locations = h.locations ++ n ∷ [] })
    else misplaced n

unfoldable pub host_directive : Node → Host → Result Host
host_directive n h = inheritable n h.settings >>= λ r. elim r [
  | some st ↦ ok (record h { settings = st })
  | none ↦ host_own n h
]

abbrev pub new_server : Node → Server
new_server s = record {
  listens = [];
  names = [];
  cert = [];
  key = [];
  locations = [];
  file = file_of s;
  line = pos (line_of s);
}

-- The servers with the directives of their blocks, and what the locations have in common.
pub record Sites : Type 0 where
  pub servers : List Server
  pub server_nodes : List Seen
  pub pool : Shared

unfoldable pub build_server : Inherited → Node → Sites → Result Sites
build_server inh s sites = do
  h ←
      each host_directive (children_of s)
        (record { srv = new_server s; settings = settings inh; locations = [] })
  (locations, pool) ← each (build_location h.settings.inh) (h.locations) ([], sites.pool)
  ok (record {
    servers = sites.servers ++ record (h.srv) { locations = locations } ∷ [];
    server_nodes = sites.server_nodes ++ insert (codes "server") s h.settings.seen ∷ [];
    pool = pool;
  })
