-- ===== src/Proxy/Conf/Build/Top.antt =====
-- src/proxy/config.cpp: `Builder::build_stwp`, `Builder::build` and `load_config`. The environment is a parameter.
use starweb.Base.{Bool, Option, none, some, List, [], ◌∷◌, ◌++◌, if◌then◌else◌}
use starweb.Base.Bytes.{Bytes, codes, equal}
use starweb.Base.Int.{pos}
use starweb.Proxy.{Config, UpstreamConfig}
use starweb.Proxy.Conf.{Result, ok, error, ◌>>=◌, ◌>>◌, each}
use starweb.Proxy.Conf.Build.{
  in_quotes, arg, fail, misplaced, simple, block, Seen, once, duration, inherited, Settings,
  settings, inheritable,
}
use starweb.Proxy.Conf.Ports.{validate}
use starweb.Proxy.Conf.Build.Servers.{Sites, build_server}
use starweb.Proxy.Conf.Build.Upstreams.{build_upstream}
use starweb.Proxy.Conf.Tree.{Node, name_of, children_of, Files, parse_file}
use starweb.Proxy.Conf.Value.{parse_size}

-- The builder while the directives of the `stwp` block are read; the servers are built at its end.
pub record Frame : Type 0 where
  pub cfg : Config
  pub settings : Settings
  pub ca_node : Option Node
  pub servers : List Node

-- The frame and the settings behind a directive of one argument that stands once.
unfoldable pub frame_once : Node → Frame → Result Frame
frame_once n f = do
  simple n 1 1
  seen ← once (f.settings.seen) n
  ok (record f { settings = record (f.settings) { seen = seen } })

unfoldable pub set_access_log : Node → Frame → Result Frame
set_access_log n f = do
  g ← frame_once n f
  ok (record g { cfg = record (g.cfg) { access_log = arg 0 n } })

unfoldable pub set_timeout_ms : Node → Frame → Result Frame
set_timeout_ms n f = do
  g ← frame_once n f
  ms ← duration n
  ok (record g { cfg = record (g.cfg) { keepalive_timeout_ms = pos ms } })

unfoldable pub set_body_size : Node → Frame → Result Frame
set_body_size n f = do
  g ← frame_once n f
  elim (parse_size (arg 0 n)) [
    | some size ↦ ok (record g { cfg = record (g.cfg) { client_max_body_size = size } })
    | none ↦
        fail n
          (codes "invalid size " ++ (in_quotes (arg 0 n) ++ codes " in \"client_max_body_size\""))
  ]

unfoldable pub set_trusted : Node → Frame → Result Frame
set_trusted n f = do
  g ← frame_once n f
  ok (record g { cfg = record (g.cfg) { trusted_ca = arg 0 n }; ca_node = some n })

unfoldable pub add_upstream : Node → Frame → Result Frame
add_upstream n f = do
  block n 1 1
  upstreams ← build_upstream n (f.cfg.upstreams)
  ok (record f { cfg = record (f.cfg) { upstreams = upstreams } })

unfoldable pub frame_own : Node → Frame → Result Frame
frame_own n f =
    if equal (name_of n) (codes "access_log")
    then set_access_log n f
    else if equal (name_of n) (codes "keepalive_timeout")
    then set_timeout_ms n f
    else if equal (name_of n) (codes "client_max_body_size")
    then set_body_size n f
    else if equal (name_of n) (codes "tls_trusted_certificate")
    then set_trusted n f
    else if equal (name_of n) (codes "upstream")
    then add_upstream n f
    else if equal (name_of n) (codes "server")
    then block n 0 0 >> ok (record f { servers = f.servers ++ n ∷ [] })
    else misplaced n

unfoldable pub frame_directive : Node → Frame → Result Frame
frame_directive n f = inheritable n f.settings >>= λ r. elim r [
  | some st ↦ ok (record f { settings = st })
  | none ↦ frame_own n f
]

-- What `build` leaves in the builder.
pub record Built : Type 0 where
  pub cfg : Config
  pub server_nodes : List Seen
  pub ca_node : Option Node
  pub first_star_pass : Option Node

-- `starweb_ca` is the variable of the environment.
abbrev pub ca_or : Option Bytes → Bytes → Bytes
ca_or starweb_ca [] = elim starweb_ca [ some ca ↦ ca | none ↦ codes "certs/starweb_root.pem" ]
ca_or starweb_ca (c ∷ s) = c ∷ s

abbrev pub no_servers : List Node → Bytes → Result (Unit {0})
no_servers [] path = error (path ++ codes ": no \"server\" blocks")
no_servers (s ∷ ss) path = ok tt

abbrev pub start : Config → Frame
start cfg = record { cfg = cfg; settings = settings inherited; ca_node = none; servers = [] }

abbrev pub no_sites : List UpstreamConfig → Sites
no_sites us = record {
  servers = [];
  server_nodes = [];
  pool = record { upstreams = us; first_star_pass = none };
}

unfoldable pub build_stwp : Option Bytes → Node → Config → Result Built
build_stwp starweb_ca stwp cfg = do
  f ← each frame_directive (children_of stwp) (start cfg)
  no_servers (f.servers) (cfg.path)
  sites ← each (build_server (f.settings.inh)) (f.servers) (no_sites (f.cfg.upstreams))
  ok (record {
    cfg = record (f.cfg) {
      trusted_ca = ca_or starweb_ca (f.cfg.trusted_ca);
      upstreams = sites.pool.upstreams;
      servers = sites.servers;
    };
    server_nodes = sites.server_nodes;
    ca_node = f.ca_node;
    first_star_pass = sites.pool.first_star_pass;
  })

abbrev pub set_stwp : Node → Config → Option Node → Result (Config × Option Node)
set_stwp n cfg none = ok (cfg, some n)
set_stwp n cfg (some m) = fail n (codes "\"stwp\" directive is duplicate")

-- A directive outside of every block: the configuration and the `stwp` block.
unfoldable pub top_directive : Node → Config × Option Node → Result (Config × Option Node)
top_directive n (cfg, stwp) =
    if equal (name_of n) (codes "error_log")
    then simple n 1 1 >> ok (record cfg { error_log = arg 0 n }, stwp)
    else if equal (name_of n) (codes "stwp")
    then block n 0 0 >> set_stwp n cfg stwp
    else misplaced n

abbrev pub build_body : Option Bytes → Config → Option Node → Result Built
build_body starweb_ca cfg none = error (cfg.path ++ codes ": no \"stwp\" block")
build_body starweb_ca cfg (some n) = build_stwp starweb_ca n cfg

abbrev pub new_config : Bytes → Config
new_config path = record {
  path = path;
  error_log = [];
  access_log = [];
  trusted_ca = [];
  keepalive_timeout_ms = pos 20000;
  client_max_body_size = 1048576;
  upstreams = [];
  servers = [];
}

module _ (file_exists : Bytes → Bool) (starweb_ca : Option Bytes) where
  unfoldable pub build : List Node → Config → Result Config
  build top cfg = do
    read ← each top_directive top (cfg, none)
    b ← build_body starweb_ca read.0 read.1
    validate file_exists (b.cfg.servers) (b.server_nodes) (b.cfg.trusted_ca) (b.ca_node)
        (b.first_star_pass)
    ok (b.cfg)

  -- The depths of files run from 0 to 16.
  unfoldable pub load_config : Files → Bytes → Result Config
  load_config fs path = parse_file fs 17 path >>= λ top. build top (new_config path)
