-- ===== src/Proxy/Conf/Ports.antt =====
-- src/proxy/config.cpp: `Builder::validate`. `file_exists` is a parameter.
pub mod Uses
pub mod Agree
use starweb.Base.{
  ℕ, suc, ◌+◌, Bool, true, false, not, ◌||◌, ◌&&◌, Option, none, some, List, [], ◌∷◌, ◌++◌, ◌==◌,
  leb, ltb, length, drop, if◌then◌else◌,
}
use starweb.Base.Bytes.{Bytes, codes, equal, is_empty}
use starweb.Base.Decimal.{to_string}
use starweb.Base.Dict.{Dict, lookup}
use starweb.Proxy.{Listen, Server}
use starweb.Proxy.Conf.{Result, ok, error, ◌>>=◌, ◌>>◌, each}
use starweb.Proxy.Conf.Build.{in_quotes, fail, check, is_any, Seen}
use starweb.Proxy.Conf.Build.Servers.{listen_key}
use starweb.Proxy.Conf.Tree.{Node}

-- What is known of a port; the node stands in messages only.
pub record PortUse : Type 0 where
  pub star : Bool
  pub defaults : ℕ
  pub names : List Bytes

-- std::map<uint16_t, PortUse>, in the order of the first use.
abbrev pub Ports : Type 0
Ports = List (ℕ × PortUse)

unfoldable pub find_port : ℕ → Ports → Option PortUse
find_port port [] = none
find_port port ((p, u) ∷ ps) = if p == port then some u else find_port port ps

unfoldable pub set_port : ℕ → PortUse → Ports → Ports
set_port port u [] = (port, u) ∷ []
set_port port u ((p, v) ∷ ps) = if p == port then (p, u) ∷ ps else (p, v) ∷ set_port port u ps

-- `nodes[key]`. The key is there whenever the code asks for it; without it the source follows a null pointer.
abbrev pub fail_at {ℓ} : {A : Type ℓ} → Bytes → Seen → Bytes → Result A
fail_at key nodes msg = elim (lookup key nodes) [ some n ↦ fail n msg | none ↦ error msg ]

abbrev pub ensure : Bool → Bytes → Seen → Bytes → Result (Unit {0})
ensure true key nodes msg = ok tt
ensure false key nodes msg = fail_at key nodes msg

unfoldable pub use_of : Listen → Ports → PortUse
use_of l ports = elim (find_port l.port ports) [
  | none ↦ record { star = l.star; defaults = 0; names = [] }
  | some u ↦ u
]

abbrev pub same_star : Bool → Bool → Bool
same_star true b = b
same_star false b = not b

abbrev pub defaults_behind : Listen → ℕ → ℕ
defaults_behind l n = if l.default_server then suc n else n

unfoldable pub use_name : Seen → ℕ → Bytes → List Bytes → Result (List Bytes)
use_name nodes port name names = do
  ensure (not (is_any name names)) (codes "server") nodes (
      codes "conflicting server name " ++ (in_quotes name ++ (codes " on port " ++ to_string port)))
  ok (name ∷ names)

unfoldable pub use_port : Seen → List Bytes → Listen → Ports → Result Ports
use_port nodes names l ports = do
  let u = use_of l ports
  let count = defaults_behind l u.defaults
  ensure (same_star (u.star) (l.star)) (listen_key (l.port)) nodes
      (codes "port " ++ (to_string (l.port) ++ codes " is used both with and without \"star\""))
  ensure (not (l.default_server && ltb 1 count)) (listen_key (l.port)) nodes
      (codes "a duplicate default server for port " ++ to_string (l.port))
  used ← each (use_name nodes (l.port)) names (u.names)
  ok (set_port (l.port) (record { star = u.star; defaults = count; names = used }) ports)

abbrev pub any_star : List Listen → Bool
any_star [] = false
any_star (l ∷ ls) = l.star || any_star ls

module _ (file_exists : Bytes → Bool) where
  unfoldable pub check_certificates : Seen → Server → Result (Unit {0})
  check_certificates nodes srv = do
    ensure (not (any_star (srv.listens) && is_empty (srv.cert))) (codes "server") nodes
        (codes "server listens with \"star\" but has no \"tls_certificate\"")
    ensure (not (any_star (srv.listens) && is_empty (srv.key))) (codes "server") nodes
        (codes "server listens with \"star\" but has no \"tls_certificate_key\"")
    ensure (is_empty (srv.cert) || file_exists (srv.cert)) (codes "tls_certificate") nodes
        (codes "certificate " ++ (in_quotes (srv.cert) ++ codes " not found"))
    ensure (is_empty (srv.key) || file_exists (srv.key)) (codes "tls_certificate_key") nodes
        (codes "certificate key " ++ (in_quotes (srv.key) ++ codes " not found"))

  unfoldable pub check_server : Seen → Server → Ports → Result Ports
  check_server nodes srv ports = do
    ensure (not (length (srv.listens) == 0)) (codes "server") nodes
        (codes "server has no \"listen\"")
    after ← each (use_port nodes (srv.names)) (srv.listens) ports
    check_certificates nodes srv
    ok after

  -- The servers, each with the directives of its block.
  unfoldable pub check_servers : List Server → List Seen → Ports → Result Ports
  check_servers [] nodes ports = ok ports
  check_servers (srv ∷ servers) [] ports = error []
  check_servers (srv ∷ servers) (seen ∷ nodes) ports =
      check_server seen srv ports >>= check_servers servers nodes

  abbrev ca_at : Option Node → Node → Node
  ca_at none pass = pass
  ca_at (some ca) pass = ca

  unfoldable pub validate :
      List Server
      → List Seen
      → (trusted_ca : Bytes) → (ca_node first_star_pass : Option Node) → Result (Unit {0})
  validate servers nodes trusted_ca ca_node first_star_pass =
      check_servers servers nodes [] >>= λ ports. elim first_star_pass [
        | none ↦ ok tt
        | some pass ↦
            check (file_exists trusted_ca) (ca_at ca_node pass)
              (codes "trusted certificate " ++ (in_quotes trusted_ca ++ codes " not found"))
      ]
