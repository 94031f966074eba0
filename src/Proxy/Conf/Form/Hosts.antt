-- ===== src/Proxy/Conf/Form/Hosts.antt =====
-- src/proxy/config.cpp: the servers that `build_server` makes.
use starweb.Base.{
  ℕ, ◌≤◌, ◌≡◌, refl, subst, inl, inr, false, not, ◌||◌, ◌==◌, Option, none, some, List, [], ◌∷◌,
  ◌++◌, length, drop, All, All-append, arith, Bool-cases, Option-cases,
}
use starweb.Base.Bytes.{Bytes, codes, equal}
use starweb.Proxy.{Listen, Server}
use starweb.Proxy.Conf.{Result, ok, >>=-eq-ok, >>-eq-ok, ok-inj, each, each-inv}
use starweb.Proxy.Conf.Build.{
  arg, check-eq-ok, simple, block, once, misplaced-ne-ok, Inherited, settings, Settings,
  inheritable,
}
use starweb.Proxy.Conf.Form.{IsPort, GoodUpstream, GoodListen, GoodServer, DistinctPorts}
use starweb.Proxy.Conf.Form.Locations.{
  GoodLocations, All_GoodLocation_more, build_location-GoodLocations, none_set,
}
use starweb.Proxy.Conf.Build.Locations.{build_location}
use starweb.Proxy.Conf.Build.Servers.{
  Host, Sites, new_listen, listen_param, has_port, listen_port, add_listen, add_name, add_names,
  set_certificate, host_own, host_directive, new_server, build_server,
}
use starweb.Proxy.Conf.Tree.{Node, name_of, args_of, children_of}
use starweb.Proxy.Conf.Value.{parse_port}
use starweb.Proxy.Conf.Value.Bounds.{parse_port_range}

has_port-append :
    (port : ℕ) (ls : List Listen) (l : Listen)
    → has_port port (ls ++ l ∷ []) ≡ (has_port port ls || l.port == port)
unfolding has_port
has_port-append port [] l = ground arith
has_port-append port (m ∷ ls) l = ground (arith, has_port-append port ls l)

DistinctPorts-append :
    (ls : List Listen) (l : Listen)
    → DistinctPorts ls
    → has_port l.port ls ≡ false
    → DistinctPorts (ls ++ l ∷ [])
unfolding has_port
DistinctPorts-append [] l d h = (refl, tt)
DistinctPorts-append (m ∷ ls) l (apart, d) h =
    (ground (arith, has_port-append m.port ls l), DistinctPorts-append ls l d (ground arith))

listen_port_range : (n : Node) {port : ℕ} → listen_port n ≡ ok port → IsPort port
unfolding listen_port
listen_port_range n h = elim (Option-cases (parse_port (arg 0 n))) [
  | inl e ↦ absurd (ground arith)
  | inr (port, e) ↦ parse_port_range (arg 0 n) (ground arith)
]

listen_param_port :
    (n : Node) (a : Bytes) (l m : Listen) → GoodListen l → listen_param n a l ≡ ok m → GoodListen m
unfolding listen_param
listen_param_port n a l m g h = ground arith

-- The ports of a server while it is read.
abbrev GoodHost : Host → Type 0
GoodHost h = All GoodListen h.srv.listens × DistinctPorts h.srv.listens

add_listen-GoodHost : (n : Node) (h t : Host) → GoodHost h → add_listen n h ≡ ok t → GoodHost t
unfolding add_listen
add_listen-GoodHost n h t (good, apart) e =
    let (port, read, e) = >>=-eq-ok (listen_port n) _ (>>-eq-ok (simple n 1 3) _ e) in
    let (l, made, e) =
      >>=-eq-ok (each (listen_param n) (drop 1 (args_of n)) (new_listen port)) _ e in
    let (fresh, e) = check-eq-ok (not (has_port (l.port) (h.srv.listens))) n _ _ e in
    let l_good =
      each-inv GoodListen (listen_param n) (listen_param_port n) _ (new_listen port) l
        (listen_port_range n read) made in
    subst GoodHost (ok-inj e) (
      All-append GoodListen h.srv.listens (l ∷ []) good (l_good, tt),
      DistinctPorts-append h.srv.listens l apart (none_set fresh),
    )

add_names-GoodHost : (n : Node) (h t : Host) → GoodHost h → add_names n h ≡ ok t → GoodHost t
unfolding add_names
add_names-GoodHost n h t g e =
    let (names, read, e) =
      >>=-eq-ok (each (add_name n) (args_of n) (h.srv.names)) _ (>>-eq-ok (simple n 1 64) _ e) in
    subst GoodHost (ok-inj e) g

set_certificate-GoodHost :
    (n : Node) (h t : Host) → GoodHost h → set_certificate n h ≡ ok t → GoodHost t
unfolding set_certificate
set_certificate-GoodHost n h t g e =
    let (seen, first, e) = >>=-eq-ok (once (h.settings.seen) n) _ (>>-eq-ok (simple n 1 1) _ e) in
    subst GoodHost (ok-inj e) (elim (Bool-cases (equal (name_of n) (codes "tls_certificate"))) [
      | inl q ↦ rw q g
      | inr q ↦ rw q g
    ])

host_own-GoodHost : (n : Node) (h t : Host) → GoodHost h → host_own n h ≡ ok t → GoodHost t
unfolding host_own
host_own-GoodHost n h t g e = elim (Bool-cases (equal (name_of n) (codes "listen"))) [
  | inl q ↦ add_listen-GoodHost n h t g (rw q at e)
  | inr q ↦ elim (Bool-cases (equal (name_of n) (codes "server_name"))) [
    | inl r ↦ add_names-GoodHost n h t g (rw (q, r) at e)
    | inr r ↦
        elim (Bool-cases (
          equal (name_of n) (codes "tls_certificate")
          || equal (name_of n) (codes "tls_certificate_key"))) [
            | inl u ↦ set_certificate-GoodHost n h t g (rw (q, r, u) at e)
            | inr u ↦ elim (Bool-cases (equal (name_of n) (codes "location"))) [
              | inl v ↦ subst GoodHost (ok-inj (>>-eq-ok (block n 1 2) _ (rw (q, r, u, v) at e))) g
              | inr v ↦ absurd (misplaced-ne-ok n (rw (q, r, u, v) at e))
            ]
          ]
  ]
]

host_directive-GoodHost :
    (n : Node) (h t : Host) → GoodHost h → host_directive n h ≡ ok t → GoodHost t
unfolding host_directive
host_directive-GoodHost n h t g e =
    let (r, asked, e) = >>=-eq-ok (inheritable n h.settings) _ e in by_answer r e
  where
    by_answer :
        (r : Option Settings)
        → ◌≡◌ {A = Result Host}
            (elim r [ some st ↦ ok (record h { settings = st }) | none ↦ host_own n h ])
            (ok t)
        → GoodHost t
    by_answer none e = host_own-GoodHost n h t g e
    by_answer (some st) e = subst GoodHost (ok-inj e) g

All_GoodServer_more :
    {m n : ℕ} (ss : List Server) → m ≤ n → All (GoodServer m) ss → All (GoodServer n) ss
All_GoodServer_more [] le h = h
All_GoodServer_more (s ∷ ss) le ((ports, apart, locs, distinct), hs) = (
  (ports, apart, All_GoodLocation_more s.locations le locs, distinct),
  All_GoodServer_more ss le hs,
)

-- The servers and their upstreams.
abbrev pub GoodSites : Sites → Type 0
GoodSites s =
    All GoodUpstream s.pool.upstreams × All (GoodServer (length s.pool.upstreams)) s.servers

pub build_server-GoodSites :
    (inh : Inherited) (n : Node) (s t : Sites)
    → GoodSites s
    → build_server inh n s ≡ ok t
    → GoodSites t
unfolding build_server
build_server-GoodSites inh n s t (ups, good) e =
    let host : Host = record { srv = new_server n; settings = settings inh; locations = [] } in
    let (h, read, e) = >>=-eq-ok (each host_directive (children_of n) host) _ e in
    let (after, made, e) =
      >>=-eq-ok (each (build_location h.settings.inh) (h.locations) ([], s.pool)) _ e in
    let (ports, apart) =
      each-inv GoodHost host_directive host_directive-GoodHost (children_of n) host h (tt, tt)
        read in
    let start = length s.pool.upstreams in
    let (ups, longer, locs, distinct) =
      each-inv (GoodLocations start) (build_location h.settings.inh)
        (build_location-GoodLocations start h.settings.inh) (h.locations) ([], s.pool) after
        (ups, omega arith, tt, tt) made in
    let srv : Server = record (h.srv) { locations = after.0 } in
    subst GoodSites (ok-inj e) (
      ups,
      All-append (GoodServer _) s.servers (srv ∷ []) (All_GoodServer_more s.servers longer good)
          ((ports, apart, locs, distinct), tt),
    )
