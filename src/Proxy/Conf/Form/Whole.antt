-- ===== src/Proxy/Conf/Form/Whole.antt =====
-- src/proxy/config.cpp: the configurations that `load_config` accepts.
use starweb.Base.{
  ◌≤◌, ◌≡◌, subst, inl, inr, Bool, Option, none, some, List, [], ◌∷◌, length, All, length-append,
  arith, Bool-cases, Option-cases,
}
use starweb.Base.Bytes.{Bytes, codes, equal}
use starweb.Proxy.{Config}
use starweb.Proxy.Conf.{Result, ok, error, >>=-eq-ok, >>-eq-ok, ok-inj, each, each-inv}
use starweb.Proxy.Conf.Build.{
  arg, simple, block, once, duration, misplaced-ne-ok, Inherited, Settings, inheritable,
}
use starweb.Proxy.Conf.Form.{GoodUpstream, WellFormed}
use starweb.Proxy.Conf.Form.Hosts.{GoodSites, build_server-GoodSites}
use starweb.Proxy.Conf.Form.Pools.{build_upstream-GoodUpstream}
use starweb.Proxy.Conf.Build.Locations.{build_location}
use starweb.Proxy.Conf.Ports.{validate}
use starweb.Proxy.Conf.Build.Servers.{Sites, host_directive, build_server}
use starweb.Proxy.Conf.Build.Top.{
  Frame, frame_once, set_access_log, set_timeout_ms, set_body_size, set_trusted, add_upstream,
  frame_own, frame_directive, Built, no_servers, start, no_sites, build_stwp, set_stwp,
  top_directive, build_body, new_config, build, load_config,
}
use starweb.Proxy.Conf.Build.Upstreams.{build_upstream}
use starweb.Proxy.Conf.Tree.{Node, name_of, children_of, Files, parse_file}
use starweb.Proxy.Conf.Value.{parse_size}

abbrev GoodFrame : Frame → Type 0
GoodFrame f = All GoodUpstream f.cfg.upstreams

frame_once-GoodFrame : (n : Node) (f t : Frame) → GoodFrame f → frame_once n f ≡ ok t → GoodFrame t
unfolding frame_once
frame_once-GoodFrame n f t g e =
    let (seen, first, e) = >>=-eq-ok (once (f.settings.seen) n) _ (>>-eq-ok (simple n 1 1) _ e) in
    subst GoodFrame (ok-inj e) g

set_access_log-GoodFrame :
    (n : Node) (f t : Frame) → GoodFrame f → set_access_log n f ≡ ok t → GoodFrame t
unfolding set_access_log
set_access_log-GoodFrame n f t g e =
    let (u, once, e) = >>=-eq-ok (frame_once n f) _ e in
    subst GoodFrame (ok-inj e) (frame_once-GoodFrame n f u g once)

set_timeout_ms-GoodFrame :
    (n : Node) (f t : Frame) → GoodFrame f → set_timeout_ms n f ≡ ok t → GoodFrame t
unfolding set_timeout_ms
set_timeout_ms-GoodFrame n f t g e =
    let (u, once, e) = >>=-eq-ok (frame_once n f) _ e in
    let (ms, read, e) = >>=-eq-ok (duration n) _ e in
    subst GoodFrame (ok-inj e) (frame_once-GoodFrame n f u g once)

set_body_size-GoodFrame :
    (n : Node) (f t : Frame) → GoodFrame f → set_body_size n f ≡ ok t → GoodFrame t
unfolding set_body_size
set_body_size-GoodFrame n f t g e =
    let (u, once, e) = >>=-eq-ok (frame_once n f) _ e in
    let g = frame_once-GoodFrame n f u g once in
    elim (Option-cases (parse_size (arg 0 n))) [
      | inl q ↦ absurd (error-ne-ok (rw q at e))
      | inr (size, q) ↦ subst GoodFrame (ok-inj (rw q at e)) g
    ]
  where
    error-ne-ok : {m : Bytes} → ¬ (◌≡◌ {A = Result Frame} (error m) (ok t))
    error-ne-ok h = cc

set_trusted-GoodFrame :
    (n : Node) (f t : Frame) → GoodFrame f → set_trusted n f ≡ ok t → GoodFrame t
unfolding set_trusted
set_trusted-GoodFrame n f t g e =
    let (u, once, e) = >>=-eq-ok (frame_once n f) _ e in
    subst GoodFrame (ok-inj e) (frame_once-GoodFrame n f u g once)

add_upstream-GoodFrame :
    (n : Node) (f t : Frame) → GoodFrame f → add_upstream n f ≡ ok t → GoodFrame t
unfolding add_upstream
add_upstream-GoodFrame n f t g e =
    let (us, built, e) =
      >>=-eq-ok (build_upstream n (f.cfg.upstreams)) _ (>>-eq-ok (block n 1 1) _ e) in
    subst GoodFrame (ok-inj e) (build_upstream-GoodUpstream n f.cfg.upstreams us g built)

frame_own-GoodFrame : (n : Node) (f t : Frame) → GoodFrame f → frame_own n f ≡ ok t → GoodFrame t
unfolding frame_own
frame_own-GoodFrame n f t g e = elim (Bool-cases (equal (name_of n) (codes "access_log"))) [
  | inl q ↦ set_access_log-GoodFrame n f t g (rw q at e)
  | inr q ↦ elim (Bool-cases (equal (name_of n) (codes "keepalive_timeout"))) [
    | inl r ↦ set_timeout_ms-GoodFrame n f t g (rw (q, r) at e)
    | inr r ↦ elim (Bool-cases (equal (name_of n) (codes "client_max_body_size"))) [
      | inl u ↦ set_body_size-GoodFrame n f t g (rw (q, r, u) at e)
      | inr u ↦ elim (Bool-cases (equal (name_of n) (codes "tls_trusted_certificate"))) [
        | inl v ↦ set_trusted-GoodFrame n f t g (rw (q, r, u, v) at e)
        | inr v ↦ elim (Bool-cases (equal (name_of n) (codes "upstream"))) [
          | inl w ↦ add_upstream-GoodFrame n f t g (rw (q, r, u, v, w) at e)
          | inr w ↦ elim (Bool-cases (equal (name_of n) (codes "server"))) [
            | inl x ↦
                subst GoodFrame (ok-inj (>>-eq-ok (block n 0 0) _ (rw (q, r, u, v, w, x) at e))) g
            | inr x ↦ absurd (misplaced-ne-ok n (rw (q, r, u, v, w, x) at e))
          ]
        ]
      ]
    ]
  ]
]

frame_directive-GoodFrame :
    (n : Node) (f t : Frame) → GoodFrame f → frame_directive n f ≡ ok t → GoodFrame t
unfolding frame_directive
frame_directive-GoodFrame n f t g e =
    let (r, asked, e) = >>=-eq-ok (inheritable n f.settings) _ e in by_answer r e
  where
    by_answer :
        (r : Option Settings)
        → ◌≡◌ {A = Result Frame}
            (elim r [ some st ↦ ok (record f { settings = st }) | none ↦ frame_own n f ])
            (ok t)
        → GoodFrame t
    by_answer none e = frame_own-GoodFrame n f t g e
    by_answer (some st) e = subst GoodFrame (ok-inj e) g

-- At least one server block was built.
abbrev Some : Sites → Type 0
Some s = 1 ≤ length s.servers

build_server-Some :
    (inh : Inherited) (n : Node) (s t : Sites) → build_server inh n s ≡ ok t → Some t
unfolding build_server
build_server-Some inh n s t e =
    let (h, read, e) = >>=-eq-ok (each host_directive (children_of n) _) _ e in
    let (after, made, e) =
      >>=-eq-ok (each (build_location h.settings.inh) (h.locations) ([], s.pool)) _ e in
    subst Some (ok-inj e) (omega (arith, length-append s.servers (_ ∷ [])))

build_servers :
    (inh : Inherited) (ns : List Node) (path : Bytes) (s t : Sites)
    → no_servers ns path ≡ ok tt
    → GoodSites s
    → each (build_server inh) ns s ≡ ok t
    → GoodSites t × Some t
unfolding each
build_servers inh [] path s t some_node g e = absurd (cc)
build_servers inh (n ∷ ns) path s t some_node g e =
    let (u, first, e) = >>=-eq-ok (build_server inh n s) (each (build_server inh) ns) e in
    each-inv (λ s. GoodSites s × Some s) (build_server inh)
      (λ n s t both e. (build_server-GoodSites inh n s t both.0 e, build_server-Some inh n s t e))
      ns u t (build_server-GoodSites inh n s u g first, build_server-Some inh n s u first) e

build_stwp-WellFormed :
    (starweb_ca : Option Bytes) (n : Node) (cfg : Config) {b : Built}
    → All GoodUpstream cfg.upstreams
    → build_stwp starweb_ca n cfg ≡ ok b
    → WellFormed b.cfg
unfolding build_stwp
build_stwp-WellFormed starweb_ca n cfg g e =
    let (f, read, e) = >>=-eq-ok (each frame_directive (children_of n) (start cfg)) _ e in
    let (unit, some_node, e) = >>=-eq-ok (no_servers (f.servers) (cfg.path)) _ e in
    let (sites, built, e) =
      >>=-eq-ok (each (build_server (f.settings.inh)) (f.servers) (no_sites (f.cfg.upstreams))) _
        e in
    let ups =
      each-inv GoodFrame frame_directive frame_directive-GoodFrame (children_of n) (start cfg) f g
        read in
    let ((ups, good), some_server) =
      build_servers (f.settings.inh) (f.servers) (cfg.path) (no_sites (f.cfg.upstreams)) sites
        some_node (ups, tt) built in
    subst (λ b. WellFormed b.cfg) (ok-inj e) (ups, some_server, good)

set_stwp-GoodUpstream :
    (n : Node) (cfg : Config) (stwp : Option Node) {d : Config × Option Node}
    → All GoodUpstream cfg.upstreams
    → set_stwp n cfg stwp ≡ ok d
    → All GoodUpstream d.0.upstreams
set_stwp-GoodUpstream n cfg none g e = subst (λ c. All GoodUpstream c.0.upstreams) (ok-inj e) g
set_stwp-GoodUpstream n cfg (some m) g e = absurd (cc)

top_directive-GoodUpstream :
    (n : Node) (c d : Config × Option Node)
    → All GoodUpstream c.0.upstreams
    → top_directive n c ≡ ok d
    → All GoodUpstream d.0.upstreams
unfolding top_directive
top_directive-GoodUpstream n (cfg, stwp) d g e =
    elim (Bool-cases (equal (name_of n) (codes "error_log"))) [
      | inl q ↦
          subst (λ c. All GoodUpstream c.0.upstreams)
            (ok-inj (>>-eq-ok (simple n 1 1) _ (rw q at e))) g
      | inr q ↦ elim (Bool-cases (equal (name_of n) (codes "stwp"))) [
        | inl r ↦
            set_stwp-GoodUpstream n cfg stwp g
              (>>-eq-ok (block n 0 0) (set_stwp n cfg stwp) (rw (q, r) at e))
        | inr r ↦ absurd (misplaced-ne-ok n (rw (q, r) at e))
      ]
    ]

build_body-WellFormed :
    (starweb_ca : Option Bytes) (cfg : Config) (stwp : Option Node) {b : Built}
    → All GoodUpstream cfg.upstreams
    → build_body starweb_ca cfg stwp ≡ ok b
    → WellFormed b.cfg
build_body-WellFormed starweb_ca cfg none g e = absurd (cc)
build_body-WellFormed starweb_ca cfg (some n) g e = build_stwp-WellFormed starweb_ca n cfg g e

-- A configuration that is loaded has a server; its upstreams have peers, each with a port and a positive weight; the
-- servers have distinct ports, and the paths of their locations start with a slash and are distinct for a modifier;
-- and each location either passes to an upstream that is in the list, or answers with a code from 100 to 599, or has
-- neither and is left to its root.
pub load_config-WellFormed :
    (file_exists : Bytes → Bool) (starweb_ca : Option Bytes) (fs : Files) (path : Bytes)
    {cfg : Config}
    → load_config file_exists starweb_ca fs path ≡ ok cfg
    → WellFormed cfg
unfolding load_config build
load_config-WellFormed file_exists starweb_ca fs path e =
    let (top, parsed, e) = >>=-eq-ok (parse_file fs 17 path) _ e in
    let (cs, read, e) = >>=-eq-ok (each top_directive top (new_config path, none)) _ e in
    let ups =
      each-inv (λ c. All GoodUpstream c.0.upstreams) top_directive top_directive-GoodUpstream top
        (new_config path, none) cs tt read in
    let (b, made, e) = >>=-eq-ok (build_body starweb_ca cs.0 cs.1) _ e in
    subst WellFormed (ok-inj (>>-eq-ok (validate file_exists _ _ _ _ _) _ e))
      (build_body-WellFormed starweb_ca cs.0 cs.1 ups made)
