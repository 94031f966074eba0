-- ===== src/Proxy/Conf/Form/Pools.antt =====
-- src/proxy/config.cpp: the upstreams that `build_upstream` and `build_proxy_pass` make.
use starweb.Base.{
  ℕ, ◌≡◌, subst, inl, inr, some, List, [], ◌∷◌, All, All-append, arith, Bool-cases, Option-cases,
  drop,
}
use starweb.Base.Bytes.{Bytes, codes, equal}
use starweb.Proxy.{Peer, UpstreamConfig}
use starweb.Proxy.Conf.{ok, >>=-eq-ok, >>-eq-ok, ok-inj, each, each-inv}
use starweb.Proxy.Conf.Build.{arg, simple, check-eq-ok, once, misplaced-ne-ok}
use starweb.Proxy.Conf.Form.{GoodPeer, GoodUpstream}
use starweb.Proxy.Conf.Build.Upstreams.{
  peer_at, with_param, peer_param, key_of, value_of, address_of, port_of, Group, add_peer,
  set_keepalive, upstream_directive, has_peer, build_upstream,
}
use starweb.Proxy.Conf.Tree.{Node, name_of, args_of, children_of}
use starweb.Proxy.Conf.Value.{Address, parse_host_port}
use starweb.Proxy.Conf.Value.Bounds.{parse_host_port_range}

-- A parameter keeps a peer in form.
with_param-GoodPeer :
    (key val : Bytes) (p : Peer) {q : Peer}
    → GoodPeer p
    → with_param key val p ≡ some q
    → GoodPeer q
unfolding with_param
with_param-GoodPeer key val p g h = ground arith

peer_param-GoodPeer :
    (n : Node) (a : Bytes) (p q : Peer) → GoodPeer p → peer_param n a p ≡ ok q → GoodPeer q
unfolding peer_param
peer_param-GoodPeer n a p q g h = elim (Option-cases (with_param (key_of a) (value_of a) p)) [
  | inl none_left ↦ absurd (ground arith)
  | inr (r, e) ↦ with_param-GoodPeer (key_of a) (value_of a) p {q = q} g (ground arith)
]

port_of_reads : (n : Node) (a : Address) {port : ℕ} → port_of n a ≡ ok port → a.port ≡ some port
unfolding port_of
port_of_reads n a h = ground arith

address_of_reads :
    (n : Node) {a : Address} → address_of n ≡ ok a → parse_host_port (arg 0 n) ≡ some a
unfolding address_of
address_of_reads n h = ground arith

add_peer-GoodPeer :
    (n : Node) (g t : Group)
    → All GoodPeer g.up.peers
    → add_peer n g ≡ ok t
    → All GoodPeer t.up.peers
unfolding add_peer
add_peer-GoodPeer n g t good h =
    let (a, read, h) = >>=-eq-ok (address_of n) _ (>>-eq-ok (simple n 1 4) _ h) in
    let (port, given, h) = >>=-eq-ok (port_of n a) _ h in
    let (p, made, h) =
      >>=-eq-ok (each (peer_param n) (drop 1 (args_of n)) (peer_at a.host port)) _ h in
    let (low, high) =
      parse_host_port_range (arg 0 n) (address_of_reads n read) (port_of_reads n a given) in
    let p_good =
      each-inv GoodPeer (peer_param n) (peer_param-GoodPeer n) _ _ p (low, high, omega arith)
        made in
    subst (λ u. All GoodPeer u.up.peers) (ok-inj h)
      (All-append GoodPeer g.up.peers (p ∷ []) good (p_good, tt))

set_keepalive-GoodPeer :
    (n : Node) (g t : Group)
    → All GoodPeer g.up.peers
    → set_keepalive n g ≡ ok t
    → All GoodPeer t.up.peers
unfolding set_keepalive
set_keepalive-GoodPeer n g t good h =
    let (seen, first, h) = >>=-eq-ok (once (g.seen) n) _ (>>-eq-ok (simple n 1 1) _ h) in
    let (fits, h) = check-eq-ok _ n _ _ h in subst (λ u. All GoodPeer u.up.peers) (ok-inj h) good

upstream_directive-GoodPeer :
    (n : Node) (g t : Group)
    → All GoodPeer g.up.peers
    → upstream_directive n g ≡ ok t
    → All GoodPeer t.up.peers
unfolding upstream_directive
upstream_directive-GoodPeer n g t good h = elim (Bool-cases (equal (name_of n) (codes "server"))) [
  | inl e ↦ add_peer-GoodPeer n g t good (rw e at h)
  | inr e ↦ elim (Bool-cases (equal (name_of n) (codes "keepalive"))) [
    | inl f ↦ set_keepalive-GoodPeer n g t good (rw (e, f) at h)
    | inr f ↦ absurd (misplaced-ne-ok n (rw (e, f) at h))
  ]
]

pub build_upstream-GoodUpstream :
    (n : Node) (us vs : List UpstreamConfig)
    → All GoodUpstream us
    → build_upstream n us ≡ ok vs
    → All GoodUpstream vs
unfolding build_upstream
build_upstream-GoodUpstream n us vs good h =
    let (fresh, h) = check-eq-ok _ n _ _ h in
    let (g, read, h) = >>=-eq-ok (each upstream_directive (children_of n) _) _ h in
    let (some_peer, h) = check-eq-ok (has_peer g.up) n _ _ h in
    let peers =
      each-inv (λ g. All GoodPeer g.up.peers) upstream_directive upstream_directive-GoodPeer _ _ g
        tt read in
    subst (All GoodUpstream) (ok-inj h)
      (All-append GoodUpstream us (g.up ∷ []) good ((some_peer, peers), tt))
