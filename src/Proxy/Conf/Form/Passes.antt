-- ===== src/Proxy/Conf/Form/Passes.antt =====
-- src/proxy/config.cpp: the upstream that `build_proxy_pass` chooses.
use starweb.Base.{
  ℕ, suc, ◌+◌, ◌≤◌, ◌<◌, ◌≡◌, refl, subst, ◌⊎◌, inl, inr, Bool, true, Option, none, some, List, [],
  ◌∷◌, ◌++◌, length, All, All-append, length-append, arith, Bool-cases, Option-cases,
}
use starweb.Base.Bytes.{Bytes}
use starweb.Base.Int.{pos}
use starweb.Proxy.{UpstreamConfig, Location}
use starweb.Proxy.Conf.{ok, >>=-eq-ok, ok-inj}
use starweb.Proxy.Conf.Form.{GoodUpstream, IsPort}
use starweb.Proxy.Conf.Build.Pass.{
  Shared, pass_scheme, before_slash, host_of, pass_port, pass_key, implicit_upstream,
  choose_upstream, last_upstream, by_name, named, made_for, build_proxy_pass,
}
use starweb.Proxy.Conf.Tree.{Node}
use starweb.Proxy.Conf.Value.{Address, parse_host_port}
use starweb.Proxy.Conf.Value.Bounds.{parse_host_port_range}

-- What is found is one of the first `n`.
abbrev Within : ℕ → Option (ℕ × UpstreamConfig) → Type 0
Within n none = 0 ≤ n
Within n (some iu) = iu.0 < n

last_upstream-Within :
    (p : UpstreamConfig → Bool) (n i : ℕ) (us : List UpstreamConfig)
    (before : Option (ℕ × UpstreamConfig))
    → i + length us ≤ n
    → Within n before
    → Within n (last_upstream p i us before)
unfolding last_upstream
last_upstream-Within p n i [] before l h = h
last_upstream-Within p n i (u ∷ us) before l h = elim (Bool-cases (p u)) [
  | inl e ↦ rw e (last_upstream-Within p n (suc i) us (some (i, u)) (omega arith) (omega arith))
  | inr e ↦ rw e (last_upstream-Within p n (suc i) us before (omega arith) h)
]

by_name-Within : (a : Address) (us : List UpstreamConfig) → Within (length us) (by_name a us)
unfolding by_name
by_name-Within a us = elim (Option-cases a.port) [
  | inl e ↦
      rw e (last_upstream-Within (named a.host) (length us) 0 us none (omega arith) (omega arith))
  | inr (port, e) ↦ rw e (omega arith)
]

-- The upstreams are those that were there, and may be followed by the implicit one.
abbrev pub Extends :
    Bool → Address → List UpstreamConfig → ℕ × (Bytes × List UpstreamConfig) → Type 0
Extends star a us chosen =
    (chosen.0 < length chosen.1.1)
    × ((chosen.1.1 ≡ us) ⊎ (chosen.1.1 ≡ us ++ implicit_upstream star a ∷ []))

choose_upstream-Extends :
    (star : Bool) (a : Address) (us : List UpstreamConfig)
    → Extends star a us (choose_upstream star a us)
unfolding choose_upstream
choose_upstream-Extends star a us =
    let declared = by_name-Within a us in
    let key = pass_key star a in
    let made =
      last_upstream-Within (made_for key) (length us) 0 us none (omega arith) (omega arith) in
    elim (Option-cases (by_name a us)) [
      | inr (iu, e) ↦ rw (e, choose_upstream) (rw e at declared, inl refl)
      | inl e ↦ elim (Option-cases (last_upstream (made_for key) 0 us none)) [
        | inr (iu, f) ↦ rw (e, f, choose_upstream) (rw f at made, inl refl)
        | inl f ↦
            rw (e, f, choose_upstream)
              (omega (arith, length-append us (implicit_upstream star a ∷ [])), inr refl)
      ]
    ]

pass_port_range :
    (star : Bool) (a : Address)
    → ((port : ℕ) → a.port ≡ some port → IsPort port)
    → IsPort (pass_port star a)
pass_port_range star a range = elim (Option-cases a.port) [
  | inr (port, e) ↦ rw e (range port e)
  | inl e ↦ elim (Bool-cases star) [
    | inl q ↦ rw (e, q) (omega arith)
    | inr q ↦ rw (e, q) (omega arith)
  ]
]

implicit_upstream-GoodUpstream :
    (star : Bool) (a : Address)
    → IsPort (pass_port star a)
    → GoodUpstream (implicit_upstream star a)
implicit_upstream-GoodUpstream star a (low, high) = (refl, ((low, high, omega arith), tt))

host_of_reads :
    (n : Node) (s : Bytes) {a : Address} → host_of n s ≡ ok a → parse_host_port s ≡ some a
host_of_reads n s h = ground arith

Extends-GoodUpstream :
    (star : Bool) (a : Address) (us : List UpstreamConfig)
    (chosen : ℕ × (Bytes × List UpstreamConfig))
    → GoodUpstream (implicit_upstream star a)
    → All GoodUpstream us
    → Extends star a us chosen
    → (length us ≤ length chosen.1.1) × All GoodUpstream chosen.1.1
Extends-GoodUpstream star a us chosen new good (i, inl e) = rw e (omega arith, good)
Extends-GoodUpstream star a us chosen new good (i, inr e) = rw e (
  omega (arith, length-append us (implicit_upstream star a ∷ [])),
  All-append GoodUpstream us (implicit_upstream star a ∷ []) good (new, tt),
)

-- What `proxy_pass` makes of a location and of the upstreams.
abbrev pub Passed : Location → Shared → Location × Shared → Type 0
Passed loc pool after =
    All GoodUpstream after.1.upstreams
    × (length pool.upstreams ≤ length after.1.upstreams)
    × (after.0.proxy ≡ true)
    × ((i : ℕ) × (after.0.pass.upstream ≡ pos i) × (i < length after.1.upstreams))
    × (after.0.root ≡ loc.root)
    × (after.0.return_code ≡ loc.return_code)
    × (after.0.path ≡ loc.path)
    × (after.0.kind ≡ loc.kind)

pub build_proxy_pass-Passed :
    (n : Node) (loc : Location) (pool : Shared) {after : Location × Shared}
    → All GoodUpstream pool.upstreams
    → build_proxy_pass n loc pool ≡ ok after
    → Passed loc pool after
unfolding build_proxy_pass
build_proxy_pass-Passed n loc pool good h =
    let (sr, scheme, h) = >>=-eq-ok (pass_scheme n) _ h in
    let (a, read, h) = >>=-eq-ok (host_of n (before_slash sr.1)) _ h in
    let chosen = choose_upstream sr.0 a pool.upstreams in
    let extends = choose_upstream-Extends sr.0 a pool.upstreams in
    let port = pass_port_range sr.0 a (λ p e. parse_host_port_range _ (host_of_reads n _ read) e) in
    let (longer, kept) =
      Extends-GoodUpstream sr.0 a pool.upstreams chosen (implicit_upstream-GoodUpstream sr.0 a port)
        good extends in
    subst (Passed loc pool) (ok-inj h)
      (kept, longer, refl, (chosen.0, refl, extends.0), refl, refl, refl, refl)
