-- ===== src/Proxy/Conf/Ports/Agree.antt =====
-- src/proxy/config.cpp: what `validate` says of the ports that servers share.
use starweb.Base.{
  ℕ, ◌≤◌, ◌≡◌, refl, sym, ap, ◌∙◌, subst, inl, inr, Bool, true, false, not, ◌&&◌, Option, none,
  some, List, [], ◌∷◌, ◌==◌, ==_refl, ==_iff, ltb, length, All, arith, Bool-cases, Option-cases,
  if◌then◌else◌,
}
use starweb.Base.Bytes.{Bytes}
use starweb.Proxy.{Listen, Server}
use starweb.Proxy.Conf.{Result, ok, ◌>>◌, >>=-eq-ok, >>-eq-ok, ok-inj, each}
use starweb.Proxy.Conf.Build.{is_any, Seen}
use starweb.Proxy.Conf.Ports.{
  PortUse, Ports, find_port, set_port, ensure, use_of, same_star, defaults_behind, use_name,
  use_port, check_certificates, check_server, check_servers, validate,
}
use starweb.Proxy.Conf.Ports.Uses.{
  Uses, listens_used, servers_used, defaults_at, stars_at, onto, names_at, Unique,
}
use starweb.Proxy.Conf.Tree.{Node}

-- What is known of the port `p` after these uses.
abbrev Agrees : ℕ → Uses → Option PortUse → Type 0
Agrees p us none = (defaults_at p us ≡ 0) × (stars_at p us ≡ []) × (names_at p us ≡ [])
Agrees p us (some u) =
    (defaults_at p us ≡ u.defaults)
    × (u.defaults ≤ 1)
    × All (λ s. s ≡ u.star) (stars_at p us)
    × (names_at p us ≡ u.names)
    × Unique (names_at p us)

ensure-eq-ok {ℓ} :
    {B : Type ℓ} (b : Bool) (key : Bytes) (nodes : Seen) (msg : Bytes) (k : Result B) {x : B}
    → (ensure b key nodes msg >> k) ≡ ok x
    → (b ≡ true) × (k ≡ ok x)
ensure-eq-ok true key nodes msg k h = (refl, h)
ensure-eq-ok false key nodes msg k h = absurd (ground arith)

find_port-set_port :
    (p q : ℕ) (u : PortUse) (ports : Ports)
    → find_port p (set_port q u ports) ≡ (if q == p then some u else find_port p ports)
unfolding find_port set_port
find_port-set_port p q u [] = ground arith
find_port-set_port p q u ((r, v) ∷ ports) = ground (arith, find_port-set_port p q u ports)

-- The names of a server that are taken are the new ones, none of them taken before.
use_names :
    (nodes : Seen) (port : ℕ) (names before : List Bytes) {used : List Bytes}
    → Unique before
    → each (use_name nodes port) names before ≡ ok used
    → (onto names before ≡ used) × Unique used
unfolding each use_name
use_names nodes port [] before h e = (ok-inj e, subst Unique (ok-inj e) h)
use_names nodes port (n ∷ names) before h e =
    let (after, first, e) =
      >>=-eq-ok (use_name nodes port n before) (each (use_name nodes port) names) e in
    let (fresh, first) = ensure-eq-ok (not (is_any n before)) _ nodes _ (ok (n ∷ before)) first in
    use_names nodes port names (n ∷ before) (ground arith, h) (rw (ok-inj first) e)

All_star : (a b : Bool) (ss : List Bool) → a ≡ b → All (λ s. s ≡ a) ss → All (λ s. s ≡ b) ss
All_star a b [] e h = h
All_star a b (s ∷ ss) e (q, h) = (q ∙ e, All_star a b ss e h)

same_star-eq : (a b : Bool) → same_star a b ≡ true → b ≡ a
same_star-eq a b h = ground arith

few_defaults :
    (l : Listen) (n : ℕ)
    → n ≤ 1
    → not (l.default_server && ltb 1 (defaults_behind l n)) ≡ true
    → defaults_behind l n ≤ 1
few_defaults l n few one = elim (Bool-cases l.default_server) [
  | inl q ↦ rw q (ground arith)
  | inr q ↦ rw q few
]

-- A use of the port itself, when `u` is what is known of it.
count_use :
    (names used : List Bytes) (l : Listen) (us : Uses) (u : PortUse)
    → Agrees l.port us (some u)
    → same_star u.star l.star ≡ true
    → defaults_behind l u.defaults ≤ 1
    → onto names u.names ≡ used
    → Unique used
    → Agrees l.port
        ((l, names) ∷ us)
        (some (record { star = u.star; defaults = defaults_behind l u.defaults; names = used }))
unfolding defaults_at stars_at names_at
count_use names used l us u (counted, few, stars, taken, unique) agree one new apart =
    rw (==_refl l.port) (
      ap (defaults_behind l) counted,
      one,
      (same_star-eq u.star l.star agree, stars),
      ap (onto names) taken ∙ new,
      rw (taken, new) apart,
    )

use_here :
    (nodes : Seen) (names : List Bytes) (l : Listen) (us : Uses) (ports : Ports) {after : Ports}
    → Agrees l.port us (some (use_of l ports))
    → use_port nodes names l ports ≡ ok after
    → (u : PortUse) × (after ≡ set_port l.port u ports) × Agrees l.port ((l, names) ∷ us) (some u)
unfolding use_port
use_here nodes names l us ports known e =
    let (counted, few, stars, taken, unique) = known in
    let u = use_of l ports in
    let (agree, e) = ensure-eq-ok (same_star (u.star) (l.star)) _ nodes _ _ e in
    let (one, e) =
      ensure-eq-ok (not (l.default_server && ltb 1 (defaults_behind l u.defaults))) _ nodes _ _ e in
    let (used, read, e) = >>=-eq-ok (each (use_name nodes (l.port)) names (u.names)) _ e in
    let (new, apart) = use_names nodes l.port names u.names (rw taken at unique) read in
    (
      _,
      sym (ok-inj e),
      count_use names used l us u known agree (few_defaults l u.defaults few one) new apart,
    )

-- Before its first use a port has nothing.
Agrees-use_of :
    (l : Listen) (us : Uses) (ports : Ports)
    → Agrees l.port us (find_port l.port ports)
    → Agrees l.port us (some (use_of l ports))
unfolding use_of
Agrees-use_of l us ports h = elim (Option-cases (find_port l.port ports)) [
  | inr (u, e) ↦ rw (e, use_of) (rw e at h)
  | inl e ↦
      let (counted, stars, names) = rw e at h in
      rw (e, use_of, counted, stars, names) (refl, omega arith, tt, refl, tt)
]

-- A use of another port changes nothing.
Agrees-other :
    (p : ℕ) (names : List Bytes) (l : Listen) (us : Uses) (o : Option PortUse)
    → (l.port == p) ≡ false
    → Agrees p us o
    → Agrees p ((l, names) ∷ us) o
unfolding defaults_at stars_at names_at
Agrees-other p names l us none e h = rw e h
Agrees-other p names l us (some u) e h = rw e h

use_port-Agrees :
    (nodes : Seen) (names : List Bytes) (l : Listen) (us : Uses) (ports after : Ports)
    → ((p : ℕ) → Agrees p us (find_port p ports))
    → use_port nodes names l ports ≡ ok after
    → (p : ℕ) → Agrees p ((l, names) ∷ us) (find_port p after)
use_port-Agrees nodes names l us ports after known e p =
    let (u, made, now) =
      use_here nodes names l us ports (Agrees-use_of l us ports (known l.port)) e in
    rw (made, find_port-set_port p l.port u ports)
      (elim (Bool-cases (l.port == p)) [
        | inl q ↦ rw q (subst (λ p. Agrees p ((l, names) ∷ us) (some u)) (eq_of (l.port) p q) now)
        | inr q ↦ rw q (Agrees-other p names l us (find_port p ports) q (known p))
      ])
  where
    eq_of : (m n : ℕ) → (m == n) ≡ true → m ≡ n
    eq_of m n h = (==_iff m n).0 h

use_ports-Agrees :
    (nodes : Seen) (names : List Bytes) (ls : List Listen) (us : Uses) (ports after : Ports)
    → ((p : ℕ) → Agrees p us (find_port p ports))
    → each (use_port nodes names) ls ports ≡ ok after
    → (p : ℕ) → Agrees p (listens_used names ls us) (find_port p after)
unfolding each
use_ports-Agrees nodes names [] us ports after known e p = rw (sym (ok-inj e)) (known p)
use_ports-Agrees nodes names (l ∷ ls) us ports after known e p =
    let (next, first, e) =
      >>=-eq-ok (use_port nodes names l ports) (each (use_port nodes names) ls) e in
    use_ports-Agrees nodes names ls ((l, names) ∷ us) next after
      (use_port-Agrees nodes names l us ports next known first) e p

module _ (file_exists : Bytes → Bool) where
  check_server-Agrees :
      (nodes : Seen) (s : Server) (us : Uses) (ports after : Ports)
      → ((p : ℕ) → Agrees p us (find_port p ports))
      → check_server file_exists nodes s ports ≡ ok after
      → (p : ℕ) → Agrees p (listens_used s.names s.listens us) (find_port p after)
  unfolding check_server
  check_server-Agrees nodes s us ports after known e =
      let (some_listen, e) = ensure-eq-ok (not (length (s.listens) == 0)) _ nodes _ _ e in
      let (used, read, e) = >>=-eq-ok (each (use_port nodes (s.names)) (s.listens) ports) _ e in
      use_ports-Agrees nodes (s.names) (s.listens) us ports after known
        (read ∙ >>-eq-ok (check_certificates file_exists nodes s) (ok used) e)

  check_servers-Agrees :
      (ss : List Server) (nodes : List Seen) (us : Uses) (ports after : Ports)
      → ((p : ℕ) → Agrees p us (find_port p ports))
      → check_servers file_exists ss nodes ports ≡ ok after
      → (p : ℕ) → Agrees p (servers_used ss us) (find_port p after)
  unfolding check_servers
  check_servers-Agrees [] nodes us ports after known e p = rw (sym (ok-inj e)) (known p)
  check_servers-Agrees (s ∷ ss) [] us ports after known e p = absurd (cc)
  check_servers-Agrees (s ∷ ss) (seen ∷ nodes) us ports after known e p =
      let (next, first, e) =
        >>=-eq-ok (check_server file_exists seen s ports) (check_servers file_exists ss nodes) e in
      check_servers-Agrees ss nodes (listens_used s.names s.listens us) next after
        (check_server-Agrees seen s us ports next known first) e p

  nothing : (p : ℕ) → Agrees p [] (find_port p [])
  unfolding find_port defaults_at stars_at names_at
  nothing p = (refl, refl, refl)

  -- When `validate` accepts the servers, then for each port at most one listen has `default_server`, all listens
  -- agree on `star`, and no two uses have a name in common.
  pub validate-Unique :
      (ss : List Server) (nodes : List Seen) (trusted_ca : Bytes)
      (ca_node first_star_pass : Option Node) (p : ℕ)
      → validate file_exists ss nodes trusted_ca ca_node first_star_pass ≡ ok tt
      → (defaults_at p (servers_used ss []) ≤ 1)
        × ((star : Bool) × All (λ s. s ≡ star) (stars_at p (servers_used ss [])))
        × Unique (names_at p (servers_used ss []))
  unfolding validate
  validate-Unique ss nodes trusted_ca ca_node first_star_pass p e =
      let (ports, read, e) = >>=-eq-ok (check_servers file_exists ss nodes []) _ e in
      let known = check_servers-Agrees ss nodes [] [] ports nothing read p in
      of_uses (servers_used ss []) (find_port p ports) known
    where
      of_uses :
          (us : Uses) (o : Option PortUse)
          → Agrees p us o
          → (defaults_at p us ≤ 1)
            × ((star : Bool) × All (λ s. s ≡ star) (stars_at p us))
            × Unique (names_at p us)
      of_uses us none (counted, stars, names) = (omega arith, (false, rw stars tt), rw names tt)
      of_uses us (some u) (counted, few, stars, taken, unique) =
          (omega arith, (u.star, stars), unique)
