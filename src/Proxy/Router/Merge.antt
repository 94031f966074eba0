-- ===== src/Proxy/Router/Merge.antt =====
-- How the three choices of the loop of `pick_server`, src/proxy/router.cpp, add up to one rank.
use starweb.Base.{
  ℕ, ◌+◌, ◌≤◌, ◌<◌, ◌≡◌, refl, ◌∙◌, Option, none, some, List, arith, ltb, if◌then◌else◌, All,
}
use starweb.Base.Bytes.{Bytes, is_empty}
use starweb.Proxy.{Listen, Server}
use starweb.Proxy.Router.{find_listen, or_else}
use starweb.Proxy.Router.Chosen.{All-mp, All-zip, First, Chosen, First-holds, First-rerank}
use starweb.Proxy.Router.Named.{longest_star, server_rank}

abbrev pub here : Option Listen → ℕ
here none = 0
here (some l) = 1

abbrev pub default_here : Option Listen → ℕ
default_here none = 0
default_here (some l) = if l.default_server then 1 else 0

abbrev pub star_here : Bytes → List Bytes → Option Listen → ℕ
star_here host names none = 0
star_here host names (some l) = if is_empty host then 0 else longest_star host names

abbrev pub combined : ℕ → ℕ → ℕ → ℕ
combined a b c = if ltb 0 c then c + 2 else if ltb 0 b then 2 else a

pub here-le : (o : Option Listen) → here o ≤ 1
here-le none = omega arith
here-le (some l) = omega arith

default_here-le : (o : Option Listen) → default_here o ≤ 1
default_here-le none = omega arith
default_here-le (some l) = ground arith

-- One component of the rank orders the servers as the whole rank does.
abbrev Ordered : (k k' r r' : ℕ) → Type 0
Ordered k k' r r' = (k < k' → r < r') × (k ≤ k' → r ≤ r')

star_order :
    (a b c a' b' c' r r' : ℕ)
    → a ≤ 1
    → 0 < c'
    → r ≡ combined a b c
    → r' ≡ combined a' b' c'
    → Ordered c c' r r'
star_order a b c a' b' c' r r' l z e e' = (λ h. ground arith, λ h. ground arith)

default_order :
    (a b c a' b' c' r r' : ℕ)
    → a ≤ 1
    → 0 < b'
    → b' ≤ 1
    → c ≡ 0
    → c' ≡ 0
    → r ≡ combined a b c
    → r' ≡ combined a' b' c'
    → Ordered b b' r r'
default_order a b c a' b' c' r r' l z u n n' e e' = (λ h. ground arith, λ h. ground arith)

first_order :
    (a b c a' b' c' r r' : ℕ)
    → b ≡ 0
    → b' ≡ 0
    → c ≡ 0
    → c' ≡ 0
    → r ≡ combined a b c
    → r' ≡ combined a' b' c'
    → Ordered a a' r r'
first_order a b c a' b' c' r r' m m' n n' e e' = (λ h. ground arith, λ h. ground arith)

combined-pos : (a b c r : ℕ) → r ≡ combined a b c → 0 < a + b + c → 0 < r
combined-pos a b c r e h = ground arith

module _ (port : ℕ) (host : Bytes) where
  abbrev pub first_rank : Server → ℕ
  first_rank srv = here (find_listen port srv.listens)

  abbrev pub default_rank : Server → ℕ
  default_rank srv = default_here (find_listen port srv.listens)

  abbrev pub star_rank : Server → ℕ
  star_rank srv = star_here host srv.names (find_listen port srv.listens)

  abbrev pub found_rank : Server → ℕ
  found_rank srv = combined (first_rank srv) (default_rank srv) (star_rank srv)

  abbrev pub Ranked : Server → Type 0
  Ranked s = server_rank port host s ≡ found_rank s

  star_case :
      (seen : List Server) (w : Server)
      → First star_rank seen w
      → All Ranked seen
      → First (server_rank port host) seen w
  star_case seen w c r =
      let e = First-holds star_rank _ seen w c r in
      First-rerank star_rank (server_rank port host) seen w c
        (All-mp _ _ seen
          (λ y h.
            star_order _ _ _ (first_rank w) (default_rank w) _ _ _ (here-le _) (c.some_rank) h e)
          r)
        (combined-pos (first_rank w) (default_rank w) (star_rank w) _ e
          (omega (arith, c.some_rank)))

  default_case :
      (seen : List Server) (w : Server)
      → First default_rank seen w
      → All (λ s. star_rank s ≡ 0) seen
      → All Ranked seen
      → First (server_rank port host) seen w
  default_case seen w c n r =
      let both = All-zip _ _ seen n r in
      let e = First-holds default_rank _ seen w c both in
      First-rerank default_rank (server_rank port host) seen w c
        (All-mp _ _ seen
          (λ y h.
            default_order _ _ _ (first_rank w) _ _ _ _ (here-le _) (c.some_rank) (default_here-le _)
              h.0 e.0 h.1 e.1)
          both)
        (combined-pos (first_rank w) (default_rank w) (star_rank w) _ e.1
          (omega (arith, c.some_rank)))

  plain_case :
      (seen : List Server) (w : Server)
      → First first_rank seen w
      → All (λ s. default_rank s ≡ 0) seen
      → All (λ s. star_rank s ≡ 0) seen
      → All Ranked seen
      → First (server_rank port host) seen w
  plain_case seen w c m n r =
      let all = All-zip _ _ seen m (All-zip _ _ seen n r) in
      let e = First-holds first_rank _ seen w c all in
      First-rerank first_rank (server_rank port host) seen w c
        (All-mp _ _ seen (λ y h. first_order _ _ _ _ _ _ _ _ h.0 e.0 h.1.0 e.1.0 h.1.1 e.1.1) all)
        (combined-pos (first_rank w) (default_rank w) (star_rank w) _ e.1.1
          (omega (arith, c.some_rank)))

  no_rank :
      (s : Server)
      → (first_rank s ≡ 0) × ((default_rank s ≡ 0) × ((star_rank s ≡ 0) × Ranked s))
      → server_rank port host s ≡ 0
  no_rank s h = h.1.1.1 ∙ rw (h.0, h.1.0, h.1.1.0) refl

  pub Chosen-merge :
      (seen : List Server) (w d f : Option Server)
      → Chosen star_rank seen w
      → Chosen default_rank seen d
      → Chosen first_rank seen f
      → All Ranked seen
      → Chosen (server_rank port host) seen (or_else w (or_else d f))
  Chosen-merge seen (some w) d f cw cd cf r = star_case seen w cw r
  Chosen-merge seen none (some d) f cw cd cf r = default_case seen d cd cw r
  Chosen-merge seen none none (some f) cw cd cf r = plain_case seen f cf cd cw r
  Chosen-merge seen none none none cw cd cf r =
      All-mp _ _ seen no_rank (All-zip _ _ seen cf (All-zip _ _ seen cd (All-zip _ _ seen cw r)))
