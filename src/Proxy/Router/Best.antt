-- ===== src/Proxy/Router/Best.antt =====
-- src/proxy/router.cpp: `pick_server` gives the first server that offers most.
use starweb.Base.{
  ℕ, ◌+◌, ◌≤◌, ◌<◌, ◌≡◌, refl, sym, ap, ◌∙◌, Option, none, some, List, [], ◌∷◌, ◌++◌, append_assoc,
  append-nil, arith, subst, true, false, Bool-cases, Option-cases, inl, inr, length, All,
}
use starweb.Base.Bytes.{Bytes, is_empty}
use starweb.Proxy.{Listen, Server, Config}
use starweb.Proxy.Router.{
  Found, find_listen, scan_servers, listens_here, nothing_found, pick_server,
}
use starweb.Proxy.Router.Chosen.{score, All-mp, First, Chosen, Chosen-new, First-holds}
use starweb.Proxy.Router.Named.{
  has_name, longest_star, longest_star-lt, server_rank, noted, noted-0, scan_names_lem,
}
use starweb.Proxy.Router.Merge.{star_rank, Ranked, Chosen-merge, star_here, here-le}
use starweb.Proxy.Router.Step.{
  Scanned, rank_hostless, rank_named, rank_hit, Scanned-none, Scanned-some,
}

module _ (port : ℕ) (host : Bytes) where
  star_hostless :
      (srv : Server) (l : Listen) (f : Found)
      → find_listen port srv.listens ≡ some l
      → is_empty host ≡ true
      → noted srv (star_rank port host srv) f ≡ f
  star_hostless srv l f e h =
      let zero_rank : star_rank port host srv ≡ 0 = ap (star_here host srv.names) e ∙ rw h refl in
      ap (λ k. noted srv k f) zero_rank ∙ noted-0 srv f

  star_named :
      (srv : Server) (l : Listen)
      → find_listen port srv.listens ≡ some l
      → is_empty host ≡ false
      → star_rank port host srv ≡ longest_star host srv.names
  star_named srv l e h = ap (star_here host srv.names) e ∙ rw h refl

  rank-le : (srv : Server) → server_rank port host srv ≤ length host + 3
  unfolding server_rank
  rank-le srv = elim (Option-cases (find_listen port srv.listens)) [
    | inl e ↦ rw (e, server_rank) (omega arith)
    | inr (l, e) ↦ elim (Bool-cases (is_empty host)) [
      | inl h ↦ rw (e, server_rank) (rw h (ground arith))
      | inr h ↦ rw (e, server_rank) (rw h (ground (arith, longest_star-lt host srv.names h)))
    ]
  ]

  ranks-le : (servers : List Server) → All (λ s. server_rank port host s ≤ length host + 3) servers
  ranks-le [] = tt
  ranks-le (srv ∷ servers) = (rank-le srv, ranks-le servers)

  Ranked-lt :
      is_empty host ≡ false
      → (s : Server) → Ranked port host s
      → server_rank port host s < length host + 3
  unfolding server_rank
  Ranked-lt h s r = elim (Option-cases (find_listen port s.listens)) [
    | inl e ↦
        let nothing : server_rank port host s ≡ 0 = rw (e, server_rank) refl in
        omega (arith, nothing)
    | inr (l, e) ↦ ground (
      arith,
      longest_star-lt host s.names h,
      star_named s l e h,
      here-le (find_listen port s.listens),
      r,
    )
  ]

  score-lt :
      (r : Server → ℕ) (n : ℕ) (seen : List Server) (best : Option Server)
      → Chosen r seen best
      → All (λ s. r s < n) seen
      → 0 < n
      → score r best < n
  score-lt r n seen none c a z = z
  score-lt r n seen (some b) c a z = First-holds r _ seen b c a

  hit :
      (seen servers : List Server) (srv : Server) (l : Listen) (f : Found)
      → Scanned port host seen f
      → find_listen port srv.listens ≡ some l
      → is_empty host ≡ false
      → has_name host srv.names ≡ true
      → First (server_rank port host) (seen ++ srv ∷ servers) srv
  hit seen servers srv l f s e h n =
      let top = rank_hit port host srv l e h n in
      let best =
        Chosen-merge port host seen f.wildcard f.fallback f.first s.wildcards s.fallbacks s.firsts
          s.ranks in
      let low = score-lt _ _ seen _ best (All-mp _ _ seen (Ranked-lt h) s.ranks) (omega arith) in
      Chosen-new (server_rank port host) seen _ srv servers best (omega (arith, top, low))
        (subst (λ k. All (λ y. server_rank port host y ≤ k) servers) (sym top) (ranks-le servers))

  scan_servers-Chosen :
      (seen servers : List Server) (f : Found)
      → Scanned port host seen f
      → Chosen (server_rank port host) (seen ++ servers) (scan_servers port host servers f)
  unfolding scan_servers
  scan_servers-Chosen seen [] f s = rw (append-nil seen) (
      Chosen-merge port host seen f.wildcard f.fallback f.first s.wildcards s.fallbacks s.firsts
        s.ranks)
  scan_servers-Chosen seen (srv ∷ servers) f s =
      let next : (g : Found)
          → Scanned port host (seen ++ srv ∷ []) g
          → Chosen (server_rank port host) (seen ++ srv ∷ servers)
              (scan_servers port host servers g) =
        λ g t.
          rw (append_assoc seen (srv ∷ []) servers) at
            (scan_servers-Chosen (seen ++ srv ∷ []) servers g t) in
      elim (Option-cases (find_listen port srv.listens)) [
        | inl e ↦ rw (e, scan_servers) (next f (Scanned-none port host seen f srv s e))
        | inr (l, e) ↦ elim (Bool-cases (is_empty host)) [
          | inl h ↦
              rw (e, scan_servers)
                (rw h (
                  next (listens_here l srv f) (
                    subst (Scanned port host (seen ++ srv ∷ []))
                      (star_hostless srv l (listens_here l srv f) e h)
                      (Scanned-some port host seen f srv l s e
                        (rank_hostless port host srv l e h)))))
          | inr h ↦ elim (Bool-cases (has_name host srv.names)) [
            | inl n ↦
                rw (e, scan_servers)
                  (rw h (
                    rw (scan_names_lem host srv srv.names (listens_here l srv f))
                      (rw n (hit seen servers srv l f s e h n))))
            | inr n ↦
                rw (e, scan_servers)
                  (rw h (
                    rw (scan_names_lem host srv srv.names (listens_here l srv f)) (
                      rw n (
                        next _ (
                          subst
                            (λ k.
                              (Scanned port host) (seen ++ srv ∷ [])
                                (noted srv k (listens_here l srv f)))
                            (star_named srv l e h)
                            (Scanned-some port host seen f srv l s e
                              (rank_named port host srv l e h n)))))))
          ]
        ]
      ]

-- The server that `pick_server` gives is the first of those that offer most to a request at this port for
-- this host: one with exactly this name before one with a wildcard name that the host ends with, there the
-- longest, before one that is the default at the port, before any that listens there. It gives none only
-- where no server listens at the port.
pub pick_server-Chosen :
    (cfg : Config) (port : ℕ) (host : Bytes)
    → Chosen (server_rank port host) cfg.servers (pick_server cfg port host)
unfolding pick_server
pick_server-Chosen cfg port host =
    scan_servers-Chosen port host [] cfg.servers nothing_found
      (record { firsts = tt; fallbacks = tt; wildcards = tt; len = refl; ranks = tt })
