-- ===== src/Proxy/Router/Step.antt =====
-- What the loop of `pick_server`, src/proxy/router.cpp, has found after each server that it passes.
use starweb.Base.{
  ℕ, ◌+◌, ◌≡◌, refl, ap, ◌∙◌, Option, none, some, List, [], ◌∷◌, ◌++◌, arith, ltb, true, false,
  if◌then◌else◌, Bool-cases, inl, inr, length, All, All-append,
}
use starweb.Base.Bytes.{Bytes, is_empty}
use starweb.Proxy.{Listen, Server}
use starweb.Proxy.Router.{Found, find_listen, listens_here, or_this}
use starweb.Proxy.Router.Chosen.{score, Chosen, Chosen-new, Chosen-keep}
use starweb.Proxy.Router.Named.{has_name, server_rank, noted}
use starweb.Proxy.Router.Merge.{
  first_rank, default_rank, star_rank, found_rank, Ranked, here, default_here, star_here,
}

module _ (port : ℕ) (host : Bytes) where
  -- What `Found` says of the servers that the loop has passed.
  pub record Scanned (seen : List Server) (f : Found) : Type 0 where
    pub firsts : Chosen (first_rank port host) seen f.first
    pub fallbacks : Chosen (default_rank port host) seen f.fallback
    pub wildcards : Chosen (star_rank port host) seen f.wildcard
    pub len : score (star_rank port host) f.wildcard ≡ f.wildcard_len
    pub ranks : All (λ s. server_rank port host s ≡ found_rank port host s) seen

  Chosen-or_this :
      (r : Server → ℕ) (seen : List Server) (best : Option Server) (srv : Server)
      → Chosen r seen best
      → r srv ≡ 1
      → Chosen r (seen ++ srv ∷ []) (or_this best srv)
  Chosen-or_this r seen none srv c e = Chosen-new r seen none srv [] c (omega (arith, e)) tt
  Chosen-or_this r seen (some b) srv c e =
      Chosen-keep r seen (some b) srv c (omega (arith, e, c.some_rank))

  Chosen-skip :
      (r : Server → ℕ) (seen : List Server) (best : Option Server) (srv : Server)
      → Chosen r seen best
      → r srv ≡ 0
      → Chosen r (seen ++ srv ∷ []) best
  Chosen-skip r seen best srv c e = Chosen-keep r seen best srv c (omega (arith, e))

  pub rank_none : (srv : Server) → find_listen port srv.listens ≡ none → Ranked port host srv
  unfolding server_rank
  rank_none srv e = rw (e, server_rank) refl

  pub rank_hostless :
      (srv : Server) (l : Listen)
      → find_listen port srv.listens ≡ some l
      → is_empty host ≡ true
      → Ranked port host srv
  unfolding server_rank
  rank_hostless srv l e h = rw (e, server_rank) (rw h (ground arith))

  pub rank_named :
      (srv : Server) (l : Listen)
      → find_listen port srv.listens ≡ some l
      → is_empty host ≡ false
      → has_name host srv.names ≡ false
      → Ranked port host srv
  unfolding server_rank
  rank_named srv l e h n = rw (e, server_rank) (rw (h, n) (ground arith))

  pub rank_hit :
      (srv : Server) (l : Listen)
      → find_listen port srv.listens ≡ some l
      → is_empty host ≡ false
      → has_name host srv.names ≡ true
      → server_rank port host srv ≡ length host + 3
  unfolding server_rank
  rank_hit srv l e h n = rw (e, server_rank) (rw (h, n) refl)

  pub Scanned-none :
      (seen : List Server) (f : Found) (srv : Server)
      → Scanned seen f
      → find_listen port srv.listens ≡ none
      → Scanned (seen ++ srv ∷ []) f
  Scanned-none seen f srv s e = record {
    firsts = Chosen-skip (first_rank port host) seen f.first srv (s.firsts) (ap here e);
    fallbacks =
        Chosen-skip (default_rank port host) seen f.fallback srv (s.fallbacks) (ap default_here e);
    wildcards =
        Chosen-skip (star_rank port host) seen f.wildcard srv (s.wildcards)
          (ap (star_here host srv.names) e);
    len = s.len;
    ranks = All-append _ seen (srv ∷ []) (s.ranks) (rank_none srv e, tt);
  }

  default-step :
      (seen : List Server) (best : Option Server) (srv : Server) (l : Listen)
      → Chosen (default_rank port host) seen best
      → find_listen port srv.listens ≡ some l
      → Chosen
          (default_rank port host)
          (seen ++ srv ∷ [])
          (if l.default_server then or_this best srv else best)
  default-step seen best srv l c e = elim (Bool-cases l.default_server) [
    | inl q ↦
        rw q (Chosen-or_this (default_rank port host) seen best srv c (ap default_here e ∙ simp q))
    | inr q ↦
        rw q (Chosen-skip (default_rank port host) seen best srv c (ap default_here e ∙ simp q))
  ]

  pub Scanned-some :
      (seen : List Server) (f : Found) (srv : Server) (l : Listen)
      → Scanned seen f
      → find_listen port srv.listens ≡ some l
      → Ranked port host srv
      → Scanned (seen ++ srv ∷ []) (noted srv (star_rank port host srv) (listens_here l srv f))
  Scanned-some seen f srv l s e r =
      let firsts = Chosen-or_this (first_rank port host) seen f.first srv (s.firsts) (ap here e) in
      let fallbacks = default-step seen f.fallback srv l (s.fallbacks) e in
      let ranks = All-append _ seen (srv ∷ []) (s.ranks) (r, tt) in
      elim (Bool-cases (ltb f.wildcard_len (star_rank port host srv))) [
        | inl q ↦
            rw (q, noted)
              (record {
                firsts = firsts;
                fallbacks = fallbacks;
                wildcards =
                    Chosen-new (star_rank port host) seen f.wildcard srv [] (s.wildcards)
                      (ground (arith, s.len)) tt;
                len = refl;
                ranks = ranks;
              })
        | inr q ↦
            rw (q, noted)
              (record {
                firsts = firsts;
                fallbacks = fallbacks;
                wildcards =
                    Chosen-keep (star_rank port host) seen f.wildcard srv (s.wildcards)
                      (ground (arith, s.len));
                len = s.len;
                ranks = ranks;
              })
      ]
