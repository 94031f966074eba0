-- ===== src/Proxy/Conf/Form/Sites.antt =====
-- src/proxy/config.cpp: a location while its directives are read.
use starweb.Base.{
  ℕ, zero, suc, ◌≤◌, ◌<◌, ◌≡◌, refl, ◌∙◌, subst, inl, inr, true, false, Option, none, some, [], ◌∷◌,
  length, All, arith, Bool-cases,
}
use starweb.Base.Bytes.{Bytes, codes, equal}
use starweb.Base.Decimal.{digits_value}
use starweb.Base.Int.{pos}
use starweb.Proxy.{Match, Location}
use starweb.Proxy.Conf.{Result, ok, >>=-eq-ok, ok-inj}
use starweb.Proxy.Conf.Build.{arg, check-eq-ok, misplaced-ne-ok, Settings, inheritable}
use starweb.Proxy.Conf.Form.{GoodUpstream, Handled}
use starweb.Proxy.Conf.Form.Passes.{build_proxy_pass-Passed}
use starweb.Proxy.Conf.Build.Locations.{
  Site, site_pass, site_root, site_index, site_return, own_directive, site_directive, once_simple,
  is_return_code,
}
use starweb.Proxy.Conf.Build.Pass.{build_proxy_pass}
use starweb.Proxy.Conf.Tree.{Node, name_of}
use starweb.Proxy.Conf.Value.{digits_only}

-- No handler yet.
abbrev pub Fresh : Location → Type 0
Fresh l = (l.proxy ≡ false) × (l.root ≡ []) × (l.return_code ≡ pos 0)

-- A location after so many handlers, where there are `n` upstreams.
abbrev pub Progress : ℕ → ℕ → Location → Type 0
Progress n zero l = Fresh l
Progress n (suc zero) l = Handled n l
Progress n (suc (suc k)) l = 0 ≤ k

advance :
    (m n k : ℕ) (l after : Location)
    → Progress m k l
    → (Fresh l → Handled n after)
    → Progress n (suc k) after
advance m n zero l after h next = next h
advance m n (suc k) l after h next = omega arith

Progress-reindexed :
    (n k : ℕ) (l : Location) (i : Bytes) → Progress n k l → Progress n k (record l { index = i })
Progress-reindexed n zero l i h = h
Progress-reindexed n (suc zero) l i h = h
Progress-reindexed n (suc (suc k)) l i h = h

pub Handled-weakened : {m n : ℕ} (l : Location) → m ≤ n → Handled m l → Handled n l
Handled-weakened l le (inl (p, (i, at, low), r, c)) = inl (p, (i, at, omega arith), r, c)
Handled-weakened l le (inr h) = inr h

-- A location while it is read: `start` upstreams were there before, its path and its modifier are those given.
abbrev pub GoodSite : ℕ → Match → Bytes → Site → Type 0
GoodSite start kind path s =
    All GoodUpstream s.pool.upstreams
    × (start ≤ length s.pool.upstreams)
    × Progress (length s.pool.upstreams) s.handlers s.loc
    × (s.loc.kind ≡ kind)
    × (s.loc.path ≡ path)

return_code_range :
    (s : Bytes) → is_return_code s ≡ true → (100 ≤ digits_value 0 s) × (digits_value 0 s < 600)
unfolding digits_value digits_only
return_code_range [] h = absurd (cc)
return_code_range (a ∷ []) h = absurd (ground arith)
return_code_range (a ∷ b ∷ []) h = absurd (ground arith)
return_code_range (a ∷ b ∷ c ∷ []) h = ground arith
return_code_range (a ∷ b ∷ c ∷ d ∷ s) h = absurd (ground arith)

module _ (start : ℕ) (kind : Match) (path : Bytes) where
  site_pass-GoodSite :
      (c : Node) (s t : Site)
      → GoodSite start kind path s
      → site_pass c s ≡ ok t
      → GoodSite start kind path t
  unfolding site_pass
  site_pass-GoodSite c s t (ups, more, progress, k, p) h =
      let (st, first, h) = >>=-eq-ok (once_simple c 1 1 s.settings) _ h in
      let (after, passed, h) = >>=-eq-ok (build_proxy_pass c s.loc s.pool) _ h in
      let (ups, longer, on, up, root, code, path_kept, kind_kept) =
        build_proxy_pass-Passed c s.loc s.pool ups passed in
      subst (GoodSite start kind path) (ok-inj h) (
        ups,
        omega arith,
        advance _ _ s.handlers s.loc after.0 progress
            (λ fresh. inl (on, up, root ∙ fresh.1, code ∙ fresh.2)),
        kind_kept ∙ k,
        path_kept ∙ p,
      )

  site_root-GoodSite :
      (c : Node) (s t : Site)
      → GoodSite start kind path s
      → site_root c s ≡ ok t
      → GoodSite start kind path t
  unfolding site_root
  site_root-GoodSite c s t (ups, more, progress, k, p) h =
      let (st, first, h) = >>=-eq-ok (once_simple c 1 1 s.settings) _ h in
      subst (GoodSite start kind path) (ok-inj h) (
        ups,
        more,
        advance _ _ s.handlers s.loc _ progress (λ fresh. inr (inr (fresh.0, fresh.2))),
        k,
        p,
      )

  site_index-GoodSite :
      (c : Node) (s t : Site)
      → GoodSite start kind path s
      → site_index c s ≡ ok t
      → GoodSite start kind path t
  unfolding site_index
  site_index-GoodSite c s t (ups, more, progress, k, p) h =
      let (st, first, h) = >>=-eq-ok (once_simple c 1 1 s.settings) _ h in
      let (plain, h) = check-eq-ok _ c _ _ h in
      subst (GoodSite start kind path) (ok-inj h)
        (ups, more, Progress-reindexed _ s.handlers s.loc (arg 0 c) progress, k, p)

  site_return-GoodSite :
      (c : Node) (s t : Site)
      → GoodSite start kind path s
      → site_return c s ≡ ok t
      → GoodSite start kind path t
  unfolding site_return
  site_return-GoodSite c s t (ups, more, progress, k, p) h =
      let (st, first, h) = >>=-eq-ok (once_simple c 1 2 s.settings) _ h in
      let (lawful, h) = check-eq-ok (is_return_code (arg 0 c)) c _ _ h in
      let (low, high) = return_code_range (arg 0 c) lawful in
      subst (GoodSite start kind path) (ok-inj h) (
        ups,
        more,
        advance _ _ s.handlers s.loc _ progress
            (λ fresh. inr (inl (fresh.0, fresh.1, (digits_value 0 (arg 0 c), refl, low, high)))),
        k,
        p,
      )

  own_directive-GoodSite :
      (c : Node) (s t : Site)
      → GoodSite start kind path s
      → own_directive c s ≡ ok t
      → GoodSite start kind path t
  unfolding own_directive
  own_directive-GoodSite c s t g h = elim (Bool-cases (equal (name_of c) (codes "proxy_pass"))) [
    | inl e ↦ site_pass-GoodSite c s t g (rw e at h)
    | inr e ↦ elim (Bool-cases (equal (name_of c) (codes "root"))) [
      | inl f ↦ site_root-GoodSite c s t g (rw (e, f) at h)
      | inr f ↦ elim (Bool-cases (equal (name_of c) (codes "index"))) [
        | inl q ↦ site_index-GoodSite c s t g (rw (e, f, q) at h)
        | inr q ↦ elim (Bool-cases (equal (name_of c) (codes "return"))) [
          | inl r ↦ site_return-GoodSite c s t g (rw (e, f, q, r) at h)
          | inr r ↦ absurd (misplaced-ne-ok c (rw (e, f, q, r) at h))
        ]
      ]
    ]
  ]

  pub site_directive-GoodSite :
      (c : Node) (s t : Site)
      → GoodSite start kind path s
      → site_directive c s ≡ ok t
      → GoodSite start kind path t
  unfolding site_directive
  site_directive-GoodSite c s t g h =
      let (r, asked, h) = >>=-eq-ok (inheritable c s.settings) _ h in by_answer r h
    where
      by_answer :
          (r : Option Settings)
          → ◌≡◌ {A = Result Site}
              (elim r [ some st ↦ ok (record s { settings = st }) | none ↦ own_directive c s ])
              (ok t)
          → GoodSite start kind path t
      by_answer none h = own_directive-GoodSite c s t g h
      by_answer (some st) h = subst (GoodSite start kind path) (ok-inj h) g
