-- ===== src/Proxy/Conf/Form/Locations.antt =====
-- src/proxy/config.cpp: the locations that `build_location` makes.
use starweb.Base.{
  ℕ, zero, suc, ◌≤◌, ◌≡◌, refl, subst, Bool, true, false, not, ◌&&◌, ◌||◌, ◌==◌, ltb, List, [], ◌∷◌,
  ◌++◌, length, All, All-append, arith,
}
use starweb.Base.Bytes.{Bytes, equal}
use starweb.Base.Bytes.Laws.{equal_iff}
use starweb.Proxy.{Match, exact, prefix, Location}
use starweb.Proxy.Conf.{ok, >>=-eq-ok, ok-inj, each, each-inv}
use starweb.Proxy.Conf.Build.{check-eq-ok, Inherited}
use starweb.Proxy.Conf.Form.{GoodUpstream, Handled, GoodLocation, Distinct}
use starweb.Proxy.Conf.Build.Locations.{
  site_directive, is_path, has_location, same_match, match_of, last_arg, new_site, finished,
  build_location,
}
use starweb.Proxy.Conf.Build.Pass.{Shared}
use starweb.Proxy.Conf.Tree.{Node, args_of, children_of}
use starweb.Proxy.Conf.Form.Sites.{Progress, GoodSite, Handled-weakened, site_directive-GoodSite}

has_location-append :
    (kind : Match) (path : Bytes) (ls : List Location) (l : Location)
    → has_location kind path (ls ++ l ∷ [])
      ≡ (has_location kind path ls || (same_match l.kind kind && equal l.path path))
unfolding has_location
has_location-append kind path [] l = ground arith
has_location-append kind path (m ∷ ls) l = ground (arith, has_location-append kind path ls l)

same_match_sym : (a b : Match) → same_match a b ≡ same_match b a
same_match_sym exact exact = refl
same_match_sym exact prefix = refl
same_match_sym prefix exact = refl
same_match_sym prefix prefix = refl

-- A location that none of the others equals goes to the end.
Distinct-append :
    (ls : List Location) (l : Location)
    → Distinct ls
    → has_location l.kind l.path ls ≡ false
    → Distinct (ls ++ l ∷ [])
unfolding has_location
Distinct-append [] l d h = (refl, tt)
Distinct-append (m ∷ ls) l (apart, d) h = (
  ground (
    arith,
    has_location-append m.kind m.path ls l,
    same_match_sym m.kind l.kind,
    equal_iff m.path l.path,
    equal_iff l.path m.path,
  ),
  Distinct-append ls l d (ground arith),
)

pub All_GoodLocation_more :
    {m n : ℕ} (ls : List Location) → m ≤ n → All (GoodLocation m) ls → All (GoodLocation n) ls
All_GoodLocation_more [] le h = h
All_GoodLocation_more (l ∷ ls) le ((p, h), hs) =
    ((p, Handled-weakened l le h), All_GoodLocation_more ls le hs)

-- The locations of a server and the upstreams behind them.
abbrev pub GoodLocations : ℕ → List Location × Shared → Type 0
GoodLocations start lp =
    All GoodUpstream lp.1.upstreams
    × (start ≤ length lp.1.upstreams)
    × All (GoodLocation (length lp.1.upstreams)) lp.0
    × Distinct lp.0

pub none_set : {b : Bool} → not b ≡ true → b ≡ false
none_set h = ground arith

one_handler :
    {n : ℕ} (k : ℕ) (l : Location)
    → Progress n k l
    → not (k == 0) ≡ true
    → not (ltb 1 k) ≡ true
    → Handled n l
one_handler zero l h some_handler few = absurd (ground arith)
one_handler (suc zero) l h some_handler few = h
one_handler (suc (suc k)) l h some_handler few = absurd (ground arith)

pub build_location-GoodLocations :
    (start : ℕ) (inh : Inherited) (n : Node) (lp after : List Location × Shared)
    → GoodLocations start lp
    → build_location inh n lp ≡ ok after
    → GoodLocations start after
unfolding build_location
build_location-GoodLocations start inh n (ls, pool) after (ups, more, good, apart) h =
    let (kind, modifier, h) = >>=-eq-ok (match_of n) _ h in
    let path = last_arg (args_of n) in
    let (lawful, h) = check-eq-ok (is_path path) n _ _ h in
    let (fresh, h) = check-eq-ok (not (has_location kind path ls)) n _ _ h in
    let (s, read, h) =
      >>=-eq-ok (each site_directive (children_of n) (new_site inh n kind path pool)) _ h in
    let (some_handler, h) = check-eq-ok (not (s.handlers == 0)) n _ _ h in
    let (few, h) = check-eq-ok (not (ltb 1 s.handlers)) n _ _ h in
    let (ups, longer, progress, k, p) =
      each-inv (GoodSite (length pool.upstreams) kind path) site_directive
        (site_directive-GoodSite (length pool.upstreams) kind path) (children_of n)
        (new_site inh n kind path pool) s (ups, omega arith, (refl, refl, refl), refl, refl) read in
    let l = finished s.settings.inh s.loc in
    let before = All_GoodLocation_more ls longer good in
    let handled = one_handler s.handlers s.loc progress some_handler few in
    subst (GoodLocations start) (ok-inj h) (
      ups,
      omega arith,
      All-append (GoodLocation _) ls (l ∷ []) before ((rw p lawful, handled), tt),
      Distinct-append ls l apart (rw (k, p) (none_set fresh)),
    )
