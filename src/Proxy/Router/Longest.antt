-- ===== src/Proxy/Router/Longest.antt =====
-- src/proxy/router.cpp: `pick_location` gives the first entry that fits best.
use starweb.Base.{
  ℕ, ◌+◌, ◌≤◌, ◌≡◌, refl, Option, none, some, List, [], ◌∷◌, ◌++◌, append_assoc, append-nil, arith,
  All, ltb, true, ◌&&◌, if◌then◌else◌, Bool-cases, inl, inr, length, ◌⊎◌,
}
use starweb.Base.Bytes.{Bytes, equal, starts_with}
use starweb.Proxy.{Match, Location, Server}
use starweb.Proxy.Router.{scan_locations, longer_than, pick_location}
use starweb.Proxy.Router.Chosen.{score, Chosen, Chosen-new, Chosen-keep}

-- How well a location fits a path: an exact one above every prefix, a longer prefix above a shorter one.
unfoldable pub location_rank : Bytes → Location → ℕ
location_rank path loc = elim loc.kind [
  | Match.exact ↦ if equal loc.path path then length path + 2 else 0
  | Match.prefix ↦ if starts_with loc.path path then length loc.path + 1 else 0
]

starts_with-length : (p s : Bytes) → starts_with p s ≡ true → length p ≤ length s
unfolding starts_with
starts_with-length [] s h = omega arith
starts_with-length (x ∷ p) [] h = absurd (cc)
starts_with-length (x ∷ p) (y ∷ s) h = ground (arith, starts_with-length p s)

Match-cases : (m : Match) → (m ≡ Match.exact) ⊎ (m ≡ Match.prefix)
Match-cases Match.exact = inl refl
Match-cases Match.prefix = inr refl

rank-le : (path : Bytes) (loc : Location) → location_rank path loc ≤ length path + 2
unfolding location_rank
rank-le path loc = elim (Match-cases loc.kind) [
  | inl e ↦ rw e (ground arith)
  | inr e ↦ rw e (ground (arith, starts_with-length loc.path path))
]

-- What is kept so far is of the prefix kind.
abbrev Kept : Bytes → Option Location → Type 0
Kept path none = Unit
Kept path (some b) = (location_rank path b ≡ length b.path + 1) × (length b.path ≤ length path)

Kept-bound :
    (path : Bytes) (best : Option Location)
    → Kept path best
    → score (location_rank path) best ≤ length path + 1
Kept-bound path none k = omega arith
Kept-bound path (some b) k = omega (arith, k.0, k.1)

Kept-longer :
    (path : Bytes) (best : Option Location) (loc : Location)
    → Kept path best
    → longer_than best loc.path ≡ ltb (score (location_rank path) best) (length loc.path + 1)
Kept-longer path none loc k = ground arith
Kept-longer path (some b) loc k = rw (k.0) (ground arith)

rank_prefix :
    (path : Bytes) (loc : Location)
    → loc.kind ≡ Match.prefix
    → location_rank path loc ≡ (if starts_with loc.path path then length loc.path + 1 else 0)
unfolding location_rank
rank_prefix path loc e = rw e refl

rank_exact :
    (path : Bytes) (loc : Location)
    → loc.kind ≡ Match.exact
    → location_rank path loc ≡ (if equal loc.path path then length path + 2 else 0)
unfolding location_rank
rank_exact path loc e = rw e refl

rank_exact_hit :
    (path : Bytes) (loc : Location)
    → loc.kind ≡ Match.exact
    → equal loc.path path ≡ true
    → location_rank path loc ≡ length path + 2
rank_exact_hit path loc e q = ground (arith, rank_exact path loc e)

all_locations-le :
    (path : Bytes) (locs : List Location) → All (λ l. location_rank path l ≤ length path + 2) locs
all_locations-le path [] = tt
all_locations-le path (l ∷ locs) = (rank-le path l, all_locations-le path locs)

scan_exact :
    (path : Bytes) (loc : Location) (locs : List Location) (best : Option Location)
    → loc.kind ≡ Match.exact
    → scan_locations path (loc ∷ locs) best
      ≡ (if equal loc.path path then some loc else scan_locations path locs best)
unfolding scan_locations
scan_exact path loc locs best e = simp e

scan_prefix :
    (path : Bytes) (loc : Location) (locs : List Location) (best : Option Location)
    → loc.kind ≡ Match.prefix
    → scan_locations path (loc ∷ locs) best
      ≡ scan_locations path locs
          (if starts_with loc.path path && longer_than best loc.path then some loc else best)
unfolding scan_locations
scan_prefix path loc locs best e = simp e

scan_locations-Chosen :
    (path : Bytes) (seen locs : List Location) (best : Option Location)
    → Chosen (location_rank path) seen best
    → Kept path best
    → Chosen (location_rank path) (seen ++ locs) (scan_locations path locs best)
unfolding scan_locations
scan_locations-Chosen path seen [] best c k = rw (append-nil seen) c
scan_locations-Chosen path seen (loc ∷ locs) best c k =
    let next : (b : Option Location)
        → Chosen (location_rank path) (seen ++ loc ∷ []) b
        → Kept path b
        → Chosen (location_rank path) (seen ++ loc ∷ locs) (scan_locations path locs b) =
      λ b c' k'.
        rw (append_assoc seen (loc ∷ []) locs) at
          (scan_locations-Chosen path (seen ++ loc ∷ []) locs b c' k') in
    elim (Match-cases loc.kind) [
      | inl e ↦ rw (scan_exact path loc locs best e) (elim (Bool-cases (equal loc.path path)) [
        | inl q ↦ simp q (
            Chosen-new _ seen best loc locs c
              (omega (arith, Kept-bound path best k, rank_exact_hit path loc e q))
              (rw (rank_exact_hit path loc e q) (all_locations-le path locs)))
        | inr q ↦
            simp q
              (next best (Chosen-keep _ seen best loc c (ground (arith, rank_exact path loc e))) k)
      ])
      | inr e ↦
          rw (scan_prefix path loc locs best e)
            (elim (Bool-cases (starts_with loc.path path && longer_than best loc.path)) [
              | inl q ↦ simp q (
                  next (some loc)
                    (Chosen-new _ seen best loc [] c
                      (ground (arith, rank_prefix path loc e, Kept-longer path best loc k)) tt)
                    (
                      ground (arith, rank_prefix path loc e),
                      starts_with-length loc.path path (ground arith),
                    ))
              | inr q ↦ simp q (
                  next best
                    (Chosen-keep _ seen best loc c
                      (ground (arith, rank_prefix path loc e, Kept-longer path best loc k)))
                    k)
            ])
    ]

-- The location that `pick_location` gives is the first of those that fit the path best: an exact location
-- with this path before every prefix, and a longer prefix of the path before a shorter one. It gives none
-- only where no location fits.
pub pick_location-Chosen :
    (srv : Server) (path : Bytes)
    → Chosen (location_rank path) srv.locations (pick_location srv path)
unfolding pick_location
pick_location-Chosen srv path = scan_locations-Chosen path [] srv.locations none tt tt
