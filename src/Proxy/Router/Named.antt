-- ===== src/Proxy/Router/Named.antt =====
-- src/proxy/router.cpp: what one server is for a request, and what the loop over its names computes.
use starweb.Base.{
  ℕ, ◌+◌, ◌<◌, ◌≡◌, refl, sym, ap, ◌∙◌, none, some, List, [], ◌∷◌, arith, ltb, true, false, Bool,
  if◌then◌else◌, Bool-cases, Option-cases, inl, inr, length, max,
}
use starweb.Base.Bytes.{Bytes, equal, is_empty}
use starweb.Proxy.{Listen, Server}
use starweb.Proxy.Router.{Found, find_listen, has_suffix, star_suffix, note_name, scan_names}

-- One of the names is the host.
unfoldable pub has_name : Bytes → List Bytes → Bool
has_name host [] = false
has_name host (name ∷ names) =
    let rest = has_name host names in if equal name host then true else rest

-- The length of the suffix of a wildcard name that the host ends with, 0 where it does not.
abbrev pub star_length : Bytes → Bytes → ℕ
star_length host name = elim (star_suffix name) [
  | none ↦ 0
  | some suffix ↦ if has_suffix host suffix then length suffix else 0
]

-- The longest of them.
unfoldable pub longest_star : Bytes → List Bytes → ℕ
longest_star host [] = 0
longest_star host (name ∷ names) = max (star_length host name) (longest_star host names)

-- The best that a server offers: 1 for being there, 2 for being the default, more for a wildcard name, the
-- longer the better, and most for the name itself.
abbrev pub base_rank : Listen → ℕ
base_rank l = if l.default_server then 2 else 1

unfoldable pub server_rank : ℕ → Bytes → Server → ℕ
server_rank port host srv = elim (find_listen port srv.listens) [
  | none ↦ 0
  | some l ↦
      if is_empty host
      then base_rank l
      else if has_name host srv.names
      then length host + 3
      else if ltb 0 (longest_star host srv.names)
      then longest_star host srv.names + 2
      else base_rank l
]

is_empty-pos : (s : Bytes) → is_empty s ≡ false → 0 < length s
is_empty-pos [] h = absurd (cc)
is_empty-pos (c ∷ s) h = omega arith

star_length-lt : (host name : Bytes) → is_empty host ≡ false → star_length host name < length host
star_length-lt host name h = elim (Option-cases (star_suffix name)) [
  | inl e ↦ rw (e, star_length) (is_empty-pos host h)
  | inr (suffix, e) ↦ rw (e, star_length) (ground (arith, is_empty-pos host h))
]

pub longest_star-lt :
    (host : Bytes) (names : List Bytes)
    → is_empty host ≡ false
    → longest_star host names < length host
unfolding longest_star
longest_star-lt [] names h = absurd (cc)
longest_star-lt (c ∷ host) [] h = omega arith
longest_star-lt (c ∷ host) (name ∷ names) h =
    omega (arith, star_length-lt (c ∷ host) name h, longest_star-lt (c ∷ host) names h)

-- A longer suffix of this server is noted.
abbrev pub noted : Server → ℕ → Found → Found
noted srv k f =
    if ltb f.wildcard_len k then record f { wildcard = some srv; wildcard_len = k } else f

pub noted-0 : (srv : Server) (f : Found) → noted srv 0 f ≡ f
noted-0 srv f = ground arith

note_name-noted :
    (host : Bytes) (srv : Server) (name : Bytes) (f : Found)
    → note_name host srv name f ≡ noted srv (star_length host name) f
note_name-noted host srv name f = elim (Option-cases (star_suffix name)) [
  | inl e ↦ rw (e, note_name) (rw (e, star_length) (sym (noted-0 srv f)))
  | inr (suffix, e) ↦ rw (e, note_name) (rw (e, star_length) (ground arith))
]

noted-noted :
    (srv : Server) (j k : ℕ) (f : Found) → noted srv k (noted srv j f) ≡ noted srv (max j k) f
noted-noted srv j k f = ground arith

pub scan_names_lem :
    (host : Bytes) (srv : Server) (names : List Bytes) (f : Found)
    → scan_names host srv names f
      ≡ (if has_name host names then none else some (noted srv (longest_star host names) f))
unfolding scan_names has_name longest_star
scan_names_lem host srv [] f = ap some (sym (noted-0 srv f))
scan_names_lem host srv (name ∷ names) f = elim (Bool-cases (equal name host)) [
  | inl e ↦ rw e refl
  | inr e ↦ rw e (
      rw (note_name-noted host srv name f) (
        scan_names_lem host srv names _
        ∙ rw (noted-noted srv (star_length host name) (longest_star host names) f) refl))
]
