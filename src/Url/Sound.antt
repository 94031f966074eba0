-- ===== src/Url/Sound.antt =====
-- What `parse_url` guarantees of every URL that it accepts.
use starweb.Base.{
  ℕ, ◌+◌, ◌-◌, ◌≡◌, true, not, ◌||◌, inl, inr, Option, some, [], ◌∷◌, arith, ◌==◌, take, drop,
  All-take, All-drop, Option-cases, Bool-cases, length, take_all, subst,
}
use starweb.Base.Bytes.{Bytes, equal, is_empty, find, find_sub, lower, substr}
use starweb.Base.Bytes.Laws.{drop-find, Lacks, Avoids-take, Avoids-find_if, equal_iff}
use starweb.Base.Maybe.{>>=-eq-some, guard-eq-some}
use starweb.Url.{
  ParsedUrl, moon, star, scheme_delim, default_port, after_bracket, split_bracket, split_plain,
  split_host_port, read_port, split_path, parse_rest, parse_url,
}
use starweb.Url.RoundTrip.{IsScheme}

pub record IsUrl (u : ParsedUrl) : Type 0 where
  pub scheme : IsScheme u.scheme
  pub host_ne_nil : ¬ (u.host ≡ [])
  pub host_no_slash : Lacks b'/' u.host
  pub path : (t : Bytes) × (u.path ≡ b'/' ∷ t)

split_path-Lacks : (rest : Bytes) → Lacks b'/' (split_path rest).0
unfolding split_path
split_path-Lacks rest = elim (Option-cases (find b'/' rest)) [
  | inl e ↦ rw (e, split_path) (Avoids-find_if _ rest e)
  | inr (i, e) ↦ rw (e, split_path) (Avoids-take _ rest i e)
]

split_path-slash : (rest : Bytes) → (t : Bytes) × ((split_path rest).1 ≡ b'/' ∷ t)
unfolding split_path
split_path-slash rest = elim (Option-cases (find b'/' rest)) [
  | inl e ↦ ([], rw (e, split_path))
  | inr (i, e) ↦ rw (e, split_path) (drop-find b'/' rest i e)
]

-- A piece of a text.
Piece : Bytes → Bytes → Type 0
Piece s h = (a b : ℕ) × (h ≡ substr a b s)

Lacks-Piece : (c : ℕ) (s h : Bytes) → Piece s h → Lacks c s → Lacks c h
unfolding Piece
Lacks-Piece c s h (a, b, e) l = rw e (All-take _ b (drop a s) (All-drop _ a s l))

after_bracket-eq : (h t : Bytes) (r : Bytes × Bytes) → after_bracket h t ≡ some r → r.0 ≡ h
unfolding after_bracket
after_bracket-eq h [] r e = ground arith
after_bracket-eq h (c ∷ t) r e = ground arith

split_bracket-Piece : (s : Bytes) {r : Bytes × Bytes} → split_bracket s ≡ some r → Piece s r.0
unfolding split_bracket Piece
split_bracket-Piece s {r} h = elim (Option-cases (find b']' s)) [
  | inl e ↦ absurd (ground arith)
  | inr (i, e) ↦
      (1, i - 1, ground (arith, after_bracket-eq (substr 1 (i - 1) s) (drop (i + 1) s) r))
]

split_plain-Piece : (s : Bytes) {r : Bytes × Bytes} → split_plain s ≡ some r → Piece s r.0
unfolding split_plain Piece
split_plain-Piece s h = elim (Option-cases (find b':' s)) [
  | inl e ↦ (0, length s, ground (arith, take_all (length s) s (omega arith)))
  | inr (i, e) ↦ (0, i, ground arith)
]

split_host_port-Piece : (s : Bytes) {r : Bytes × Bytes} → split_host_port s ≡ some r → Piece s r.0
unfolding split_host_port
split_host_port-Piece [] h = absurd (cc)
split_host_port-Piece (c ∷ s) h = elim (Bool-cases (c == b'[')) [
  | inl e ↦ split_bracket-Piece (c ∷ s) (rw e at h)
  | inr e ↦ split_plain-Piece (c ∷ s) (rw e at h)
]

IsUrl-of_eq : (a u : ParsedUrl) → ◌≡◌ {A = Option ParsedUrl} (some a) (some u) → IsUrl a → IsUrl u
IsUrl-of_eq a u e h = let same : a ≡ u = cc in subst IsUrl same h

not_empty : (s : Bytes) → not (is_empty s) ≡ true → ¬ (s ≡ [])
not_empty s h e = cc (rw e at h)

parse_rest-IsUrl :
    (scheme rest : Bytes) {u : ParsedUrl}
    → IsScheme scheme
    → parse_rest scheme rest ≡ some u
    → IsUrl u
unfolding parse_rest
parse_rest-IsUrl scheme rest {u} known h =
    let (_, h₁) = guard-eq-some _ _ h in
    let (r, split, h₂) = >>=-eq-some (split_host_port (split_path rest).0) _ h₁ in
    let (port, read, h₃) = >>=-eq-some (read_port r.1 (default_port scheme)) _ h₂ in
    let (full, e) = guard-eq-some (not (is_empty r.0)) _ h₃ in
    IsUrl-of_eq _ u e (record {
      scheme = known;
      host_ne_nil = not_empty r.0 full;
      host_no_slash =
          Lacks-Piece b'/' (split_path rest).0 r.0 (split_host_port-Piece (split_path rest).0 split)
            (split_path-Lacks rest);
      path = split_path-slash rest;
    })

IsScheme-of_test : (s : Bytes) → (equal s moon || equal s star) ≡ true → IsScheme s
IsScheme-of_test s h = ground (arith, equal_iff s moon, equal_iff s star)

-- Every URL that `parse_url` accepts has a known scheme in lower case, a host that is not empty and
-- holds no slash, and a path that starts with a slash.
pub parse_url-IsUrl : (url : Bytes) {u : ParsedUrl} → parse_url url ≡ some u → IsUrl u
unfolding parse_url
parse_url-IsUrl url h =
    let (i, found, h₁) = >>=-eq-some (find_sub scheme_delim url) _ h in
    let scheme = lower (take i url) in
    let (known, h₂) = guard-eq-some (equal scheme moon || equal scheme star) _ h₁ in
    parse_rest-IsUrl scheme (drop (i + length scheme_delim) url) (IsScheme-of_test scheme known) h₂
