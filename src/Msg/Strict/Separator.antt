-- ===== src/Msg/Strict/Separator.antt =====
-- Where `find_header_end` ends the head.
use starweb.Base.{
  ℕ, ◌≤◌, ◌<◌, ◌≡◌, refl, true, false, ◌⊎◌, inl, inr, Option, none, some, [], ◌∷◌, ◌++◌, arith,
  if◌then◌else◌, drop, Bool-cases, ltb, Option-cases,
}
use starweb.Base.Bytes.{Bytes, starts_with, find_sub}
use starweb.Base.Bytes.Laws.{find_sub_found, find_sub_first, find_sub_nowhere}
use starweb.Msg.{crlf}
use starweb.Msg.Strict.{find_header_end}

abbrev pub lf_lf : Bytes
lf_lf = 10 ∷ 10 ∷ []

abbrev pub crlf_crlf : Bytes
crlf_crlf = crlf ++ crlf

-- A separator of n bytes stands at i.
abbrev pub SeparatorAt : Bytes → ℕ → ℕ → Type 0
SeparatorAt s i n =
    ((n ≡ 2) × (starts_with lf_lf (drop i s) ≡ true))
    ⊎ ((n ≡ 4) × (starts_with crlf_crlf (drop i s) ≡ true))

abbrev pub NoSeparatorAt : Bytes → ℕ → Type 0
NoSeparatorAt s j =
    (starts_with lf_lf (drop j s) ≡ false) × (starts_with crlf_crlf (drop j s) ≡ false)

abbrev pub FirstSeparator : Bytes → ℕ → Option ℕ × ℕ → Type 0
FirstSeparator s j (none, n) = NoSeparatorAt s j
FirstSeparator s j (some i, n) = SeparatorAt s i n × (j < i → NoSeparatorAt s j)

-- `find_header_end` finds the first place at which either separator stands, and its length; where it
-- finds none, no place has one.
pub find_header_end_first : (s : Bytes) (j : ℕ) → FirstSeparator s j (find_header_end s)
unfolding find_header_end
find_header_end_first s j = elim (Option-cases (find_sub lf_lf s)) [
  | inl e ↦ elim (Option-cases (find_sub crlf_crlf s)) [
    | inl f ↦ rw (e, find_header_end) (rw f (no_lf e, no_crlf f))
    | inr (i, f) ↦
        rw (e, find_header_end)
          (rw f (
            inr (refl, find_sub_found crlf_crlf s i f),
            λ l. (no_lf e, find_sub_first crlf_crlf s i j f l),
          ))
  ]
  | inr (k, e) ↦ elim (Option-cases (find_sub crlf_crlf s)) [
    | inl f ↦
        rw (e, find_header_end)
          (rw f (
            inl (refl, find_sub_found lf_lf s k e),
            λ l. (find_sub_first lf_lf s k j e l, no_crlf f),
          ))
    | inr (i, f) ↦ rw (e, find_header_end) (rw f (both k i e f))
  ]
]
  where
    no_lf : find_sub lf_lf s ≡ none → starts_with lf_lf (drop j s) ≡ false
    no_lf e = find_sub_nowhere lf_lf s j (λ x. cc x) e

    no_crlf : find_sub crlf_crlf s ≡ none → starts_with crlf_crlf (drop j s) ≡ false
    no_crlf e = find_sub_nowhere crlf_crlf s j (λ x. cc x) e

    both :
        (k i : ℕ)
        → find_sub lf_lf s ≡ some k
        → find_sub crlf_crlf s ≡ some i
        → FirstSeparator s j (if ltb k i then (some k, 2) else (some i, 4))
    both k i e f = elim (Bool-cases (ltb k i)) [
      | inl c ↦
          let before : k < i = ground arith in
          rw c (
            inl (refl, find_sub_found lf_lf s k e),
            λ l. (find_sub_first lf_lf s k j e l, find_sub_first crlf_crlf s i j f (omega arith)),
          )
      | inr c ↦
          let before : i ≤ k = ground arith in
          rw c (
            inr (refl, find_sub_found crlf_crlf s i f),
            λ l. (find_sub_first lf_lf s k j e (omega arith), find_sub_first crlf_crlf s i j f l),
          )
    ]
