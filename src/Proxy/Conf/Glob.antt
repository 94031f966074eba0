-- ===== src/Proxy/Conf/Glob.antt =====
-- src/proxy/config.cpp: `wildmatch`, which picks the files of an `include` directive with wildcards.
use starweb.Base.{
  ℕ, ◌≡◌, ◌↔◌, inl, inr, refl, sym, subst, Bool, true, false, ◌||◌, ◌&&◌, [], ◌∷◌, ◌++◌, ◌==◌,
  if◌then◌else◌, Bool-cases, arith,
}
use starweb.Base.Bytes.{Bytes}

unfoldable pub wildmatch : Bytes → Bytes → Bool
wildmatch [] [] = true
wildmatch [] (x ∷ s) = false
wildmatch (c ∷ pat) [] = c == b'*' && wildmatch pat []
wildmatch (c ∷ pat) (x ∷ s) =
    let here = wildmatch pat (x ∷ s) in
    let later = wildmatch (c ∷ pat) s in
    let both = wildmatch pat s in
    if c == b'*' then here || later else if c == b'?' || c == x then both else false

-- A star stands for any text, a question mark for any byte, another byte for itself.
pub data Matches : Bytes → Bytes → Type 0 where
  nothing : Matches [] []
  any_text : {pat s : Bytes} (a : Bytes) → Matches pat s → Matches (b'*' ∷ pat) (a ++ s)
  any_byte : {pat s : Bytes} (x : ℕ) → Matches pat s → Matches (b'?' ∷ pat) (x ∷ s)
  same_byte : {pat s : Bytes} (x : ℕ) → Matches pat s → Matches (x ∷ pat) (x ∷ s)

wildmatch_star : (pat s a : Bytes) → wildmatch pat s ≡ true → wildmatch (b'*' ∷ pat) (a ++ s) ≡ true
unfolding wildmatch
wildmatch_star pat [] [] h = h
wildmatch_star pat (x ∷ s) [] h = rw h refl
wildmatch_star pat s (x ∷ a) h = ground (arith, wildmatch_star pat s a h)

wildmatch_byte :
    (pat s : Bytes) (c x : ℕ)
    → (c == b'?' || c == x) ≡ true
    → wildmatch pat s ≡ true
    → wildmatch (c ∷ pat) (x ∷ s) ≡ true
unfolding wildmatch
wildmatch_byte pat s c x e h = elim (Bool-cases (c == b'*')) [
  | inr n ↦ ground arith
  | inl y ↦
      let star : c ≡ b'*' = ground arith in
      subst (λ k. wildmatch (k ∷ pat) (x ∷ s) ≡ true) (sym star) (wildmatch_star pat s (x ∷ []) h)
]

wildmatch_complete : {pat s : Bytes} → Matches pat s → wildmatch pat s ≡ true
unfolding wildmatch
wildmatch_complete nothing = refl
wildmatch_complete (any_text {pat} {s} a m) = wildmatch_star pat s a (wildmatch_complete m)
wildmatch_complete (any_byte {pat} {s} x m) =
    wildmatch_byte pat s b'?' x refl (wildmatch_complete m)
wildmatch_complete (same_byte {pat} {s} x m) =
    wildmatch_byte pat s x x (ground arith) (wildmatch_complete m)

-- A pattern that starts with a star, and what it stands for after a byte more.
one_more : {pat s : Bytes} (x : ℕ) → Matches (b'*' ∷ pat) s → Matches (b'*' ∷ pat) (x ∷ s)
one_more x (any_text a m) = any_text (x ∷ a) m
one_more x (same_byte y m) = any_text (x ∷ y ∷ []) m

wildmatch_sound : (pat s : Bytes) → wildmatch pat s ≡ true → Matches pat s
unfolding wildmatch
wildmatch_sound [] [] h = nothing
wildmatch_sound [] (x ∷ s) h = absurd (cc)
wildmatch_sound (c ∷ pat) [] h =
    let star : c ≡ b'*' = ground arith in
    subst (λ k. Matches (k ∷ pat) []) (sym star)
      (any_text [] (wildmatch_sound pat [] (ground arith)))
wildmatch_sound (c ∷ pat) (x ∷ s) h = elim (Bool-cases (c == b'*')) [
  | inl y ↦
      let star : c ≡ b'*' = ground arith in
      subst (λ k. Matches (k ∷ pat) (x ∷ s)) (sym star)
        (elim (Bool-cases (wildmatch pat (x ∷ s))) [
          | inl here ↦ any_text [] (wildmatch_sound pat (x ∷ s) here)
          | inr away ↦
              one_more x
                (subst (λ k. Matches (k ∷ pat) s) star (wildmatch_sound (c ∷ pat) s (ground arith)))
        ])
  | inr n ↦ elim (Bool-cases (c == b'?')) [
    | inl q ↦
        let mark : c ≡ b'?' = ground arith in
        subst (λ k. Matches (k ∷ pat) (x ∷ s)) (sym mark)
          (any_byte x (wildmatch_sound pat s (ground arith)))
    | inr m ↦
        let same : c ≡ x = ground arith in
        subst (λ k. Matches (k ∷ pat) (x ∷ s)) (sym same)
          (same_byte x (wildmatch_sound pat s (ground arith)))
  ]
]

-- `wildmatch` accepts exactly the names that the pattern stands for.
pub wildmatch_iff : (pat s : Bytes) → (wildmatch pat s ≡ true) ↔ Matches pat s
wildmatch_iff pat s = (wildmatch_sound pat s, wildmatch_complete)
