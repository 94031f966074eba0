-- ===== src/Base/Bytes/Split.antt =====
-- The loop that cuts a text at every occurrence of a byte, on fuel, and its meaning.
use native.Mathlib.Numerals.{add-one}
use starweb.Base.{
  ℕ, zero, suc, ◌+◌, ◌<◌, ◌≡◌, refl, ap, ◌∙◌, true, false, none, some, List, [], ◌∷◌, ◌++◌, arith,
  ◌==◌, ==_refl, if◌then◌else◌, length, take, drop, Bool-cases, Option-cases, inl, inr,
}
use starweb.Base.Bytes.{Bytes, find, find_if}
use starweb.Base.Bytes.Laws.{Lacks}

-- `pos = find(c, start)`; the piece up to it, and on behind it; the last piece has no end.
unfoldable pub split_loop : ℕ → ℕ → Bytes → List Bytes
unfolding find_if
split_loop zero c s = []
split_loop (suc fuel) c s = elim (find c s) [
  | none ↦ s ∷ []
  | some pos ↦ take pos s ∷ split_loop fuel c (drop (pos + 1) s)
]

-- Each round leaves a shorter text, so one more round than it has bytes is enough.
unfoldable pub split_on : ℕ → Bytes → List Bytes
unfolding split_loop
split_on c s = split_loop (suc (length s)) c s

abbrev cons_head : ℕ → List Bytes → List Bytes
cons_head x [] = []
cons_head x (l ∷ ls) = (x ∷ l) ∷ ls

pieces : ℕ → Bytes → List Bytes
pieces c [] = [] ∷ []
pieces c (x ∷ s) = if x == c then [] ∷ pieces c s else cons_head x (pieces c s)

split_loop-skip :
    (fuel c x : ℕ) (s : Bytes)
    → (x == c) ≡ false
    → split_loop (suc fuel) c (x ∷ s) ≡ cons_head x (split_loop (suc fuel) c s)
unfolding split_loop
split_loop-skip fuel c x s e = elim (Option-cases (find c s)) [
  | inl n ↦ rw (n, split_loop) (rw e)
  | inr (i, n) ↦ rw (n, split_loop) (rw e (rw (add-one (suc i), add-one i)))
]

split_loop-stop :
    (fuel c x : ℕ) (s : Bytes)
    → (x == c) ≡ true
    → split_loop (suc fuel) c (x ∷ s) ≡ [] ∷ split_loop fuel c s
unfolding split_loop
split_loop-stop fuel c x s e = rw (e, split_loop)

split_loop-pieces : (fuel c : ℕ) (s : Bytes) → length s < fuel → split_loop fuel c s ≡ pieces c s
unfolding pieces
split_loop-pieces zero c s h = absurd (omega arith)
split_loop-pieces (suc fuel) c [] h = unfold split_loop in refl
split_loop-pieces (suc fuel) c (x ∷ s) h = elim (Bool-cases (x == c)) [
  | inl e ↦
      rw e (split_loop-stop fuel c x s e ∙ ap (◌∷◌ []) (split_loop-pieces fuel c s (omega arith)))
  | inr e ↦ rw e (
      split_loop-skip fuel c x s e
      ∙ ap (cons_head x) (split_loop-pieces (suc fuel) c s (omega arith)))
]

split_on-pieces : (c : ℕ) (s : Bytes) → split_on c s ≡ pieces c s
unfolding split_on
split_on-pieces c s = split_loop-pieces (suc (length s)) c s (omega arith)

pieces_one : (c : ℕ) (a : Bytes) → Lacks c a → pieces c a ≡ a ∷ []
unfolding pieces
pieces_one c [] h = refl
pieces_one c (x ∷ a) h = rw (h.0, pieces_one c a h.1)

pieces-append : (c : ℕ) (a b : Bytes) → Lacks c a → pieces c (a ++ c ∷ b) ≡ a ∷ pieces c b
unfolding pieces
pieces-append c [] b h = rw (==_refl c)
pieces-append c (x ∷ a) b h = rw (h.0, pieces-append c a b h.1)

-- A text without the byte is one piece.
pub split_on_one : (c : ℕ) (a : Bytes) → Lacks c a → split_on c a ≡ a ∷ []
split_on_one c a h = split_on-pieces c a ∙ pieces_one c a h

-- The first piece ends at the first occurrence.
pub split_on-append : (c : ℕ) (a b : Bytes) → Lacks c a → split_on c (a ++ c ∷ b) ≡ a ∷ split_on c b
split_on-append c a b h =
    split_on-pieces c (a ++ c ∷ b) ∙ rw split_on-pieces (pieces-append c a b h)
