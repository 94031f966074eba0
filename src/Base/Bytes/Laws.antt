-- ===== src/Base/Bytes/Laws.antt =====
-- Laws of the searches on texts.
use starweb.Base.{
  ℕ, zero, suc, ◌+◌, ◌≤◌, ◌<◌, ◌≡◌, refl, ◌↔◌, Bool, true, false, none, some, [], ◌∷◌, ◌++◌, arith,
  ◌==◌, ==_refl, All, length, take, drop, Bool-cases, inl, inr, get_elem?,
}
use starweb.Base.Bytes.{Bytes, equal, find_if, find, starts_with, find_sub, to_lower, lower}

pub equal_iff : (s t : Bytes) → (equal s t ≡ true) ↔ (s ≡ t)
unfolding equal
equal_iff [] [] = ground arith
equal_iff [] (y ∷ t) = ground arith
equal_iff (x ∷ s) [] = ground arith
equal_iff (x ∷ s) (y ∷ t) = ground (arith, equal_iff s t)

pub equal_refl : (a : Bytes) → equal a a ≡ true
equal_refl a = (equal_iff a a).1 refl

-- No byte of the text passes the test.
abbrev pub Avoids : (ℕ → Bool) → Bytes → Type 0
Avoids p = All (λ x. p x ≡ false)

abbrev pub Lacks : ℕ → Bytes → Type 0
Lacks c = Avoids (λ x. x == c)

pub find_if-Avoids : (p : ℕ → Bool) (s : Bytes) → Avoids p s → find_if p s ≡ none
unfolding find_if
find_if-Avoids p [] h = refl
find_if-Avoids p (x ∷ s) h = rw (h.0, find_if-Avoids p s h.1)

pub Avoids-find_if : (p : ℕ → Bool) (s : Bytes) → find_if p s ≡ none → Avoids p s
unfolding find_if
Avoids-find_if p [] h = tt
Avoids-find_if p (x ∷ s) h = (ground arith, Avoids-find_if p s (ground arith))

-- The search stops at the first byte that passes.
pub find_if-append :
    (p : ℕ → Bool) (a : Bytes) (c : ℕ) (b : Bytes)
    → Avoids p a
    → p c ≡ true
    → find_if p (a ++ c ∷ b) ≡ some (length a)
unfolding find_if
find_if-append p [] c b h e = rw e
find_if-append p (x ∷ a) c b h e = rw (h.0, find_if-append p a c b h.1 e)

pub find-append :
    (a : Bytes) (c : ℕ) (b : Bytes) → Lacks c a → find c (a ++ c ∷ b) ≡ some (length a)
find-append a c b h = find_if-append _ a c b h (==_refl c)

-- A place that is found splits the text.
pub find_if-lt : (p : ℕ → Bool) (s : Bytes) (i : ℕ) → find_if p s ≡ some i → i < length s
unfolding find_if
find_if-lt p [] i h = absurd (ground arith)
find_if-lt p (x ∷ s) zero h = omega arith
find_if-lt p (x ∷ s) (suc i) h = omega (arith, find_if-lt p s i (ground arith))

pub Avoids-take : (p : ℕ → Bool) (s : Bytes) (i : ℕ) → find_if p s ≡ some i → Avoids p (take i s)
unfolding find_if
Avoids-take p [] i h = absurd (ground arith)
Avoids-take p (x ∷ s) zero h = tt
Avoids-take p (x ∷ s) (suc i) h = (ground arith, Avoids-take p s i (ground arith))

pub Avoids-append : (p : ℕ → Bool) (a b : Bytes) → Avoids p a → Avoids p b → Avoids p (a ++ b)
Avoids-append p [] b ha hb = hb
Avoids-append p (x ∷ a) b ha hb = (ha.0, Avoids-append p a b ha.1 hb)

pub starts_with-append : (p s : Bytes) → starts_with p (p ++ s) ≡ true
unfolding starts_with
starts_with-append [] s = refl
starts_with-append (x ∷ p) s = rw (==_refl x, starts_with-append p s)

pub starts_with_split : (p s : Bytes) → starts_with p s ≡ true → (r : Bytes) × (s ≡ p ++ r)
unfolding starts_with
starts_with_split [] s h = (s, refl)
starts_with_split (x ∷ p) [] h = absurd (ground arith)
starts_with_split (x ∷ p) (y ∷ s) h =
    let (r, e) = starts_with_split p s (ground arith) in (r, ground arith)

pub equal-false : (a b : Bytes) → ¬ (a ≡ b) → equal a b ≡ false
equal-false a b h = elim (Bool-cases (equal a b)) [
  | inl e ↦ absurd (h ((equal_iff a b).0 e))
  | inr e ↦ e
]

pub starts_with-le : (p s : Bytes) → starts_with p s ≡ true → length p ≤ length s
unfolding starts_with
starts_with-le [] s h = omega arith
starts_with-le (x ∷ p) [] h = absurd (ground arith)
starts_with-le (x ∷ p) (y ∷ s) h = omega (arith, starts_with-le p s (ground arith))

-- A text that is found lies inside.
pub find_sub-le : (p s : Bytes) (i : ℕ) → find_sub p s ≡ some i → i + length p ≤ length s
unfolding find_sub
find_sub-le p [] i h = ground (arith, starts_with-le p [])
find_sub-le p (x ∷ s) zero h = ground (arith, starts_with-le p (x ∷ s))
find_sub-le p (x ∷ s) (suc i) h = ground (arith, find_sub-le p s i)

-- The first occurrence of a text whose first byte does not stand before it.
pub find_sub-append :
    (a : Bytes) (c : ℕ) (p r : Bytes)
    → Lacks c a
    → find_sub (c ∷ p) (a ++ ((c ∷ p) ++ r)) ≡ some (length a)
unfolding find_sub starts_with
find_sub-append [] c p r h = rw (==_refl c, starts_with-append p r)
find_sub-append (x ∷ a) c p r h = ground (arith, h.0, find_sub-append a c p r h.1)

-- Lower case neither makes nor removes a byte that is no letter.
pub Lacks-lower : (c : ℕ) (s : Bytes) → to_lower c ≡ c → Lacks c (lower s) → Lacks c s
Lacks-lower c [] e h = tt
Lacks-lower c (x ∷ s) e h = (ground (arith, h.0), Lacks-lower c s e h.1)

pub drop-find : (c : ℕ) (s : Bytes) (i : ℕ) → find c s ≡ some i → (t : Bytes) × (drop i s ≡ c ∷ t)
unfolding find_if
drop-find c [] i h = absurd (ground arith)
drop-find c (x ∷ s) zero h = (s, ground arith)
drop-find c (x ∷ s) (suc i) h = drop-find c s i (ground arith)

-- The first byte of a text that is found stands at that place.
pub get_elem?-find_sub :
    (c : ℕ) (p s : Bytes) (i : ℕ) → find_sub (c ∷ p) s ≡ some i → get_elem? s i ≡ some c
unfolding find_sub starts_with
get_elem?-find_sub c p [] i h = absurd (ground arith)
get_elem?-find_sub c p (x ∷ s) zero h = ground arith
get_elem?-find_sub c p (x ∷ s) (suc i) h = get_elem?-find_sub c p s i (ground arith)

-- What is found is there, and nowhere before.
pub find_sub_found : (p s : Bytes) (i : ℕ) → find_sub p s ≡ some i → starts_with p (drop i s) ≡ true
unfolding find_sub
find_sub_found p [] zero h = ground arith
find_sub_found p [] (suc i) h = absurd (ground arith)
find_sub_found p (x ∷ s) zero h = ground arith
find_sub_found p (x ∷ s) (suc i) h = find_sub_found p s i (ground arith)

pub find_sub_first :
    (p s : Bytes) (i j : ℕ) → find_sub p s ≡ some i → j < i → starts_with p (drop j s) ≡ false
unfolding find_sub
find_sub_first p [] zero j h l = absurd (omega arith)
find_sub_first p [] (suc i) j h l = absurd (ground arith)
find_sub_first p (x ∷ s) zero j h l = absurd (omega arith)
find_sub_first p (x ∷ s) (suc i) zero h l = ground arith
find_sub_first p (x ∷ s) (suc i) (suc j) h l = find_sub_first p s i j (ground arith) (omega arith)

pub find_sub_nowhere :
    (p s : Bytes) (j : ℕ) → ¬ (p ≡ []) → find_sub p s ≡ none → starts_with p (drop j s) ≡ false
unfolding find_sub starts_with
find_sub_nowhere [] s j n h = absurd (n refl)
find_sub_nowhere (c ∷ p) [] zero n h = refl
find_sub_nowhere (c ∷ p) [] (suc j) n h = refl
find_sub_nowhere (c ∷ p) (x ∷ s) zero n h = ground arith
find_sub_nowhere (c ∷ p) (x ∷ s) (suc j) n h = find_sub_nowhere (c ∷ p) s j n (ground arith)
