-- ===== src/Proxy/Router/Chosen.antt =====
-- The contract of the choices of src/proxy/router.cpp: the first entry of the highest rank.
use starweb.Base.{
  ℕ, ◌≤◌, ◌<◌, ◌≡◌, refl, sym, Option, none, some, List, [], ◌∷◌, ◌++◌, append_assoc, arith, All,
  All-append, subst,
}

abbrev pub score : {A : Type 0} → (A → ℕ) → Option A → ℕ
score rank none = 0
score rank (some x) = rank x

module _ {A : Type 0} where
  pub All-mp : (P Q : A → Type 0) → (xs : List A) → ((x : A) → P x → Q x) → All P xs → All Q xs
  All-mp P Q [] f h = tt
  All-mp P Q (x ∷ xs) f h = (f x h.0, All-mp P Q xs f h.1)

  -- The entry stands after lower ones and before none that is higher; a rank of 0 is not chosen.
  pub record First (rank : A → ℕ) (xs : List A) (x : A) : Type 0 where
    pub before : List A
    pub after : List A
    pub split : xs ≡ before ++ x ∷ after
    pub lower : All (λ y. rank y < rank x) before
    pub no_higher : All (λ y. rank y ≤ rank x) after
    pub some_rank : 0 < rank x

  abbrev pub Chosen : (A → ℕ) → List A → Option A → Type 0
  Chosen rank xs none = All (λ y. rank y ≡ 0) xs
  Chosen rank xs (some x) = First rank xs x

  pub Chosen-bound :
      (rank : A → ℕ) (xs : List A) (best : Option A)
      → Chosen rank xs best
      → All (λ y. rank y ≤ score rank best) xs
  Chosen-bound rank xs none c = All-mp _ _ xs (λ x e. omega arith) c
  Chosen-bound rank xs (some x) c = subst (All (λ y. rank y ≤ rank x)) (sym c.split) (
      All-append _ c.before (x ∷ c.after) (All-mp _ _ c.before (λ y l. omega arith) c.lower)
        (omega arith, c.no_higher))

  pub Chosen-new :
      (rank : A → ℕ) (xs : List A) (best : Option A) (x : A) (rest : List A)
      → Chosen rank xs best
      → score rank best < rank x
      → All (λ y. rank y ≤ rank x) rest
      → Chosen rank (xs ++ x ∷ rest) (some x)
  Chosen-new rank xs best x rest c l r = record {
    before = xs;
    after = rest;
    split = refl;
    lower = All-mp _ _ xs (λ y h. omega arith) (Chosen-bound rank xs best c);
    no_higher = r;
    some_rank = omega arith;
  }

  pub Chosen-keep :
      (rank : A → ℕ) (xs : List A) (best : Option A) (x : A)
      → Chosen rank xs best
      → rank x ≤ score rank best
      → Chosen rank (xs ++ x ∷ []) best
  Chosen-keep rank xs none x c l = All-append _ xs (x ∷ []) c (omega arith, tt)
  Chosen-keep rank xs (some b) x c l = record {
    before = c.before;
    after = c.after ++ x ∷ [];
    split = rw c.split (append_assoc c.before (b ∷ c.after) (x ∷ []));
    lower = c.lower;
    no_higher = All-append _ c.after (x ∷ []) c.no_higher (l, tt);
    some_rank = c.some_rank;
  }

  pub All-zip : (P Q : A → Type 0) (xs : List A) → All P xs → All Q xs → All (λ x. P x × Q x) xs
  All-zip P Q [] p q = tt
  All-zip P Q (x ∷ xs) p q = ((p.0, q.0), All-zip P Q xs p.1 q.1)

  All-split : (P : A → Type 0) (xs ys : List A) → All P (xs ++ ys) → All P xs × All P ys
  All-split P [] ys h = (tt, h)
  All-split P (x ∷ xs) ys h = ((h.0, (All-split P xs ys h.1).0), (All-split P xs ys h.1).1)

  pub First-holds :
      (rank : A → ℕ) (P : A → Type 0) (xs : List A) (x : A) → First rank xs x → All P xs → P x
  First-holds rank P xs x c h = (All-split P c.before (x ∷ c.after) (subst (All P) c.split h)).1.0

  -- Under another rank that orders the entries against `x` the same way, it is still the first.
  pub First-rerank :
      (r r' : A → ℕ) (xs : List A) (x : A)
      → First r xs x
      → All (λ y. (r y < r x → r' y < r' x) × (r y ≤ r x → r' y ≤ r' x)) xs
      → 0 < r' x
      → First r' xs x
  First-rerank r r' xs x c h z =
      let parts = All-split _ c.before (x ∷ c.after) (subst (All _) c.split h) in
      record {
        before = c.before;
        after = c.after;
        split = c.split;
        lower = All-mp _ _ c.before (λ y p. p.1.0 p.0) (All-zip _ _ c.before c.lower parts.0);
        no_higher =
            All-mp _ _ c.after (λ y p. p.1.1 p.0) (All-zip _ _ c.after c.no_higher parts.1.1);
        some_rank = z;
      }
