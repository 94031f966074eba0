-- ===== src/Base/Bytes/Trim.antt =====
-- Cutting a kind of byte off both ends of a text, as a search from each end (the way the source
-- does it) and as two recursions.
use starweb.Base.{
  append-nil, ℕ, suc, ◌+◌, ◌-◌, ◌≤◌, ◌≡◌, refl, ap, ◌∙◌, Bool, true, false, not, Option, none, some,
  [], ◌∷◌, ◌++◌, arith, All, length, take, if◌then◌else◌, Bool-cases, inl, inr,
}
use starweb.Base.Bytes.{Bytes, find_if, find_last_if, substr, is_empty}

-- `start = find_first_not_of`, `end = find_last_not_of`, `substr(start, end - start + 1)`.
unfoldable pub strip : (ℕ → Bool) → Bytes → Bytes
unfolding find_if find_last_if
strip p s = elim (find_if (λ x. not (p x)) s) [
  | none ↦ []
  | some start ↦ elim (find_last_if (λ x. not (p x)) s) [
    | none ↦ []
    | some end ↦ substr start (end - start + 1) s
  ]
]

unfoldable pub lstrip : (ℕ → Bool) → Bytes → Bytes
lstrip p [] = []
lstrip p (x ∷ s) = if p x then lstrip p s else x ∷ s

-- A byte in front of a text whose end is cut.
abbrev pub rcons : (ℕ → Bool) → ℕ → Bytes → Bytes
rcons p x [] = if p x then [] else x ∷ []
rcons p x (y ∷ r) = x ∷ y ∷ r

unfoldable pub rstrip : (ℕ → Bool) → Bytes → Bytes
rstrip p [] = []
rstrip p (x ∷ s) = rcons p x (rstrip p s)

module _ (p : ℕ → Bool) where
  up_to : Option ℕ → Bytes → Bytes
  up_to none s = []
  up_to (some i) s = take (suc i) s

  rstrip-up_to : (s : Bytes) → rstrip p s ≡ up_to (find_last_if (λ x. not (p x)) s) s
  unfolding rstrip up_to find_last_if
  rstrip-up_to [] = refl
  rstrip-up_to (x ∷ []) = ground arith
  rstrip-up_to (x ∷ y ∷ s) = ground (arith, rstrip-up_to (y ∷ s))

  strip_skip : (x : ℕ) (s : Bytes) → p x ≡ true → strip p (x ∷ s) ≡ strip p s
  unfolding strip
  strip_skip x s e = ground arith

  strip_stop : (x : ℕ) (s : Bytes) → p x ≡ false → strip p (x ∷ s) ≡ rstrip p (x ∷ s)
  unfolding strip up_to
  strip_stop x s e = ground (arith, rstrip-up_to (x ∷ s))

  pub strip_lem : (s : Bytes) → strip p s ≡ rstrip p (lstrip p s)
  unfolding lstrip
  strip_lem [] = unfold strip rstrip in refl
  strip_lem (x ∷ s) = ground (arith, strip_skip x s, strip_stop x s, strip_lem s)

  -- A text that has nothing to cut.
  pub record IsTrimmed (s : Bytes) : Type 0 where
    pub front : lstrip p s ≡ s
    pub back : rstrip p s ≡ s

  pub IsTrimmed-nil : IsTrimmed []
  unfolding lstrip rstrip
  IsTrimmed-nil = record { front = refl; back = refl }

  pub strip-IsTrimmed_id : (s : Bytes) → IsTrimmed s → strip p s ≡ s
  strip-IsTrimmed_id s h = strip_lem s ∙ rw h.front h.back

  lstrip-append : (a s : Bytes) → All (λ x. p x ≡ true) a → lstrip p (a ++ s) ≡ lstrip p s
  unfolding lstrip
  lstrip-append [] s h = refl
  lstrip-append (x ∷ a) s h = rw h.0 (lstrip-append a s h.1)

  length-lstrip : (s : Bytes) → length (lstrip p s) ≤ length s
  unfolding lstrip
  length-lstrip [] = omega arith
  length-lstrip (x ∷ s) = ground (arith, length-lstrip s)

  rstrip_all : (b : Bytes) → All (λ x. p x ≡ true) b → rstrip p b ≡ []
  unfolding rstrip
  rstrip_all [] h = refl
  rstrip_all (x ∷ b) h = rw (rstrip_all b h.1, h.0)

  rstrip-append : (s b : Bytes) → All (λ x. p x ≡ true) b → rstrip p (s ++ b) ≡ rstrip p s
  unfolding rstrip
  rstrip-append [] b h = rstrip_all b h
  rstrip-append (x ∷ s) b h = rw (rstrip-append s b h)

  -- the first byte of a trimmed text stays
  pub front_stays : (x : ℕ) (s : Bytes) → lstrip p (x ∷ s) ≡ x ∷ s → p x ≡ false
  unfolding lstrip
  front_stays x s h = elim (Bool-cases (p x)) [
    | inl e ↦ absurd (omega (arith, length-lstrip s, ap length (rw e at h)))
    | inr e ↦ e
  ]

  lstrip-front :
      (c b : Bytes)
      → lstrip p c ≡ c
      → All (λ x. p x ≡ true) b
      → rstrip p (lstrip p (c ++ b)) ≡ rstrip p c
  unfolding lstrip
  lstrip-front [] b h hb = rw (← append-nil b) (rw (lstrip-append b [] hb) refl)
  lstrip-front (x ∷ s) b h hb = unfold lstrip in rw (front_stays x s h) (rstrip-append (x ∷ s) b hb)

  -- What is cut is exactly the bytes of that kind on both sides of a trimmed text.
  pub strip-append :
      (a c b : Bytes)
      → All (λ x. p x ≡ true) a
      → IsTrimmed c
      → All (λ x. p x ≡ true) b
      → strip p (a ++ (c ++ b)) ≡ c
  strip-append a c b ha hc hb =
      strip_lem (a ++ (c ++ b))
      ∙ rw (lstrip-append a (c ++ b) ha) (lstrip-front c b hc.front hb ∙ hc.back)

  -- Cutting twice is cutting once.
  lstrip_idem : (s : Bytes) → lstrip p (lstrip p s) ≡ lstrip p s
  unfolding lstrip
  lstrip_idem [] = refl
  lstrip_idem (x ∷ s) = ground (arith, lstrip_idem s)

  rstrip_idem : (s : Bytes) → rstrip p (rstrip p s) ≡ rstrip p s
  unfolding rstrip
  rstrip_idem [] = refl
  rstrip_idem (x ∷ s) = ground (arith, rstrip_idem s)

  lstrip-rstrip : (s : Bytes) → lstrip p s ≡ s → lstrip p (rstrip p s) ≡ rstrip p s
  lstrip-rstrip [] h = unfold lstrip rstrip in refl
  lstrip-rstrip (x ∷ s) h = let e = front_stays x s h in unfold lstrip rstrip in ground arith

  pub strip-IsTrimmed : (s : Bytes) → IsTrimmed (strip p s)
  strip-IsTrimmed s = record {
    front = rw strip_lem (lstrip-rstrip (lstrip p s) (lstrip_idem s));
    back = rw strip_lem (rstrip_idem (lstrip p s));
  }

  All-lstrip {κ} : (P : ℕ → Type κ) (s : Bytes) → All P s → All P (lstrip p s)
  unfolding lstrip
  All-lstrip P [] h = h
  All-lstrip P (x ∷ s) h = elim (Bool-cases (p x)) [
    | inl e ↦ rw e (All-lstrip P s h.1)
    | inr e ↦ rw e h
  ]

  All-rcons {κ} : (P : ℕ → Type κ) (x : ℕ) (r : Bytes) → P x → All P r → All P (rcons p x r)
  All-rcons P x [] hx hr = elim (Bool-cases (p x)) [ inl e ↦ rw e tt | inr e ↦ rw e (hx, tt) ]
  All-rcons P x (y ∷ r) hx hr = (hx, hr)

  All-rstrip {κ} : (P : ℕ → Type κ) (s : Bytes) → All P s → All P (rstrip p s)
  unfolding rstrip
  All-rstrip P [] h = h
  All-rstrip P (x ∷ s) h = All-rcons P x (rstrip p s) h.0 (All-rstrip P s h.1)

  -- Whatever holds of every byte of a text holds of every byte that is left.
  pub All-strip {κ} : (P : ℕ → Type κ) (s : Bytes) → All P s → All P (strip p s)
  All-strip P s h = rw strip_lem (All-rstrip P (lstrip p s) (All-lstrip P s h))

  rstrip-append_stay : (a v : Bytes) → ¬ (v ≡ []) → rstrip p v ≡ v → rstrip p (a ++ v) ≡ a ++ v
  unfolding rstrip
  rstrip-append_stay [] v n h = h
  rstrip-append_stay (x ∷ a) v n h = rw (rstrip-append_stay a v n h) (stay a v n)
    where
      stay : (a v : Bytes) → ¬ (v ≡ []) → rcons p x (a ++ v) ≡ x ∷ (a ++ v)
      stay [] [] n = absurd (n refl)
      stay [] (y ∷ v) n = refl
      stay (y ∷ a) v n = refl

  rstrip-none : (v : Bytes) → All (λ x. p x ≡ false) v → rstrip p v ≡ v
  unfolding rstrip
  rstrip-none [] h = refl
  rstrip-none (x ∷ []) h = rw h.0
  rstrip-none (x ∷ y ∷ v) h = rw (rstrip-none (y ∷ v) h.1)

  -- A text between two that have a byte to keep.
  pub IsTrimmed-between :
      (x : ℕ) (a v : Bytes)
      → p x ≡ false
      → ¬ (v ≡ [])
      → All (λ x. p x ≡ false) v
      → IsTrimmed (x ∷ (a ++ v))
  IsTrimmed-between x a v e n h = record {
    front = unfold lstrip in rw e;
    back = rstrip-append_stay (x ∷ a) v n (rstrip-none v h);
  }

  -- A text that starts with a byte to keep is not cut to nothing.
  pub strip-ne-nil : (x : ℕ) (s : Bytes) → p x ≡ false → is_empty (strip p (x ∷ s)) ≡ false
  strip-ne-nil x s e = rw strip_lem (unfold lstrip rstrip in rw e (kept (rstrip p s)))
    where
      kept : (r : Bytes) → is_empty (rcons p x r) ≡ false
      kept [] = rw e
      kept (y ∷ r) = refl

  -- Nothing is cut where no byte is of that kind.
  pub strip_none : (s : Bytes) → All (λ x. p x ≡ false) s → strip p s ≡ s
  strip_none s h = strip_lem s ∙ rw (lstrip-none s h) (rstrip-none s h)
    where
      lstrip-none : (s : Bytes) → All (λ x. p x ≡ false) s → lstrip p s ≡ s
      lstrip-none [] h = unfold lstrip in refl
      lstrip-none (x ∷ s) h = unfold lstrip in rw h.0
