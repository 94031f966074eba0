-- ===== src/Base/Dict.antt =====
-- `std::unordered_map` with text keys as an association list with distinct keys. Its order is the
-- order of insertion; the order in which the real table iterates is unspecified.
use starweb.Base.{◌≡◌, refl, Option, none, some, List, [], ◌∷◌, ◌++◌, arith, if◌then◌else◌}
use starweb.Base.Bytes.{Bytes, equal}
use starweb.Base.Bytes.Laws.{equal_iff, equal_refl}

abbrev pub Dict {ℓ} : Type ℓ → Type ℓ
Dict V = List (Bytes × V)

module _ {ℓ} {V : Type ℓ} where
  -- m.find(k)
  unfoldable pub lookup : Bytes → Dict V → Option V
  unfolding equal
  lookup k [] = none
  lookup k ((j, v) ∷ m) = if equal j k then some v else lookup k m

  -- m[k] = v
  unfoldable pub insert : Bytes → V → Dict V → Dict V
  unfolding equal
  insert k v [] = (k, v) ∷ []
  insert k v ((j, w) ∷ m) = if equal j k then (k, v) ∷ m else (j, w) ∷ insert k v m

  -- m.erase(k)
  unfoldable pub erase : Bytes → Dict V → Dict V
  unfolding equal
  erase k [] = []
  erase k ((j, w) ∷ m) = let rest = erase k m in if equal j k then rest else (j, w) ∷ rest

module _ {ℓ} {V : Type ℓ} where
  pub lookup-insert :
      (name asked : Bytes) (v : V) (table : Dict V)
      → lookup asked (insert name v table)
        ≡ (if equal name asked then some v else lookup asked table)
  unfolding lookup insert
  lookup-insert name asked v [] = refl
  lookup-insert name asked v ((i, w) ∷ table) = ground (
    arith,
    lookup-insert name asked v table,
    equal_iff name asked,
    equal_iff i name,
    equal_iff i asked,
  )

  pub lookup-insert_self : (k : Bytes) (v : V) (m : Dict V) → lookup k (insert k v m) ≡ some v
  lookup-insert_self k v m = rw (lookup-insert, equal_refl)

  pub lookup-erase :
      (k j : Bytes) (m : Dict V) → lookup j (erase k m) ≡ (if equal k j then none else lookup j m)
  unfolding lookup erase
  lookup-erase k j [] = ground arith
  lookup-erase k j ((i, w) ∷ m) =
      ground (arith, equal_iff k j, equal_iff i k, equal_iff i j, lookup-erase k j m)

  -- A new key goes to the end.
  pub insert_fresh :
      (k : Bytes) (v : V) (m : Dict V) → lookup k m ≡ none → insert k v m ≡ m ++ (k, v) ∷ []
  unfolding lookup insert
  insert_fresh k v [] h = refl
  insert_fresh k v ((i, w) ∷ m) h = ground (arith, insert_fresh k v m)

  pub lookup-append :
      (k : Bytes) (m n : Dict V) → lookup k m ≡ none → lookup k (m ++ n) ≡ lookup k n
  unfolding lookup
  lookup-append k [] n h = refl
  lookup-append k ((i, w) ∷ m) n h = ground (arith, lookup-append k m n)
