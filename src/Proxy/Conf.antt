-- ===== src/Proxy/Conf.antt =====
-- src/proxy/config.cpp: what the lexer, the parser and the builder of the configuration share. A call that
-- fails writes its message and returns false; here it is an `error` with the message.
pub mod Lexer
pub mod Value
pub mod Glob
pub mod Tree
pub mod Build
pub mod Ports
pub mod Form
pub mod Dump
mod Tests
use starweb.Base.{
  ℕ, zero, suc, ◌≤◌, ◌≡◌, refl, Bool, true, false, Option, none, some, List, [], ◌∷◌, ◌++◌,
  if◌then◌else◌, subst, ap,
}
use starweb.Base.Bytes.{Bytes, codes, equal}
use starweb.Base.Decimal.{to_string}

pub data Result {ℓ} (A : Type ℓ) : Type ℓ where
  ok : A → Result A
  error : Bytes → Result A

abbrev pub value_or {ℓ} : {A : Type ℓ} → A → Result A → A
value_or a (ok b) = b
value_or a (error msg) = a

pub ok-inj {ℓ} : {A : Type ℓ} {a b : A} → ok a ≡ ok b → a ≡ b
ok-inj {a = a} h = ap (value_or a) h

module _ {ℓ κ} {X : Type ℓ} {Y : Type κ} where
  infixl 5 ◌>>=◌
  abbrev pub ◌>>=◌ : Result X → (X → Result Y) → Result Y
  ok x >>= next = next x
  error msg >>= next = error msg

  -- What comes out at the end came through the first step.
  pub >>=-eq-ok :
      (first : Result X) (next : X → Result Y) {y : Y}
      → (first >>= next) ≡ ok y
      → (x : X) × (first ≡ ok x) × (next x ≡ ok y)
  >>=-eq-ok (ok x) next h = (x, refl, h)
  >>=-eq-ok (error msg) next h = absurd (cc)

module _ {κ} {Y : Type κ} where
  infixl 5 ◌>>◌
  abbrev pub ◌>>◌ : Result (Unit {0}) → Result Y → Result Y
  first >> second = first >>= (λ done. second)

  -- What follows a check that passed.
  pub >>-eq-ok :
      (first : Result (Unit {0})) (second : Result Y) {y : Y}
      → (first >> second) ≡ ok y
      → second ≡ ok y
  >>-eq-ok first second h = (>>=-eq-ok first (λ done. second) h).2

-- A loop whose body may fail.
unfoldable pub each {ℓ κ} : {A : Type ℓ} {S : Type κ} → (A → S → Result S) → List A → S → Result S
each f [] s = ok s
each f (x ∷ xs) s = f x s >>= each f xs

-- What every round keeps holds at the end.
pub each-inv {ℓ κ μ} :
    {A : Type ℓ} {S : Type κ} (P : S → Type μ) (f : A → S → Result S)
    → ((x : A) (s t : S) → P s → f x s ≡ ok t → P t)
    → (xs : List A) (s t : S) → P s
    → each f xs s ≡ ok t
    → P t
unfolding each
each-inv P f keeps [] s t p h = subst P (ok-inj h) p
each-inv P f keeps (x ∷ xs) s t p h =
    let (u, e, r) = >>=-eq-ok (f x s) (each f xs) h in each-inv P f keeps xs u t (keeps x s u p e) r
