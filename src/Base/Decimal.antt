-- ===== src/Base/Decimal.antt =====
-- Decimal numbers as the standard library reads and prints them: `std::to_string`, `std::stoull`
-- and `std::stoi` of 64-bit `unsigned long long` and 32-bit `int`. A thrown exception is `none`.
pub mod Scan
use native.Mathlib.Nat.{pow-succ', add-zero, zero-add, le_trans, pow-le-pow_right}
use starweb.Base.{
  ℕ, zero, suc, ◌+◌, ◌-◌, ◌*◌, ◌/◌, ◌%◌, ◌^◌, ◌≤◌, ◌<◌, ◌≡◌, refl, ◌∙◌, Bool, true, false, Option,
  none, some, [], ◌∷◌, ◌++◌, arith, ltb, leb, ◌==◌, if◌then◌else◌, All, Bool-cases, inl, inr,
  length,
}
use starweb.Base.Bytes.{Bytes, is_digit, is_space}
use starweb.Base.Bytes.Laws.{Lacks}
use starweb.Base.Bytes.Trim.{lstrip}
use starweb.Base.Int.{ℤ, pos, sub_ℕ}

abbrev pub u64_mod : ℕ
u64_mod = 2 ^ 64

-- n in decimal, in front of what has been printed; the fuel is at least the number of digits.
print_onto : ℕ → ℕ → Bytes → Bytes
print_onto zero n out = out
print_onto (suc fuel) n out =
    let digit = b'0' + n % 10 in
    let rest = print_onto fuel (n / 10) (digit ∷ out) in if ltb n 10 then digit ∷ out else rest

-- std::to_string of an unsigned number. `n / 10 < n`, so `n + 1` rounds are enough.
unfoldable pub to_string : ℕ → Bytes
unfolding print_onto
to_string n = print_onto (suc n) n []

-- The value of the longest run of digits at the front; `none` where there is no digit.
unfoldable pub digits_value : ℕ → Bytes → ℕ
digits_value acc [] = acc
digits_value acc (c ∷ s) =
    let rest = digits_value (acc * 10 + (c - b'0')) s in if is_digit c then rest else acc

abbrev starts_digit : Bytes → Bool
starts_digit [] = false
starts_digit (c ∷ s) = is_digit c

-- The optional sign: whether it is a minus, and what follows it.
sign : Bytes → Bool × Bytes
sign [] = (false, [])
sign (c ∷ s) = if c == b'-' then (true, s) else if c == b'+' then (false, s) else (false, c ∷ s)

-- strtol's reading: spaces, a sign, digits. `none` is "no conversion", an exception.
read_signed : Bytes → Option (Bool × ℕ)
unfolding sign digits_value lstrip
read_signed s =
    let (minus, body) = sign (lstrip is_space s) in
    if starts_digit body then some (minus, digits_value 0 body) else none

-- std::stoull. A value past 2^64 - 1 is out of range; a minus negates modulo 2^64.
unfoldable pub stoull : Bytes → Option ℕ
unfolding read_signed
stoull s = elim (read_signed s) [
  | none ↦ none
  | some (minus, n) ↦
      if ltb n u64_mod then some (if minus then (u64_mod - n) % u64_mod else n) else none
]

-- std::stoll. A value outside a 64-bit `long long` is out of range.
unfoldable pub stoll : Bytes → Option ℤ
unfolding read_signed
stoll s = elim (read_signed s) [
  | none ↦ none
  | some (minus, n) ↦
      if minus
      then (if leb n (2 ^ 63) then some (sub_ℕ 0 n) else none)
      else (if ltb n (2 ^ 63) then some (pos n) else none)
]

-- std::stoi. A value outside a 32-bit `int` is out of range.
unfoldable pub stoi : Bytes → Option ℤ
unfolding read_signed
stoi s = elim (read_signed s) [
  | none ↦ none
  | some (minus, n) ↦
      if minus
      then (if leb n (2 ^ 31) then some (sub_ℕ 0 n) else none)
      else (if ltb n (2 ^ 31) then some (pos n) else none)
]

abbrev pub IsDigits : Bytes → Type 0
IsDigits = All (λ c. is_digit c ≡ true)

digit_range : (n : ℕ) → is_digit (b'0' + n % 10) ≡ true
digit_range n = ground arith

-- Reading what was printed gives the number back, before whatever follows.
digits_value-print_onto :
    (fuel n : ℕ) (out : Bytes)
    → n < fuel
    → digits_value 0 (print_onto fuel n out) ≡ digits_value n out
unfolding print_onto digits_value
digits_value-print_onto zero n out h = absurd (omega arith)
digits_value-print_onto (suc fuel) n out h =
    ground (arith, digits_value-print_onto fuel (n / 10) ((b'0' + n % 10) ∷ out), digit_range n)

IsDigits-print_onto : (fuel n : ℕ) (out : Bytes) → IsDigits out → IsDigits (print_onto fuel n out)
unfolding print_onto
IsDigits-print_onto zero n out h = h
IsDigits-print_onto (suc fuel) n out h = elim (Bool-cases (ltb n 10)) [
  | inl e ↦ rw e (digit_range n, h)
  | inr e ↦ rw e (IsDigits-print_onto fuel (n / 10) ((b'0' + n % 10) ∷ out) (digit_range n, h))
]

starts_digit-print_onto :
    (fuel n : ℕ) (out : Bytes)
    → starts_digit out ≡ true
    → starts_digit (print_onto fuel n out) ≡ true
unfolding print_onto
starts_digit-print_onto zero n out h = h
starts_digit-print_onto (suc fuel) n out h = elim (Bool-cases (ltb n 10)) [
  | inl e ↦ rw e (digit_range n)
  | inr e ↦ rw e (starts_digit-print_onto fuel (n / 10) ((b'0' + n % 10) ∷ out) (digit_range n))
]

pub IsDigits-to_string : (n : ℕ) → IsDigits (to_string n)
unfolding to_string
IsDigits-to_string n = IsDigits-print_onto (suc n) n [] tt

starts_digit-to_string : (n : ℕ) → starts_digit (to_string n) ≡ true
unfolding to_string
starts_digit-to_string n = elim (Bool-cases (ltb n 10)) [
  | inl e ↦ rw e (digit_range n)
  | inr e ↦ rw e (starts_digit-print_onto n (n / 10) ((b'0' + n % 10) ∷ []) (digit_range n))
]

pub digits_value-to_string : (n : ℕ) → digits_value 0 (to_string n) ≡ n
unfolding to_string digits_value
digits_value-to_string n = digits_value-print_onto (suc n) n [] (omega arith)

-- a text that starts with a digit has no sign and no space to skip
read_signed-digits :
    (s : Bytes) → starts_digit s ≡ true → read_signed s ≡ some (false, digits_value 0 s)
unfolding read_signed
read_signed-digits [] h = absurd (ground arith)
read_signed-digits (c ∷ s) h = ground arith

pub to_string-ne-nil : (n : ℕ) → ¬ (to_string n ≡ [])
to_string-ne-nil n e = cc (rw e at (starts_digit-to_string n))

pub stoull-to_string : (n : ℕ) → n < u64_mod → stoull (to_string n) ≡ some n
unfolding stoull
stoull-to_string n h =
    ground
      (arith, read_signed-digits (to_string n) (starts_digit-to_string n), digits_value-to_string n)

pub stoi-to_string : (n : ℕ) → n < 2 ^ 31 → stoi (to_string n) ≡ some (pos n)
unfolding stoi
stoi-to_string n h =
    ground
      (arith, read_signed-digits (to_string n) (starts_digit-to_string n), digits_value-to_string n)

-- What `std::stoull` returns fits its type, and what `std::stoi` returns fits an `int`.
pub stoull-lt : (s : Bytes) {n : ℕ} → stoull s ≡ some n → n < u64_mod
unfolding stoull
stoull-lt s h = ground arith

-- A text with no digit at its front.
abbrev pub NoDigit : Bytes → Type 0
NoDigit [] = Unit
NoDigit (c ∷ s) = is_digit c ≡ false

print_onto-append :
    (fuel n : ℕ) (out r : Bytes) → print_onto fuel n out ++ r ≡ print_onto fuel n (out ++ r)
unfolding print_onto
print_onto-append zero n out r = refl
print_onto-append (suc fuel) n out r =
    ground (arith, print_onto-append fuel (n / 10) ((b'0' + n % 10) ∷ out) r)

digits_value-append : (n : ℕ) (r : Bytes) → NoDigit r → digits_value 0 (to_string n ++ r) ≡ n
unfolding to_string
digits_value-append n r h =
    rw (print_onto-append (suc n) n [] r)
      (digits_value-print_onto (suc n) n r (omega arith) ∙ stops n r h)
  where
    stops : (n : ℕ) (r : Bytes) → NoDigit r → digits_value n r ≡ n
    stops n [] h = unfold digits_value in refl
    stops n (c ∷ s) h = unfold digits_value in rw h

starts_digit-append : (s r : Bytes) → starts_digit s ≡ true → starts_digit (s ++ r) ≡ true
starts_digit-append [] r h = absurd (ground arith)
starts_digit-append (c ∷ s) r h = h

-- `std::stoi` stops at the first byte that is no digit, and does not look at what follows.
pub stoi-append :
    (n : ℕ) (r : Bytes) → n < 2 ^ 31 → NoDigit r → stoi (to_string n ++ r) ≡ some (pos n)
unfolding stoi
stoi-append n r h e = ground (
  arith,
  read_signed-digits (to_string n ++ r)
      (starts_digit-append (to_string n) r (starts_digit-to_string n)),
  digits_value-append n r e,
)

-- A byte that is no digit stands nowhere in a printed number.
pub Lacks-IsDigits : (c : ℕ) (s : Bytes) → is_digit c ≡ false → IsDigits s → Lacks c s
Lacks-IsDigits c [] e h = tt
Lacks-IsDigits c (x ∷ s) e h = (ground (arith, h.0), Lacks-IsDigits c s e h.1)

length-print_onto :
    (fuel n k : ℕ) (out : Bytes)
    → n < 10 ^ suc k
    → length (print_onto fuel n out) ≤ suc k + length out
unfolding print_onto
length-print_onto zero n k out h = omega arith
length-print_onto (suc fuel) n zero out h = ground (arith, pow-succ' 10 0)
length-print_onto (suc fuel) n (suc k) out h =
    ground (arith, length-print_onto fuel (n / 10) k ((b'0' + n % 10) ∷ out), pow-succ' 10 (suc k))

-- A number below 10^(k+1) has at most k + 1 digits.
pub length-to_string : (n k : ℕ) → n < 10 ^ suc k → length (to_string n) ≤ suc k
unfolding to_string
length-to_string n k h = omega (arith, length-print_onto (suc n) n k [] h)

-- k digits are a number below 10^k.
pub digits_value-lt : (v : Bytes) (n k : ℕ) → n < 10 ^ k → digits_value n v < 10 ^ (k + length v)
unfolding digits_value
digits_value-lt [] n k h = rw add-zero h
digits_value-lt (c ∷ v) n k h = elim (Bool-cases (is_digit c)) [
  | inl e ↦
      let digit : c - b'0' < 10 = ground arith in
      let next : n * 10 + (c - b'0') < 10 ^ suc k = omega (arith, pow-succ' 10 k) in
      let shift : k + suc (length v) ≡ suc k + length v = omega arith in
      rw (e, shift) (digits_value-lt v (n * 10 + (c - b'0')) (suc k) next)
  | inr e ↦ rw e (
      le_trans h
        (pow-le-pow_right {n = 10} (omega arith) {i = k} {j = k + suc (length v)} (omega arith)))
]

pub digits_value-lt-pow : (v : Bytes) → digits_value 0 v < 10 ^ length v
digits_value-lt-pow v = rw (zero-add (length v)) at (digits_value-lt v 0 0 (omega arith))
