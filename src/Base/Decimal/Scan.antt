-- ===== src/Base/Decimal/Scan.antt =====
-- The conversions `%llu`, `%lld` and `%d` of `std::sscanf`. Each skips space and takes an optional sign and digits; a
-- space in the format skips space as well, which the next conversion does anyway. `none` is a conversion that fails.
-- The C standard leaves open what a number that does not fit becomes, so this is a parameter.
use mathlib.Core.Option
use starweb.Base.{
  ℕ, suc, ◌-◌, ◌%◌, ◌^◌, ◌<◌, ◌≡◌, refl, Bool, true, false, Option, none, some, [], ◌∷◌, ◌++◌,
  arith, ltb, leb, if◌then◌else◌,
}
use starweb.Base.Bytes.{Bytes, is_digit, is_space}
use starweb.Base.Bytes.Trim.{lstrip}
use starweb.Base.Decimal.{
  u64_mod, to_string, digits_value, digits_value-append, starts_digit, starts_digit-to_string,
  starts_digit-append, sign, NoDigit, IsDigits, IsDigits-to_string,
}
use starweb.Base.Int.{ℤ, pos, negsuc, sub_ℕ}

-- The numbers that do not fit: a minus, and the digits' value.
pub record Beyond : Type 0 where
  pub llu : Bool × ℕ → ℕ
  pub lld : Bool × ℕ → ℤ
  pub d : Bool × ℕ → ℤ

-- Space, a sign and digits, and what follows them.
unfoldable pub scan_signed : Bytes → Option ((Bool × ℕ) × Bytes)
unfolding sign digits_value lstrip
scan_signed s =
    let (minus, body) = sign (lstrip is_space s) in
    if starts_digit body then some ((minus, digits_value 0 body), lstrip is_digit body) else none

abbrev pub as_unsigned : (Bool × ℕ → ℕ) → Bool × ℕ → ℕ
as_unsigned beyond (minus, n) =
    if ltb n u64_mod then (if minus then (u64_mod - n) % u64_mod else n) else beyond (minus, n)

abbrev pub as_signed : ℕ → (Bool × ℕ → ℤ) → Bool × ℕ → ℤ
as_signed limit beyond (true, n) = if leb n limit then sub_ℕ 0 n else beyond (true, n)
as_signed limit beyond (false, n) = if ltb n limit then pos n else beyond (false, n)

unfoldable pub scan_llu : Beyond → Bytes → Option (ℕ × Bytes)
scan_llu beyond s = Option.map (λ nr. (as_unsigned (beyond.llu) nr.0, nr.1)) (scan_signed s)

unfoldable pub scan_lld : Beyond → Bytes → Option (ℤ × Bytes)
scan_lld beyond s = Option.map (λ nr. (as_signed (2 ^ 63) (beyond.lld) nr.0, nr.1)) (scan_signed s)

unfoldable pub scan_d : Beyond → Bytes → Option (ℤ × Bytes)
scan_d beyond s = Option.map (λ nr. (as_signed (2 ^ 31) (beyond.d) nr.0, nr.1)) (scan_signed s)

-- A space in front makes no difference.
scan_signed-space : (s : Bytes) → scan_signed (32 ∷ s) ≡ scan_signed s
unfolding scan_signed
scan_signed-space s = refl

lstrip_digits : (s r : Bytes) → IsDigits s → NoDigit r → lstrip is_digit (s ++ r) ≡ r
unfolding lstrip
lstrip_digits [] [] h n = refl
lstrip_digits [] (c ∷ r) h n = rw n refl
lstrip_digits (c ∷ s) r h n = rw (h.0) (lstrip_digits s r h.1 n)

-- What starts with a digit is taken as it stands.
scan_signed-digits :
    (s : Bytes)
    → starts_digit s ≡ true
    → scan_signed s ≡ some ((false, digits_value 0 s), lstrip is_digit s)
unfolding scan_signed
scan_signed-digits [] h = absurd (ground arith)
scan_signed-digits (c ∷ s) h = ground arith

scan_signed-minus :
    (s : Bytes)
    → starts_digit s ≡ true
    → scan_signed (b'-' ∷ s) ≡ some ((true, digits_value 0 s), lstrip is_digit s)
unfolding scan_signed
scan_signed-minus s h = ground arith

module _ (n : ℕ) (r : Bytes) (h : NoDigit r) where
  digits_first : starts_digit (to_string n ++ r) ≡ true
  digits_first = starts_digit-append (to_string n) r (starts_digit-to_string n)

  pub scan_signed-to_string : scan_signed (to_string n ++ r) ≡ some ((false, n), r)
  scan_signed-to_string =
      rw
        (
          scan_signed-digits (to_string n ++ r) digits_first,
          digits_value-append n r h,
          lstrip_digits (to_string n) r (IsDigits-to_string n) h,
        )
        refl

  pub scan_signed-negative : scan_signed (b'-' ∷ (to_string n ++ r)) ≡ some ((true, n), r)
  scan_signed-negative =
      rw
        (
          scan_signed-minus (to_string n ++ r) digits_first,
          digits_value-append n r h,
          lstrip_digits (to_string n) r (IsDigits-to_string n) h,
        )
        refl

module _ (beyond : Beyond) where
  pub scan_llu-space : (s : Bytes) → scan_llu beyond (32 ∷ s) ≡ scan_llu beyond s
  unfolding scan_llu
  scan_llu-space s = rw (scan_signed-space s) refl

  pub scan_lld-space : (s : Bytes) → scan_lld beyond (32 ∷ s) ≡ scan_lld beyond s
  unfolding scan_lld
  scan_lld-space s = rw (scan_signed-space s) refl

  pub scan_d-space : (s : Bytes) → scan_d beyond (32 ∷ s) ≡ scan_d beyond s
  unfolding scan_d
  scan_d-space s = rw (scan_signed-space s) refl

  pub scan_llu-to_string :
      (n : ℕ) (r : Bytes)
      → NoDigit r
      → n < u64_mod
      → scan_llu beyond (to_string n ++ r) ≡ some (n, r)
  unfolding scan_llu
  scan_llu-to_string n r h l = rw (scan_signed-to_string n r h) (ground arith)

  pub scan_lld-to_string :
      (n : ℕ) (r : Bytes)
      → NoDigit r
      → n < 2 ^ 63
      → scan_lld beyond (to_string n ++ r) ≡ some (pos n, r)
  unfolding scan_lld
  scan_lld-to_string n r h l = rw (scan_signed-to_string n r h) (ground arith)

  pub scan_lld-negative :
      (n : ℕ) (r : Bytes)
      → NoDigit r
      → n < 2 ^ 63
      → scan_lld beyond (b'-' ∷ (to_string (suc n) ++ r)) ≡ some (negsuc n, r)
  unfolding scan_lld
  scan_lld-negative n r h l = rw (scan_signed-negative (suc n) r h) (ground arith)

  pub scan_d-to_string :
      (n : ℕ) (r : Bytes)
      → NoDigit r
      → n < 2 ^ 31
      → scan_d beyond (to_string n ++ r) ≡ some (pos n, r)
  unfolding scan_d
  scan_d-to_string n r h l = rw (scan_signed-to_string n r h) (ground arith)
