-- ===== src/Msg/Length.antt =====
-- src/common/stwp_msg.hpp: `parse_content_length`.
use native.Mathlib.Nat.{pow-succ', pow-le-pow_right, le_trans, mod-eq_of_lt}
use starweb.Base.{
  ◌↔◌, ◌≢◌, sym, ℕ, suc, ◌+◌, ◌-◌, ◌*◌, ◌%◌, ◌^◌, ◌≤◌, ◌<◌, ◌≡◌, refl, ap, ◌∙◌, false, ◌||◌, Option,
  none, some, [], ◌∷◌, arith, if◌then◌else◌, length, ltb,
}
use starweb.Base.Bytes.{Bytes, is_empty, is_digit}
use starweb.Base.Decimal.{
  to_string, IsDigits, IsDigits-to_string, digits_value, u64_mod, to_string-ne-nil,
  length-to_string, digits_value-to_string, digits_value-lt-pow,
}

-- The loop over the bytes, in `uint64_t`.
unfoldable pub read_digits : ℕ → Bytes → Option ℕ
read_digits n [] = some n
read_digits n (c ∷ v) =
    let rest = read_digits ((n * 10 + (c - b'0')) % u64_mod) v in if is_digit c then rest else none

unfoldable pub parse_content_length : Bytes → Option ℕ
unfolding read_digits
parse_content_length v = if is_empty v || ltb 18 (length v) then none else read_digits 0 v

-- Below 19 digits the word never wraps.
read_digits-exact :
    (v : Bytes) (n k : ℕ)
    → n < 10 ^ k
    → k + length v ≤ 18
    → IsDigits v
    → read_digits n v ≡ some (digits_value n v)
unfolding read_digits digits_value
read_digits-exact [] n k h l d = refl
read_digits-exact (c ∷ v) n k h l d =
    let digit : c - b'0' < 10 = ground (arith, d.0) in
    let next : n * 10 + (c - b'0') < 10 ^ suc k = omega (arith, pow-succ' 10 k) in
    let small : n * 10 + (c - b'0') < 10 ^ 18 =
      le_trans next (pow-le-pow_right {n = 10} (omega arith) {i = suc k} {j = 18} (omega arith)) in
    rw (d.0, mod-eq_of_lt (word _ small))
      (read_digits-exact v (n * 10 + (c - b'0')) (suc k) next (omega arith) d.1)
  where
    word : (m : ℕ) → m < 10 ^ 18 → m < u64_mod
    word m h = omega arith

read_digits-IsDigits : (v : Bytes) (n m : ℕ) → read_digits n v ≡ some m → IsDigits v
unfolding read_digits
read_digits-IsDigits [] n m h = tt
read_digits-IsDigits (c ∷ v) n m h =
    (ground arith, read_digits-IsDigits v ((n * 10 + (c - b'0')) % u64_mod) m (ground arith))

is_empty-ne-nil : (v : Bytes) → ¬ (v ≡ []) → is_empty v ≡ false
is_empty-ne-nil [] h = absurd (h refl)
is_empty-ne-nil (c ∷ v) h = refl

accepts :
    (v : Bytes)
    → ¬ (v ≡ [])
    → length v ≤ 18
    → IsDigits v
    → parse_content_length v ≡ some (digits_value 0 v)
unfolding parse_content_length
accepts v n l d =
    ground (arith, is_empty-ne-nil v n, read_digits-exact v 0 0 (omega arith) (omega arith) d)

-- `parse_content_length` accepts exactly the texts of 1 to 18 decimal digits; the value is the number
-- that the digits stand for, with no wrap at 2^64, and is below 10^18.
pub parse_content_length_exact :
    (v : Bytes) (n : ℕ)
    → (parse_content_length v ≡ some n)
      ↔ ((v ≢ []) × (length v ≤ 18) × IsDigits v × (n ≡ digits_value 0 v) × (n < 10 ^ 18))
unfolding parse_content_length
parse_content_length_exact v n = (forth, back)
  where
    forth :
        parse_content_length v ≡ some n
        → (v ≢ []) × (length v ≤ 18) × IsDigits v × (n ≡ digits_value 0 v) × (n < 10 ^ 18)
    forth h =
        let full : is_empty v ≡ false = ground arith in
        let short : length v ≤ 18 = ground arith in
        let read : read_digits 0 v ≡ some n = ground arith in
        let digits = read_digits-IsDigits v 0 n read in
        let value = read_digits-exact v 0 0 (omega arith) (omega arith) digits in
        let same : n ≡ digits_value 0 v = cc in
        (
          λ e. cc (rw e at full),
          short,
          digits,
          same,
          rw same (
              le_trans (digits_value-lt-pow v)
                (pow-le-pow_right {n = 10} (omega arith) {i = length v} {j = 18} short)),
        )

    back :
        (v ≢ []) × (length v ≤ 18) × IsDigits v × (n ≡ digits_value 0 v) × (n < 10 ^ 18)
        → parse_content_length v ≡ some n
    back (n, l, d, e, _) = accepts v n l d ∙ ap some (sym e)

-- The decimal text of a length below 10^18 is read back as that length.
pub parse_content_length-to_string :
    (n : ℕ) → n < 10 ^ 18 → parse_content_length (to_string n) ≡ some n
parse_content_length-to_string n h =
    accepts (to_string n) (to_string-ne-nil n) (length-to_string n 17 h) (IsDigits-to_string n)
    ∙ ap some (digits_value-to_string n)
