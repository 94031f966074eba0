-- ===== src/Proxy/Conf/Value/Bounds.antt =====
-- src/proxy/config.cpp: the bounds of the values that directives take, and what printing and reading them gives.
use starweb.Base.{
  ℕ, suc, ◌*◌, ◌%◌, ◌^◌, ◌≤◌, ◌<◌, ◌≡◌, ◌↔◌, refl, ap, ◌∙◌, true, false, Option, none, some, [],
  ◌∷◌, ◌++◌, length, take-append, drop-append, arith, Option-cases, inl, inr,
}
use starweb.Base.Bytes.{Bytes, codes, equal, is_empty, lower}
use starweb.Base.Decimal.{
  to_string, u64_mod, IsDigits, NoDigit, IsDigits-to_string, digits_value-to_string,
  to_string-ne-nil, length-to_string,
}
use starweb.Base.Maybe.{>>=-eq-some, guard-eq-some}
use starweb.Proxy.Conf.Value.{
  digits_only, digits_front, time_unit, day_ms, parse_duration, size_unit, parse_size, parse_port,
  split_address, port_after, Address, parse_host_port, valid_hostname,
}

parse_duration-le : (s : Bytes) {ms : ℕ} → parse_duration s ≡ some ms → ms ≤ day_ms
unfolding parse_duration
parse_duration-le s h = ground arith

pub parse_port_range :
    (s : Bytes) {port : ℕ} → parse_port s ≡ some port → (1 ≤ port) × (port < 2 ^ 16)
unfolding parse_port
parse_port_range s h = ground arith

port_after_range :
    (s : Bytes) {p : Option ℕ} {port : ℕ}
    → port_after s ≡ some p
    → p ≡ some port
    → (1 ≤ port) × (port < 2 ^ 16)
port_after_range [] h e = absurd (cc)
port_after_range (c ∷ s) h e = elim (Option-cases (parse_port s)) [
  | inl q ↦ absurd (ground arith)
  | inr (port, q) ↦ ground (arith, parse_port_range s q)
]

-- The port of an address.
pub parse_host_port_range :
    (s : Bytes) {a : Address} {port : ℕ}
    → parse_host_port s ≡ some a
    → a.port ≡ some port
    → (1 ≤ port) × (port < 2 ^ 16)
unfolding parse_host_port
parse_host_port_range s {a = a} h e =
    let (hr, split, h) = >>=-eq-some (split_address s) _ h in
    let (p, after, h) = >>=-eq-some (port_after hr.1) _ h in
    let (lawful, h) = guard-eq-some (valid_hostname (lower hr.0)) _ h in
    port_after_range hr.1 after (ap (λ o. port_or_none o) h ∙ e)
  where
    port_or_none : Option Address → Option ℕ
    port_or_none none = none
    port_or_none (some b) = b.port

digits_only-IsDigits : (s : Bytes) → IsDigits s → digits_only s ≡ true
unfolding digits_only
digits_only-IsDigits [] h = refl
digits_only-IsDigits (c ∷ s) h = rw (h.0) (digits_only-IsDigits s h.1)

digits_front-append : (s r : Bytes) → IsDigits s → NoDigit r → digits_front (s ++ r) ≡ length s
unfolding digits_front
digits_front-append [] [] h n = refl
digits_front-append [] (c ∷ r) h n = rw n refl
digits_front-append (c ∷ s) r h n = rw (h.0) (ap suc (digits_front-append s r h.1 n))

not_empty : (n : ℕ) → is_empty (to_string n) ≡ false
not_empty n = go (to_string n) (to_string-ne-nil n)
  where
    go : (s : Bytes) → ¬ (s ≡ []) → is_empty s ≡ false
    go [] h = absurd (h refl)
    go (c ∷ s) h = refl

not_empty-length : (n : ℕ) → 0 < length (to_string n)
not_empty-length n = go (to_string n) (to_string-ne-nil n)
  where
    go : (s : Bytes) → ¬ (s ≡ []) → 0 < length s
    go [] h = absurd (h refl)
    go (c ∷ s) h = omega arith

unit_ms : time_unit (codes "ms") ≡ some 1
unfolding time_unit equal
unit_ms = refl

parse_port-to_string : (n : ℕ) → 1 ≤ n → n < 2 ^ 16 → parse_port (to_string n) ≡ some n
unfolding parse_port
parse_port-to_string n l u = ground (
  arith,
  digits_only-IsDigits (to_string n) (IsDigits-to_string n),
  digits_value-to_string n,
  not_empty n,
  length-to_string n 4 (omega arith),
)

parse_duration-to_string :
    (n : ℕ) → n ≤ day_ms → parse_duration (to_string n ++ codes "ms") ≡ some n
unfolding parse_duration
parse_duration-to_string n l =
    let ms = codes "ms" in
    let front : digits_front (to_string n ++ ms) ≡ length (to_string n) =
      digits_front-append (to_string n) ms (IsDigits-to_string n) refl in
    let size = length-to_string n 7 (omega arith) in
    let some_digit = not_empty-length n in
    rw front (
      rw (take-append (to_string n) ms, drop-append (to_string n) ms)
        (rw (digits_value-to_string n) (ground (arith, unit_ms))))

-- The decimal text of a number is read back as that port exactly when the number is from 1 to 2^16 - 1, and with
-- the unit `ms` behind it as that time exactly when the number is at most a day.
pub parse_printed_iff :
    (n : ℕ)
    → ((parse_port (to_string n) ≡ some n) ↔ ((1 ≤ n) × (n < 2 ^ 16)))
      × ((parse_duration (to_string n ++ codes "ms") ≡ some n) ↔ (n ≤ day_ms))
parse_printed_iff n = (
  (parse_port_range (to_string n), λ h. parse_port-to_string n h.0 h.1),
  (parse_duration-le (to_string n ++ codes "ms"), parse_duration-to_string n),
)

unit_g : size_unit (codes "g") ≡ some 30
unfolding size_unit equal
unit_g = refl

parse_size-g :
    (n : ℕ) → n < 10 ^ 12 → parse_size (to_string n ++ codes "g") ≡ some (n * 2 ^ 30 % u64_mod)
unfolding parse_size
parse_size-g n l =
    let g = codes "g" in
    let front : digits_front (to_string n ++ g) ≡ length (to_string n) =
      digits_front-append (to_string n) g (IsDigits-to_string n) refl in
    let size = length-to_string n 11 (omega arith) in
    let some_digit = not_empty-length n in
    rw front (
      rw (take-append (to_string n) g, drop-append (to_string n) g)
        (rw (digits_value-to_string n) (ground (arith, unit_g))))

-- A size in units of 2^30 bytes is read as that many bytes while they fit a 64-bit word; from 2^34 units on, and
-- below 10^12, where the text is still accepted, fewer bytes are read than were written.
pub parse_size_units :
    (n : ℕ)
    → n < 10 ^ 12
    → (n < 2 ^ 34 → parse_size (to_string n ++ codes "g") ≡ some (n * 2 ^ 30))
      × (2 ^ 34 ≤ n → (m : ℕ) × (parse_size (to_string n ++ codes "g") ≡ some m) × (m < n * 2 ^ 30))
parse_size_units n l = (
  λ h. parse_size-g n l ∙ ap some (omega arith),
  λ h. (n * 2 ^ 30 % u64_mod, parse_size-g n l, omega arith),
)
