-- ===== src/StaticFiles/Range.antt =====
-- The bounds of `parse_byte_range`, and the three forms that it reads.
use starweb.Base.{
  ℕ, ◌+◌, ◌-◌, ◌≤◌, ◌<◌, ◌≡◌, refl, ◌∙◌, false, ◌&&◌, none, some, [], ◌∷◌, ◌++◌, arith,
  if◌then◌else◌, ◌==◌, leb, ltb, take, drop, Option-cases, Bool-cases, inl, inr, min, take-append,
  drop-append_suc,
}
use starweb.Base.Bytes.{Bytes, is_empty, find, starts_with}
use starweb.Base.Bytes.Laws.{Avoids, Avoids-append, find-append, find_if-Avoids}
use starweb.Base.Bytes.Trim.{strip_none}
use starweb.Base.Decimal.{
  to_string, IsDigits, stoull-to_string, IsDigits-to_string, Lacks-IsDigits, to_string-ne-nil,
  u64_mod,
}
use starweb.Base.Maybe.{>>=-eq-some}
use starweb.Msg.{trim, is_blank}
use starweb.StaticFiles.{
  bytes_prefix, range_of, read_range, clamp_range, parse_spec, parse_byte_range,
}

-- A range inside a file.
abbrev pub InFile : ℕ → ℕ × ℕ → Type 0
InFile size (start, end) = (start ≤ end) × (end < size)

clamp_range-InFile : (size : ℕ) (r p : ℕ × ℕ) → clamp_range size r ≡ some p → InFile size p
unfolding clamp_range
clamp_range-InFile size (a, b) (start, end) h = ground arith

range_of-InFile :
    (first last : Bytes) (size : ℕ) (p : ℕ × ℕ) → range_of first last size ≡ some p → InFile size p
unfolding range_of
range_of-InFile first last size p h = elim (Bool-cases (is_empty first && is_empty last)) [
  | inl e ↦ absurd (cc (rw e at h))
  | inr e ↦
      let (r, _, c) = >>=-eq-some (read_range first last size) (clamp_range size) (rw e at h) in
      clamp_range-InFile size r p c
]

parse_spec-InFile :
    (spec : Bytes) (size : ℕ) (p : ℕ × ℕ) → parse_spec spec size ≡ some p → InFile size p
unfolding parse_spec
parse_spec-InFile spec size p h = elim (Option-cases (find b',' spec)) [
  | inr (i, e) ↦ absurd (ground arith)
  | inl e ↦ elim (Option-cases (find b'-' spec)) [
    | inl d ↦ absurd (ground arith)
    | inr (i, d) ↦
        range_of-InFile (trim (take i spec)) (trim (drop (i + 1) spec)) size p (ground arith)
  ]
]

-- Whatever the header says, a range that `parse_byte_range` accepts lies in the file: its first place
-- is not behind its last, and its last is inside.
pub parse_byte_range-InFile :
    (header : Bytes) (size : ℕ) (p : ℕ × ℕ) → parse_byte_range header size ≡ some p → InFile size p
unfolding parse_byte_range
parse_byte_range-InFile header size p h =
    parse_spec-InFile (trim (drop 6 header)) size p (ground arith)

abbrev pub range_text : Bytes → Bytes → Bytes
range_text first last = bytes_prefix ++ (first ++ (b'-' ∷ last))

Avoids-digits : (s : Bytes) → IsDigits s → Avoids is_blank s
Avoids-digits [] h = tt
Avoids-digits (c ∷ s) h = (ground (arith, h.0), Avoids-digits s h.1)

parse_spec-dash :
    (first last : Bytes) (size : ℕ)
    → IsDigits first
    → IsDigits last
    → parse_spec (first ++ (b'-' ∷ last)) size ≡ range_of first last size
unfolding parse_spec
parse_spec-dash first last size f l =
    let no_comma =
      Avoids-append (λ x. x == b',') first (b'-' ∷ last) (Lacks-IsDigits b',' first refl f)
        (refl, Lacks-IsDigits b',' last refl l) in
    rw (find_if-Avoids _ (first ++ (b'-' ∷ last)) no_comma, parse_spec)
      (rw (find-append first b'-' last (Lacks-IsDigits b'-' first refl f)) (
        rw (take-append first (b'-' ∷ last), drop-append_suc first b'-' last)
          (rw (
            strip_none is_blank first (Avoids-digits first f),
            strip_none is_blank last (Avoids-digits last l),
          ))))

not_zero : (n : ℕ) → 0 < n → (n == 0) ≡ false
not_zero n h = ground arith

parse_byte_range-range_text :
    (first last : Bytes) (size : ℕ)
    → 0 < size
    → IsDigits first
    → IsDigits last
    → parse_byte_range (range_text first last) size ≡ range_of first last size
unfolding parse_byte_range starts_with
parse_byte_range-range_text first last size pos f l =
    let spec =
      Avoids-append is_blank first (b'-' ∷ last) (Avoids-digits first f)
        (refl, Avoids-digits last l) in
    rw (not_zero size pos)
      (rw (strip_none is_blank (first ++ (b'-' ∷ last)) spec) (parse_spec-dash first last size f l))

-- `bytes=a-b`, `bytes=a-` and `bytes=-n` with decimal numbers below 2^64, for a file that is not empty:
-- the last place is cut to the file, the first must lie in it and not behind the last; a suffix
-- longer than the file is the whole file, and an empty one is refused.
pub parse_byte_range_forms :
    (a b n size : ℕ)
    → a < u64_mod
    → b < u64_mod
    → n < u64_mod
    → 0 < size
    → (parse_byte_range (range_text (to_string a) (to_string b)) size
        ≡ (if leb a (min b (size - 1)) then some (a, min b (size - 1)) else none))
      × (parse_byte_range (range_text (to_string a) []) size
          ≡ (if ltb a size then some (a, size - 1) else none))
      × (parse_byte_range (range_text [] (to_string n)) size
          ≡ (if n == 0 then none else some (size - n, size - 1)))
unfolding range_of read_range clamp_range
parse_byte_range_forms a b n size ha hb hn pos = (
  parse_byte_range-range_text _ _ size pos (IsDigits-to_string a) (IsDigits-to_string b)
      ∙ rw (no_digits a, no_digits b)
          (rw (stoull-to_string a ha) (rw (stoull-to_string b hb) (ground arith))),
  parse_byte_range-range_text _ [] size pos (IsDigits-to_string a) tt
      ∙ rw (no_digits a) (rw (stoull-to_string a ha) (ground arith)),
  parse_byte_range-range_text [] _ size pos tt (IsDigits-to_string n)
      ∙ rw (no_digits n) (rw (stoull-to_string n hn) (ground arith)),
)
  where
    not_empty : (s : Bytes) → ¬ (s ≡ []) → is_empty s ≡ false
    not_empty [] h = absurd (h refl)
    not_empty (c ∷ s) h = refl

    no_digits : (k : ℕ) → is_empty (to_string k) ≡ false
    no_digits k = not_empty (to_string k) (to_string-ne-nil k)
