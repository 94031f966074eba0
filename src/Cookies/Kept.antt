-- ===== src/Cookies/Kept.antt =====
-- src/browser/cookies.cpp: every operation keeps the jars in order.
use starweb.Base.{
  ℕ, suc, ◌<◌, ◌≡◌, Bool, true, false, not, ◌&&◌, ◌||◌, Option, none, some, List, [], ◌∷◌, ◌++◌,
  leb, length, take, drop, ◌+◌, arith, Bool-cases, Option-cases, inl, inr,
}
use starweb.Base.Bytes.{Bytes, equal, is_empty, find}
use starweb.Base.Bytes.Split.{split_on}
use starweb.Base.Dict.{lookup}
use starweb.Base.Int.{ℤ}
use starweb.Cookies.{
  Cookie, Jar, Store, max_cookies_per_origin, separator, with_jar, jar_of, expired, expiry,
  ends_now, valid_name, valid_value, find_in, replace, erase_in, drop_expired, store_locked, trim,
  parse_pair, parse_parts, parse_one, parse_pieces, apply_set_cookie, read_attributes,
}
use starweb.Cookies.Good.{
  GoodCookie, GoodJar, valid_name-GoodName, valid_value-GoodValue, replace-GoodJar,
  erase_in-GoodJar, keep-GoodJar, append-GoodJar,
}
use starweb.Cookies.Hidden.{jar_of-with_jar}

pub no_cookies : GoodJar []
no_cookies = (omega arith, tt, tt)

pub with_jar-GoodJar :
    (origin other : Bytes) (jar : Jar) (st : Store)
    → GoodJar jar
    → GoodJar (jar_of other st)
    → GoodJar (jar_of other (with_jar origin jar st))
with_jar-GoodJar origin other jar st good known = elim (Bool-cases (equal origin other)) [
  | inl e ↦ rw (jar_of-with_jar origin other jar st) (rw e good)
  | inr e ↦ rw (jar_of-with_jar origin other jar st) (rw e known)
]

-- The jar that is there is that of the origin.
pub found-GoodJar :
    (origin : Bytes) (st : Store) (jar : Jar)
    → lookup origin st.jars ≡ some jar
    → GoodJar (jar_of origin st)
    → GoodJar jar
found-GoodJar origin st jar e good = rw e at good

pub store_locked-GoodJar :
    (now : ℤ) (origin other : Bytes) (c : Cookie) (max_age : Option ℤ) (st : Store)
    → GoodCookie c
    → GoodJar (jar_of origin st)
    → GoodJar (jar_of other st)
    → GoodJar (jar_of other (store_locked now origin c max_age st))
unfolding store_locked
store_locked-GoodJar now origin other c max_age st good here there =
    let jar = jar_of origin st in
    let new : Cookie = record c { expires_at = expiry now max_age } in
    elim (Option-cases (find_in c.name jar)) [
      | inl e ↦ elim (Bool-cases (ends_now max_age || leb max_cookies_per_origin (length jar))) [
        | inl q ↦ rw (e, store_locked, q) (with_jar-GoodJar origin other jar st here there)
        | inr q ↦
            let room : length jar < max_cookies_per_origin = ground arith in
            rw (e, store_locked, q)
              (with_jar-GoodJar origin other (jar ++ new ∷ []) st
                (append-GoodJar jar new good e room here) there)
      ]
      | inr (old, e) ↦ elim (Bool-cases (ends_now max_age)) [
        | inl q ↦
            rw (e, store_locked, q)
              (with_jar-GoodJar origin other (erase_in c.name jar) st
                (erase_in-GoodJar c.name jar here) there)
        | inr q ↦
            rw (e, store_locked, q)
              (with_jar-GoodJar origin other (replace new jar) st
                (replace-GoodJar new jar good here) there)
      ]
    ]

-- What a text of a cookie gives, if anything.
abbrev Read : Option (Cookie × Option ℤ) → Type 0
Read none = Unit
Read (some ca) = GoodCookie ca.0

both : {a b : Bool} → (a && b) ≡ true → (a ≡ true) × (b ≡ true)
both h = ground arith

parse_pair-Read : (pair : Bytes) (attrs : List Bytes) → Read (parse_pair pair attrs)
unfolding parse_pair
parse_pair-Read pair attrs = elim (Option-cases (find b'=' pair)) [
  | inl e ↦ rw (e, parse_pair) tt
  | inr (eq, e) ↦
      let name = trim (take eq pair) in
      let value = trim (drop (eq + 1) pair) in
      elim (Bool-cases (valid_name name && valid_value value)) [
        | inr q ↦ rw (e, parse_pair, q) tt
        | inl q ↦
            elim (Option-cases
              (read_attributes attrs (record { only_stwp = false; max_age = none }))) [
                | inl r ↦ rw (e, parse_pair, q, r) tt
                | inr (a, r) ↦
                    rw (e, parse_pair, q, r)
                      (valid_name-GoodName name (both q).0, valid_value-GoodValue value (both q).1)
              ]
      ]
]

parse_parts-Read : (parts : List Bytes) → Read (parse_parts parts)
parse_parts-Read [] = tt
parse_parts-Read (pair ∷ attrs) = parse_pair-Read (trim pair) attrs

parse_one-GoodJar :
    (now : ℤ) (origin other piece : Bytes) (st : Store)
    → GoodJar (jar_of origin st)
    → GoodJar (jar_of other st)
    → GoodJar (jar_of other (parse_one now origin piece st))
unfolding parse_one
parse_one-GoodJar now origin other piece st here there =
    elim (Option-cases (parse_parts (split_on b';' (trim piece)))) [
      | inl e ↦ rw (e, parse_one) there
      | inr (ca, e) ↦
          rw (e, parse_one)
            (store_locked-GoodJar now origin other ca.0 ca.1 st
              (rw e at (parse_parts-Read (split_on b';' (trim piece)))) here there)
    ]

parse_pieces-GoodJar :
    (clock : ℕ → ℤ) (k : ℕ) (origin other : Bytes) (pieces : List Bytes) (st : Store)
    → GoodJar (jar_of origin st)
    → GoodJar (jar_of other st)
    → GoodJar (jar_of other (parse_pieces clock k origin pieces st))
unfolding parse_pieces
parse_pieces-GoodJar clock k origin other [] st here there = there
parse_pieces-GoodJar clock k origin other (piece ∷ pieces) st here there =
    parse_pieces-GoodJar clock (suc k) origin other pieces (parse_one (clock k) origin piece st)
      (parse_one-GoodJar (clock k) origin origin piece st here here)
      (parse_one-GoodJar (clock k) origin other piece st here there)

pub apply_set_cookie-GoodJar :
    (clock : ℕ → ℤ) (origin other value : Bytes) (st : Store)
    → GoodJar (jar_of origin st)
    → GoodJar (jar_of other st)
    → GoodJar (jar_of other (apply_set_cookie clock origin value st))
unfolding apply_set_cookie
apply_set_cookie-GoodJar clock origin other value st here there =
    elim (Bool-cases (is_empty origin || is_empty value)) [
      | inl q ↦ rw (q, apply_set_cookie) there
      | inr q ↦
          rw (q, apply_set_cookie)
            (parse_pieces-GoodJar clock 0 origin other (split_on separator value) st here there)
    ]

pub drop_expired-GoodJar : (now : ℤ) (jar : Jar) → GoodJar jar → GoodJar (drop_expired now jar)
unfolding drop_expired
drop_expired-GoodJar now jar good = keep-GoodJar (λ c. not (expired now c)) jar good
