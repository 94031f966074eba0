-- ===== src/Cookies/Script.antt =====
-- src/browser/cookies.cpp: what scripts do with the cookies of their document. An origin of no text is a
-- document that has no cookies; the arguments are those that the Lua library hands over.
use starweb.Base.{
  ℕ, zero, suc, Bool, true, false, not, ◌&&◌, Option, none, some, List, [], ◌∷◌, if◌then◌else◌, leb,
  length, keep, get_elem?, ◌==◌,
}
use starweb.Base.Bytes.{Bytes, equal, is_empty}
use starweb.Base.Dict.{lookup}
use starweb.Base.Int.{ℤ, pos}
use starweb.Cookies.{
  Cookie, Jar, Store, max_cookies_per_origin, touched, with_jar, jar_of, valid_name, valid_value,
  find_in, erase_in, drop_expired, store_locked,
}

-- How a call ends; all but the first are errors that are raised in the script.
pub data Answer : Type 0 where
  done no_cookies invalid_name invalid_value is_stwp_only full : Answer

unfoldable pub pairs : Jar → List (Bytes × Bytes)
pairs [] = []
pairs (c ∷ jar) = let rest = pairs jar in if c.stwp_only then rest else (c.name, c.value) ∷ rest

-- The cookies that scripts see; `none` is an error.
unfoldable pub visible : ℤ → Bytes → Store → Option (List (Bytes × Bytes)) × Store
visible now origin st = if is_empty origin then (none, st) else elim (lookup origin st.jars) [
  | none ↦ (some [], st)
  | some jar ↦ (some (pairs (drop_expired now jar)), with_jar origin (drop_expired now jar) st)
]

unfoldable pub value_at : Bytes → List (Bytes × Bytes) → Option Bytes
value_at key [] = none
value_at key ((n, v) ∷ items) = if equal n key then some v else value_at key items

-- The value, or nil.
abbrev pub get_item : Bytes → List (Bytes × Bytes) → Option Bytes
get_item key items = value_at key items

-- The i-th name, counted from one, or nil.
unfoldable pub key : ℕ → List (Bytes × Bytes) → Option Bytes
key zero items = none
key (suc i) items = elim (get_elem? items i) [ none ↦ none | some item ↦ some item.0 ]

abbrev plain : Bytes → Bytes → Cookie
plain name value = record { name = name; value = value; expires_at = pos 0; stwp_only = false }

-- A cookie of this name is kept from scripts.
abbrev pub is_hidden : Option Cookie → Bool
is_hidden none = false
is_hidden (some c) = c.stwp_only

abbrev pub is_new : Option Cookie → Bool
is_new none = true
is_new (some c) = false

unfoldable pub set_item : ℤ → Bytes → Bytes → Bytes → Option ℤ → Store → Answer × Store
set_item now origin name value max_age st =
    let jar = jar_of origin st in
    if is_empty origin
    then (no_cookies, st)
    else if not (valid_name name)
    then (invalid_name, st)
    else if not (valid_value value)
    then (invalid_value, st)
    else if is_hidden (find_in name jar)
    then (is_stwp_only, with_jar origin jar st)
    else if is_new (find_in name jar) && leb max_cookies_per_origin (length jar)
    then (full, with_jar origin jar st)
    else (done, store_locked now origin (plain name value) max_age st)

unfoldable pub remove_item : Bytes → Bytes → Store → Answer × Store
remove_item origin name st =
    if is_empty origin then (no_cookies, st) else elim (lookup origin st.jars) [
      | none ↦ (done, st)
      | some jar ↦ elim (find_in name jar) [
        | none ↦ (done, st)
        | some c ↦
            if c.stwp_only
            then (is_stwp_only, st)
            else (done, touched (with_jar origin (erase_in name jar) st))
      ]
    ]

unfoldable pub clear_items : Bytes → Store → Answer × Store
clear_items origin st = if is_empty origin then (no_cookies, st) else elim (lookup origin st.jars) [
  | none ↦ (done, st)
  | some jar ↦
      let left = keep (λ c. c.stwp_only) jar in
      if length left == length jar
      then (done, with_jar origin left st)
      else (done, touched (with_jar origin left st))
]
