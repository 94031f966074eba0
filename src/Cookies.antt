-- ===== src/Cookies.antt =====
-- src/browser/cookies.cpp: the cookies that the browser keeps for each origin. Each operation runs under one
-- mutex, as one step. The clock is a parameter, in seconds.
pub mod Script
pub mod Good
pub mod Kept
pub mod Each
pub mod Disk
pub mod Hidden
mod Tests
use starweb.Base.{
  ℕ, zero, suc, ◌+◌, ◌%◌, Bool, true, false, not, ◌&&◌, ◌||◌, Option, none, some, List, [], ◌∷◌,
  ◌++◌, ◌==◌, if◌then◌else◌, leb, ltb, length, take, drop, keep,
}
use starweb.Base.Bytes.{Bytes, codes, equal, is_empty, find, lower}
use starweb.Base.Bytes.Split.{split_on}
use starweb.Base.Bytes.Trim.{strip}
use starweb.Base.Decimal.{stoll, u64_mod}
use starweb.Base.Dict.{Dict, lookup, insert}
use starweb.Base.Int.{ℤ, pos, negsuc, ◌+ℤ◌, leb_ℤ}

pub record Cookie : Type 0 where
  pub name : Bytes
  pub value : Bytes
  pub expires_at : ℤ
  pub stwp_only : Bool

abbrev pub Jar : Type 0
Jar = List Cookie

-- `g_jars`, `g_dirty` and `g_revision`.
pub record Store : Type 0 where
  pub jars : Dict Jar
  pub dirty : Bool
  pub revision : ℕ

abbrev pub max_name_bytes : ℕ
max_name_bytes = 256

abbrev pub max_value_bytes : ℕ
max_value_bytes = 4096

abbrev pub max_cookies_per_origin : ℕ
max_cookies_per_origin = 64

abbrev pub separator : ℕ
separator = b'|'

-- A `std::uint64_t`, which wraps.
abbrev pub touched : Store → Store
touched st = record st { dirty = true; revision = suc st.revision % u64_mod }

abbrev pub with_jar : Bytes → Jar → Store → Store
with_jar origin jar st = record st { jars = insert origin jar st.jars }

abbrev pub jar_or_new : Option Jar → Jar
jar_or_new none = []
jar_or_new (some jar) = jar

-- The jar of an origin.
abbrev pub jar_of : Bytes → Store → Jar
jar_of origin st = jar_or_new (lookup origin st.jars)

abbrev pub is_zero : ℤ → Bool
is_zero (pos n) = n == 0
is_zero (negsuc n) = false

abbrev pub expired : ℤ → Cookie → Bool
expired now c = not (is_zero c.expires_at) && leb_ℤ c.expires_at now

abbrev pub trim : Bytes → Bytes
trim s = strip (λ c. leb c 32) s

abbrev pub name_byte : ℕ → Bool
name_byte c =
    not (leb c 32 || c == 127) && not (c == b';' || c == b'=' || c == b',' || c == separator)

unfoldable pub name_bytes : Bytes → Bool
name_bytes [] = true
name_bytes (c ∷ s) = name_byte c && name_bytes s

unfoldable pub valid_name : Bytes → Bool
valid_name n = not (is_empty n) && leb (length n) max_name_bytes && name_bytes n

abbrev pub value_byte : ℕ → Bool
value_byte c = not (ltb c 32 || c == 127) && not (c == b';' || c == separator)

unfoldable pub value_bytes : Bytes → Bool
value_bytes [] = true
value_bytes (c ∷ s) = value_byte c && value_bytes s

unfoldable pub valid_value : Bytes → Bool
valid_value v = leb (length v) max_value_bytes && value_bytes v

-- The first cookie of a name.
unfoldable pub find_in : Bytes → Jar → Option Cookie
find_in name [] = none
find_in name (c ∷ jar) = if equal c.name name then some c else find_in name jar

-- `*it = c`, for the first cookie of the name of `c`.
unfoldable pub replace : Cookie → Jar → Jar
replace c [] = []
replace c (d ∷ jar) = let rest = replace c jar in if equal d.name c.name then c ∷ jar else d ∷ rest

-- `jar.erase(it)`, for the first cookie of the name.
unfoldable pub erase_in : Bytes → Jar → Jar
erase_in name [] = []
erase_in name (d ∷ jar) =
    let rest = erase_in name jar in if equal d.name name then jar else d ∷ rest

unfoldable pub drop_expired : ℤ → Jar → Jar
drop_expired now jar = keep (λ c. not (expired now c)) jar

-- The time at which a cookie of this Max-Age ends, 0 for one of the session. The source adds 64-bit numbers.
abbrev pub expiry : ℤ → Option ℤ → ℤ
expiry now none = pos 0
expiry now (some age) = now +ℤ age

abbrev pub ends_now : Option ℤ → Bool
ends_now none = false
ends_now (some age) = leb_ℤ age (pos 0)

unfoldable pub store_locked : ℤ → Bytes → Cookie → Option ℤ → Store → Store
store_locked now origin c max_age st =
    let jar = jar_of origin st in
    let new : Cookie = record c { expires_at = expiry now max_age } in
    elim (find_in c.name jar) [
      | some old ↦
          if ends_now max_age
          then touched (with_jar origin (erase_in c.name jar) st)
          else touched (with_jar origin (replace new jar) st)
      | none ↦
          if ends_now max_age || leb max_cookies_per_origin (length jar)
          then with_jar origin jar st
          else touched (with_jar origin (jar ++ new ∷ []) st)
    ]

-- What the attributes say of a cookie.
pub record Attributes : Type 0 where
  pub only_stwp : Bool
  pub max_age : Option ℤ

abbrev pub before_eq : Bytes → Bytes
before_eq s = elim (find b'=' s) [ none ↦ s | some eq ↦ take eq s ]

abbrev pub after_eq : Bytes → Bytes
after_eq s = elim (find b'=' s) [ none ↦ [] | some eq ↦ drop (eq + 1) s ]

-- One attribute; `none` where `std::stoll` throws.
unfoldable pub read_attribute : Bytes → Attributes → Option Attributes
read_attribute attr a =
    if is_empty attr
    then some a
    else if equal (lower (trim (before_eq attr))) (codes "stwponly")
    then some (record a { only_stwp = true })
    else if equal (lower (trim (before_eq attr))) (codes "max-age")
    then elim (stoll (trim (after_eq attr))) [
      | none ↦ none
      | some n ↦ some (record a { max_age = some n })
    ]
    else some a

unfoldable pub read_attributes : List Bytes → Attributes → Option Attributes
read_attributes [] a = some a
read_attributes (attr ∷ attrs) a = elim (read_attribute (trim attr) a) [
  | none ↦ none
  | some b ↦ read_attributes attrs b
]

abbrev new_cookie : Bytes → Bytes → Bool → Cookie
new_cookie name value only = record {
  name = name;
  value = value;
  expires_at = pos 0;
  stwp_only = only;
}

-- The cookie of `name=value`, when both are valid, with the attributes.
unfoldable pub parse_pair : Bytes → List Bytes → Option (Cookie × Option ℤ)
parse_pair pair attrs = elim (find b'=' pair) [
  | none ↦ none
  | some eq ↦
      if valid_name (trim (take eq pair)) && valid_value (trim (drop (eq + 1) pair))
      then elim (read_attributes attrs (record { only_stwp = false; max_age = none })) [
        | none ↦ none
        | some a ↦
            some
              (new_cookie (trim (take eq pair)) (trim (drop (eq + 1) pair)) a.only_stwp, a.max_age)
      ]
      else none
]

abbrev parse_parts : List Bytes → Option (Cookie × Option ℤ)
parse_parts [] = none
parse_parts (pair ∷ attrs) = parse_pair (trim pair) attrs

unfoldable pub parse_one : ℤ → Bytes → Bytes → Store → Store
parse_one now origin piece st = elim (parse_parts (split_on b';' (trim piece))) [
  | none ↦ st
  | some ca ↦ store_locked now origin ca.0 ca.1 st
]

-- The k-th piece reads the clock for the k-th time.
unfoldable pub parse_pieces : (ℕ → ℤ) → ℕ → Bytes → List Bytes → Store → Store
parse_pieces clock k origin [] st = st
parse_pieces clock k origin (piece ∷ pieces) st =
    parse_pieces clock (suc k) origin pieces (parse_one (clock k) origin piece st)

unfoldable pub apply_set_cookie : (ℕ → ℤ) → Bytes → Bytes → Store → Store
apply_set_cookie clock origin value st =
    if is_empty origin || is_empty value
    then st
    else parse_pieces clock 0 origin (split_on separator value) st

-- The cookies of an origin, without those that have expired, which go from the jar too.
unfoldable pub entries : ℤ → Bytes → Store → Jar × Store
entries now origin st = if is_empty origin then ([], st) else elim (lookup origin st.jars) [
  | none ↦ ([], st)
  | some jar ↦ (drop_expired now jar, with_jar origin (drop_expired now jar) st)
]

abbrev pub pair_text : Cookie → Bytes
pair_text c = c.name ++ (codes "=" ++ c.value)

unfoldable pub join_pairs : Jar → Bytes → Bytes
join_pairs [] out = out
join_pairs (c ∷ jar) out =
    join_pairs jar ((if is_empty out then [] else out ++ codes "; ") ++ pair_text c)

unfoldable pub header_for : ℤ → Bytes → Store → Bytes × Store
header_for now origin st = (join_pairs (entries now origin st).0 [], (entries now origin st).1)

unfoldable pub remove : Bytes → Bytes → Store → Store
remove origin name st = elim (lookup origin st.jars) [
  | none ↦ st
  | some jar ↦ elim (find_in name jar) [
    | none ↦ st
    | some c ↦ touched (with_jar origin (erase_in name jar) st)
  ]
]

unfoldable pub clear : Bytes → Store → Store
clear origin st = elim (lookup origin st.jars) [
  | none ↦ st
  | some jar ↦ if length jar == 0 then st else touched (with_jar origin [] st)
]
