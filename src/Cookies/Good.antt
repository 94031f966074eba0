-- ===== src/Cookies/Good.antt =====
-- src/browser/cookies.cpp: what holds of every jar.
use starweb.Base.{
  ℕ, ◌≢◌, ◌≤◌, ◌<◌, ◌≡◌, refl, sym, ap, ◌∙◌, Bool, true, false, ◌||◌, none, [], ◌∷◌, ◌++◌, length,
  length-append, length-keep-le, keep, All, All-append, arith, Bool-cases, inl, inr,
}
use starweb.Base.Bytes.{Bytes, equal}
use starweb.Base.Bytes.Laws.{equal_iff}
use starweb.Cookies.{
  Cookie, Jar, max_cookies_per_origin, valid_name, valid_value, name_bytes, value_bytes, find_in,
  replace, erase_in,
}

unfoldable pub has_name : Bytes → Jar → Bool
has_name name [] = false
has_name name (c ∷ jar) = equal c.name name || has_name name jar

abbrev pub Named : Jar → Type 0
Named [] = Unit
Named (c ∷ jar) = (has_name c.name jar ≡ false) × Named jar

-- No blank, no control byte and none of `;`, `=`, `,` and `|`.
abbrev pub NameByte : ℕ → Type 0
NameByte c = (32 < c) × (c ≢ 127) × (c ≢ b';') × (c ≢ b'=') × (c ≢ b',') × (c ≢ b'|')

-- No control byte and none of `;` and `|`; it may be a blank, `=` or `,`.
abbrev pub ValueByte : ℕ → Type 0
ValueByte c = (32 ≤ c) × (c ≢ 127) × (c ≢ b';') × (c ≢ b'|')

abbrev pub GoodName : Bytes → Type 0
GoodName n = (1 ≤ length n) × (length n ≤ 256) × All NameByte n

abbrev pub GoodValue : Bytes → Type 0
GoodValue v = (length v ≤ 4096) × All ValueByte v

abbrev pub GoodCookie : Cookie → Type 0
GoodCookie c = GoodName c.name × GoodValue c.value

name_bytes-All : (s : Bytes) → name_bytes s ≡ true → All NameByte s
unfolding name_bytes
name_bytes-All [] h = tt
name_bytes-All (c ∷ s) h = (ground arith, name_bytes-All s (ground arith))

value_bytes-All : (s : Bytes) → value_bytes s ≡ true → All ValueByte s
unfolding value_bytes
value_bytes-All [] h = tt
value_bytes-All (c ∷ s) h = (ground arith, value_bytes-All s (ground arith))

pub valid_name-GoodName : (n : Bytes) → valid_name n ≡ true → GoodName n
unfolding valid_name
valid_name-GoodName [] h = absurd (ground arith)
valid_name-GoodName (c ∷ n) h = (omega arith, ground arith, name_bytes-All (c ∷ n) (ground arith))

pub valid_value-GoodValue : (v : Bytes) → valid_value v ≡ true → GoodValue v
unfolding valid_value
valid_value-GoodValue v h = (ground arith, value_bytes-All v (ground arith))

-- At most 64 cookies of distinct names, with a good name and a good value each.
abbrev pub GoodJar : Jar → Type 0
GoodJar jar = (length jar ≤ max_cookies_per_origin) × Named jar × All GoodCookie jar

pub has_none : (name : Bytes) → has_name name [] ≡ false
unfolding has_name
has_none name = refl

has_cons :
    (name : Bytes) (c : Cookie) (jar : Jar)
    → has_name name (c ∷ jar) ≡ (equal c.name name || has_name name jar)
unfolding has_name
has_cons name c jar = refl

has_name-find_in : (name : Bytes) (jar : Jar) → find_in name jar ≡ none → has_name name jar ≡ false
unfolding has_name find_in
has_name-find_in name [] h = refl
has_name-find_in name (c ∷ jar) h = ground (arith, has_name-find_in name jar)

has_name-replace :
    (name : Bytes) (c : Cookie) (jar : Jar) → has_name name (replace c jar) ≡ has_name name jar
unfolding has_name replace
has_name-replace name c [] = refl
has_name-replace name c (d ∷ jar) = elim (Bool-cases (equal d.name c.name)) [
  | inl e ↦
      let same : d.name ≡ c.name = (equal_iff d.name c.name).0 e in
      rw (e) (ap (λ n. equal n name || has_name name jar) (sym same))
  | inr e ↦ rw e (rw (has_name-replace name c jar) refl)
]

has_name-erase_in :
    (name gone : Bytes) (jar : Jar)
    → has_name name jar ≡ false
    → has_name name (erase_in gone jar) ≡ false
unfolding has_name erase_in
has_name-erase_in name gone [] h = refl
has_name-erase_in name gone (d ∷ jar) h = ground (arith, has_name-erase_in name gone jar)

has_name-keep :
    (p : Cookie → Bool) (name : Bytes) (jar : Jar)
    → has_name name jar ≡ false
    → has_name name (keep p jar) ≡ false
unfolding has_name
has_name-keep p name [] h = refl
has_name-keep p name (d ∷ jar) h = ground (arith, has_name-keep p name jar)

has_name-append :
    (name : Bytes) (jar : Jar) (c : Cookie)
    → has_name name (jar ++ c ∷ []) ≡ (has_name name jar || equal c.name name)
unfolding has_name
has_name-append name [] c = ground arith
has_name-append name (d ∷ jar) c = ground (arith, has_name-append name jar c)

pub replace-GoodJar :
    (c : Cookie) (jar : Jar) → GoodCookie c → GoodJar jar → GoodJar (replace c jar)
unfolding replace
replace-GoodJar c jar good (few, named, all) = (rw (size jar) few, names jar named, cookies jar all)
  where
    size : (jar : Jar) → length (replace c jar) ≡ length jar
    size [] = refl
    size (d ∷ jar) = ground (arith, size jar)

    names : (jar : Jar) → Named jar → Named (replace c jar)
    names [] h = h
    names (d ∷ jar) (apart, h) = elim (Bool-cases (equal d.name c.name)) [
      | inl e ↦ rw e (rw ((equal_iff d.name c.name).0 e) at apart, h)
      | inr e ↦ rw e (has_name-replace d.name c jar ∙ apart, names jar h)
    ]

    cookies : (jar : Jar) → All GoodCookie jar → All GoodCookie (replace c jar)
    cookies [] h = h
    cookies (d ∷ jar) (here, h) = elim (Bool-cases (equal d.name c.name)) [
      | inl e ↦ rw e (good, h)
      | inr e ↦ rw e (here, cookies jar h)
    ]

pub erase_in-GoodJar : (gone : Bytes) (jar : Jar) → GoodJar jar → GoodJar (erase_in gone jar)
unfolding erase_in
erase_in-GoodJar gone jar (few, named, all) =
    (omega (arith, size jar), names jar named, cookies jar all)
  where
    size : (jar : Jar) → length (erase_in gone jar) ≤ length jar
    size [] = omega arith
    size (d ∷ jar) = ground (arith, size jar)

    names : (jar : Jar) → Named jar → Named (erase_in gone jar)
    names [] h = h
    names (d ∷ jar) (apart, h) = elim (Bool-cases (equal d.name gone)) [
      | inl e ↦ rw e h
      | inr e ↦ rw e (has_name-erase_in d.name gone jar apart, names jar h)
    ]

    cookies : (jar : Jar) → All GoodCookie jar → All GoodCookie (erase_in gone jar)
    cookies [] h = h
    cookies (d ∷ jar) (here, h) = elim (Bool-cases (equal d.name gone)) [
      | inl e ↦ rw e h
      | inr e ↦ rw e (here, cookies jar h)
    ]

pub keep-GoodJar : (p : Cookie → Bool) (jar : Jar) → GoodJar jar → GoodJar (keep p jar)
keep-GoodJar p jar (few, named, all) =
    (omega (arith, length-keep-le p jar), names jar named, cookies jar all)
  where
    names : (jar : Jar) → Named jar → Named (keep p jar)
    names [] h = h
    names (d ∷ jar) (apart, h) = elim (Bool-cases (p d)) [
      | inl e ↦ rw e (has_name-keep p d.name jar apart, names jar h)
      | inr e ↦ rw e (names jar h)
    ]

    cookies : (jar : Jar) → All GoodCookie jar → All GoodCookie (keep p jar)
    cookies [] h = h
    cookies (d ∷ jar) (here, h) = elim (Bool-cases (p d)) [
      | inl e ↦ rw e (here, cookies jar h)
      | inr e ↦ rw e (cookies jar h)
    ]

pub append-GoodJar :
    (jar : Jar) (c : Cookie)
    → GoodCookie c
    → find_in c.name jar ≡ none
    → length jar < max_cookies_per_origin
    → GoodJar jar
    → GoodJar (jar ++ c ∷ [])
append-GoodJar jar c good fresh room (few, named, all) = (
  omega (arith, length-append jar (c ∷ [])),
  names jar named (has_name-find_in c.name jar fresh),
  All-append GoodCookie jar (c ∷ []) all (good, tt),
)
  where
    names : (jar : Jar) → Named jar → has_name c.name jar ≡ false → Named (jar ++ c ∷ [])
    names [] h f = (has_none c.name, tt)
    names (d ∷ jar) (apart, h) f = (
      ground (
        arith,
        has_name-append d.name jar c,
        equal_iff c.name d.name,
        equal_iff d.name c.name,
        has_cons c.name d jar,
      ),
      names jar h (ground (arith, has_cons c.name d jar)),
    )
