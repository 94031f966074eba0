-- ===== src/Cookies/Hidden.antt =====
-- src/browser/cookies.cpp: the cookies that are marked StwpOnly are out of the reach of scripts.
use starweb.Base.{
  ◌≡◌, refl, sym, ap, ◌∙◌, false, not, ◌&&◌, ◌||◌, Option, [], ◌∷◌, ◌++◌, if◌then◌else◌, leb,
  length, keep, Bool-cases, Option-cases, inl, inr, ◌==◌,
}
use starweb.Base.Bytes.{Bytes, equal, is_empty}
use starweb.Base.Bytes.Laws.{equal_iff}
use starweb.Base.Dict.{lookup, lookup-insert}
use starweb.Base.Int.{ℤ}
use starweb.Cookies.{
  Cookie, Jar, Store, max_cookies_per_origin, with_jar, jar_or_new, jar_of, expiry, ends_now,
  valid_name, valid_value, find_in, replace, erase_in, store_locked,
}
use starweb.Cookies.Script.{is_hidden, is_new, set_item, remove_item, clear_items}

-- The cookies of a jar that are kept from scripts, in order.
unfoldable pub hidden : Jar → Jar
hidden [] = []
hidden (c ∷ jar) = let rest = hidden jar in if c.stwp_only then c ∷ rest else rest

hidden-replace :
    (c : Cookie) (jar : Jar)
    → c.stwp_only ≡ false
    → is_hidden (find_in c.name jar) ≡ false
    → hidden (replace c jar) ≡ hidden jar
unfolding hidden find_in replace
hidden-replace c [] shown h = refl
hidden-replace c (d ∷ jar) shown h = elim (Bool-cases (equal d.name c.name)) [
  | inl e ↦ rw (e, shown, rw e at h) refl
  | inr e ↦ rw e (rw (hidden-replace c jar shown (rw e at h)) refl)
]

hidden-erase_in :
    (name : Bytes) (jar : Jar)
    → is_hidden (find_in name jar) ≡ false
    → hidden (erase_in name jar) ≡ hidden jar
unfolding hidden find_in erase_in
hidden-erase_in name [] h = refl
hidden-erase_in name (d ∷ jar) h = elim (Bool-cases (equal d.name name)) [
  | inl e ↦ rw (e, rw e at h) refl
  | inr e ↦ rw e (rw (hidden-erase_in name jar (rw e at h)) refl)
]

hidden-append : (jar : Jar) (c : Cookie) → c.stwp_only ≡ false → hidden (jar ++ c ∷ []) ≡ hidden jar
unfolding hidden
hidden-append [] c shown = rw shown refl
hidden-append (d ∷ jar) c shown = rw (hidden-append jar c shown) refl

hidden-keep : (jar : Jar) → hidden (keep (λ c. c.stwp_only) jar) ≡ hidden jar
unfolding hidden
hidden-keep [] = refl
hidden-keep (c ∷ jar) = elim (Bool-cases c.stwp_only) [
  | inl e ↦ rw e (rw (hidden-keep jar) refl)
  | inr e ↦ rw e (hidden-keep jar)
]

-- The jar of an origin after it was put there.
pub jar_of-with_jar :
    (origin other : Bytes) (jar : Jar) (st : Store)
    → jar_of other (with_jar origin jar st) ≡ (if equal origin other then jar else jar_of other st)
jar_of-with_jar origin other jar st = elim (Bool-cases (equal origin other)) [
  | inl e ↦ rw (lookup-insert origin other jar st.jars) (rw e refl)
  | inr e ↦ rw (lookup-insert origin other jar st.jars) (rw e refl)
]

-- Putting a jar whose hidden cookies are those that were there.
with_jar-hidden :
    (origin other : Bytes) (jar : Jar) (st : Store)
    → hidden jar ≡ hidden (jar_of origin st)
    → hidden (jar_of other (with_jar origin jar st)) ≡ hidden (jar_of other st)
with_jar-hidden origin other jar st h = elim (Bool-cases (equal origin other)) [
  | inl e ↦
      let same : origin ≡ other = (equal_iff origin other).0 e in
      rw (jar_of-with_jar origin other jar st) (rw e (h ∙ ap (λ o. hidden (jar_of o st)) same))
  | inr e ↦ rw (jar_of-with_jar origin other jar st) (rw e refl)
]

store_locked-hidden :
    (now : ℤ) (origin other : Bytes) (c : Cookie) (max_age : Option ℤ) (st : Store)
    → c.stwp_only ≡ false
    → is_hidden (find_in c.name (jar_of origin st)) ≡ false
    → hidden (jar_of other (store_locked now origin c max_age st)) ≡ hidden (jar_of other st)
unfolding store_locked
store_locked-hidden now origin other c max_age st shown h =
    let jar = jar_of origin st in
    let new : Cookie = record c { expires_at = expiry now max_age } in
    elim (Option-cases (find_in c.name jar)) [
      | inl e ↦ elim (Bool-cases (ends_now max_age || leb max_cookies_per_origin (length jar))) [
        | inl q ↦ rw (e, store_locked, q) (with_jar-hidden origin other jar st refl)
        | inr q ↦
            rw (e, store_locked, q)
              (with_jar-hidden origin other (jar ++ new ∷ []) st (hidden-append jar new shown))
      ]
      | inr (old, e) ↦ elim (Bool-cases (ends_now max_age)) [
        | inl q ↦
            rw (e, store_locked, q)
              (with_jar-hidden origin other (erase_in c.name jar) st (hidden-erase_in c.name jar h))
        | inr q ↦
            rw (e, store_locked, q)
              (with_jar-hidden origin other (replace new jar) st (hidden-replace new jar shown h))
      ]
    ]

set_item-hidden :
    (now : ℤ) (origin other name value : Bytes) (max_age : Option ℤ) (st : Store)
    → hidden (jar_of other (set_item now origin name value max_age st).1) ≡ hidden (jar_of other st)
unfolding set_item
set_item-hidden now origin other name value max_age st =
    let jar = jar_of origin st in
    elim (Bool-cases (is_empty origin)) [
      | inl a ↦ rw (a, set_item) refl
      | inr a ↦ elim (Bool-cases (not (valid_name name))) [
        | inl b ↦ rw (a, b, set_item) refl
        | inr b ↦ elim (Bool-cases (not (valid_value value))) [
          | inl c ↦ rw (a, b, c, set_item) refl
          | inr c ↦ elim (Bool-cases (is_hidden (find_in name jar))) [
            | inl d ↦ rw (a, b, c, d, set_item) (with_jar-hidden origin other jar st refl)
            | inr d ↦
                elim (Bool-cases
                  (is_new (find_in name jar) && leb max_cookies_per_origin (length jar))) [
                    | inl e ↦
                        rw (a, b, c, d, e, set_item) (with_jar-hidden origin other jar st refl)
                    | inr e ↦
                        rw (a, b, c, d, e, set_item)
                          (store_locked-hidden now origin other _ max_age st refl d)
                  ]
          ]
        ]
      ]
    ]

remove_item-hidden :
    (origin other name : Bytes) (st : Store)
    → hidden (jar_of other (remove_item origin name st).1) ≡ hidden (jar_of other st)
unfolding remove_item
remove_item-hidden origin other name st = elim (Bool-cases (is_empty origin)) [
  | inl a ↦ rw (a, remove_item) refl
  | inr a ↦ elim (Option-cases (lookup origin st.jars)) [
    | inl b ↦ rw (a, remove_item, b) refl
    | inr (jar, b) ↦ elim (Option-cases (find_in name jar)) [
      | inl c ↦ rw (a, remove_item, b, c) refl
      | inr (cookie, c) ↦ elim (Bool-cases cookie.stwp_only) [
        | inl d ↦ rw (a, remove_item, b, c, d) refl
        | inr d ↦
            rw (a, remove_item, b, c, d)
              (with_jar-hidden origin other (erase_in name jar) st (
                hidden-erase_in name jar (rw (c, d) refl)
                ∙ ap (λ o. hidden (jar_or_new o)) (sym b)))
      ]
    ]
  ]
]

clear_items-hidden :
    (origin other : Bytes) (st : Store)
    → hidden (jar_of other (clear_items origin st).1) ≡ hidden (jar_of other st)
unfolding clear_items
clear_items-hidden origin other st = elim (Bool-cases (is_empty origin)) [
  | inl a ↦ rw (a, clear_items) refl
  | inr a ↦ elim (Option-cases (lookup origin st.jars)) [
    | inl b ↦ rw (a, clear_items, b) refl
    | inr (jar, b) ↦
        let left = keep (λ c. c.stwp_only) jar in
        let kept =
          with_jar-hidden origin other left st
            (hidden-keep jar ∙ ap (λ o. hidden (jar_or_new o)) (sym b)) in
        elim (Bool-cases (length left == length jar)) [
          | inl c ↦ rw (a, clear_items, b, c) kept
          | inr c ↦ rw (a, clear_items, b, c) kept
        ]
  ]
]

-- Whatever a script sets, removes or clears, the StwpOnly cookies of every origin stay as they were.
pub scripts_hidden :
    (now : ℤ) (origin other name value : Bytes) (max_age : Option ℤ) (st : Store)
    → (hidden (jar_of other (set_item now origin name value max_age st).1)
        ≡ hidden (jar_of other st))
      × (hidden (jar_of other (remove_item origin name st).1) ≡ hidden (jar_of other st))
      × (hidden (jar_of other (clear_items origin st).1) ≡ hidden (jar_of other st))
scripts_hidden now origin other name value max_age st = (
  set_item-hidden now origin other name value max_age st,
  remove_item-hidden origin other name st,
  clear_items-hidden origin other st,
)
