-- ===== src/Cookies/Each.antt =====
-- src/browser/cookies.cpp: the jars after each operation, and after any number of them.
use starweb.Base.{
  ℕ, ◌&&◌, Option, List, [], ◌∷◌, leb, length, keep, Bool-cases, Option-cases, inl, inr, ◌==◌,
}
use starweb.Base.Bytes.{Bytes, is_empty}
use starweb.Base.Dict.{lookup}
use starweb.Base.Int.{ℤ}
use starweb.Cookies.{
  Store, max_cookies_per_origin, jar_of, valid_name, valid_value, find_in, erase_in, drop_expired,
  apply_set_cookie, entries, header_for, remove, clear,
}
use starweb.Cookies.Good.{
  GoodJar, erase_in-GoodJar, keep-GoodJar, valid_name-GoodName, valid_value-GoodValue,
}
use starweb.Cookies.Script.{is_hidden, is_new, visible, set_item, remove_item, clear_items}
use starweb.Cookies.Kept.{
  no_cookies, with_jar-GoodJar, found-GoodJar, store_locked-GoodJar, drop_expired-GoodJar,
  apply_set_cookie-GoodJar,
}

module _ (origin other : Bytes) (st : Store) where
  entries-GoodJar :
      (now : ℤ)
      → GoodJar (jar_of origin st)
      → GoodJar (jar_of other st)
      → GoodJar (jar_of other (entries now origin st).1)
  unfolding entries
  entries-GoodJar now here there = elim (Bool-cases (is_empty origin)) [
    | inl a ↦ rw (a, entries) there
    | inr a ↦ elim (Option-cases (lookup origin st.jars)) [
      | inl b ↦ rw (a, entries, b) there
      | inr (jar, b) ↦
          rw (a, entries, b)
            (with_jar-GoodJar origin other (drop_expired now jar) st
              (drop_expired-GoodJar now jar (found-GoodJar origin st jar b here)) there)
    ]
  ]

  visible-GoodJar :
      (now : ℤ)
      → GoodJar (jar_of origin st)
      → GoodJar (jar_of other st)
      → GoodJar (jar_of other (visible now origin st).1)
  unfolding visible
  visible-GoodJar now here there = elim (Bool-cases (is_empty origin)) [
    | inl a ↦ rw (a, visible) there
    | inr a ↦ elim (Option-cases (lookup origin st.jars)) [
      | inl b ↦ rw (a, visible, b) there
      | inr (jar, b) ↦
          rw (a, visible, b)
            (with_jar-GoodJar origin other (drop_expired now jar) st
              (drop_expired-GoodJar now jar (found-GoodJar origin st jar b here)) there)
    ]
  ]

  remove-GoodJar :
      (name : Bytes)
      → GoodJar (jar_of origin st)
      → GoodJar (jar_of other st)
      → GoodJar (jar_of other (remove origin name st))
  unfolding remove
  remove-GoodJar name here there = elim (Option-cases (lookup origin st.jars)) [
    | inl b ↦ rw (remove, b) there
    | inr (jar, b) ↦ elim (Option-cases (find_in name jar)) [
      | inl c ↦ rw (remove, b, c) there
      | inr (cookie, c) ↦
          rw (remove, b, c)
            (with_jar-GoodJar origin other (erase_in name jar) st
              (erase_in-GoodJar name jar (found-GoodJar origin st jar b here)) there)
    ]
  ]

  clear-GoodJar : GoodJar (jar_of other st) → GoodJar (jar_of other (clear origin st))
  unfolding clear
  clear-GoodJar there = elim (Option-cases (lookup origin st.jars)) [
    | inl b ↦ rw (clear, b) there
    | inr (jar, b) ↦ elim (Bool-cases (length jar == 0)) [
      | inl c ↦ rw (clear, b, c) there
      | inr c ↦ rw (clear, b, c) (with_jar-GoodJar origin other [] st no_cookies there)
    ]
  ]

  set_item-GoodJar :
      (now : ℤ) (name value : Bytes) (max_age : Option ℤ)
      → GoodJar (jar_of origin st)
      → GoodJar (jar_of other st)
      → GoodJar (jar_of other (set_item now origin name value max_age st).1)
  unfolding set_item
  set_item-GoodJar now name value max_age here there =
      let jar = jar_of origin st in
      elim (Bool-cases (is_empty origin)) [
        | inl a ↦ rw (a, set_item) there
        | inr a ↦ elim (Bool-cases (valid_name name)) [
          | inr b ↦ rw (a, b, set_item) there
          | inl b ↦ elim (Bool-cases (valid_value value)) [
            | inr c ↦ rw (a, b, c, set_item) there
            | inl c ↦ elim (Bool-cases (is_hidden (find_in name jar))) [
              | inl d ↦ rw (a, b, c, d, set_item) (with_jar-GoodJar origin other jar st here there)
              | inr d ↦
                  elim (Bool-cases
                    (is_new (find_in name jar) && leb max_cookies_per_origin (length jar))) [
                      | inl e ↦
                          rw (a, b, c, d, e, set_item)
                            (with_jar-GoodJar origin other jar st here there)
                      | inr e ↦
                          rw (a, b, c, d, e, set_item)
                            (store_locked-GoodJar now origin other _ max_age st
                              (valid_name-GoodName name b, valid_value-GoodValue value c) here
                              there)
                    ]
            ]
          ]
        ]
      ]

  remove_item-GoodJar :
      (name : Bytes)
      → GoodJar (jar_of origin st)
      → GoodJar (jar_of other st)
      → GoodJar (jar_of other (remove_item origin name st).1)
  unfolding remove_item
  remove_item-GoodJar name here there = elim (Bool-cases (is_empty origin)) [
    | inl a ↦ rw (a, remove_item) there
    | inr a ↦ elim (Option-cases (lookup origin st.jars)) [
      | inl b ↦ rw (a, remove_item, b) there
      | inr (jar, b) ↦ elim (Option-cases (find_in name jar)) [
        | inl c ↦ rw (a, remove_item, b, c) there
        | inr (cookie, c) ↦ elim (Bool-cases cookie.stwp_only) [
          | inl d ↦ rw (a, remove_item, b, c, d) there
          | inr d ↦
              rw (a, remove_item, b, c, d)
                (with_jar-GoodJar origin other (erase_in name jar) st
                  (erase_in-GoodJar name jar (found-GoodJar origin st jar b here)) there)
        ]
      ]
    ]
  ]

  clear_items-GoodJar :
      GoodJar (jar_of origin st)
      → GoodJar (jar_of other st)
      → GoodJar (jar_of other (clear_items origin st).1)
  unfolding clear_items
  clear_items-GoodJar here there = elim (Bool-cases (is_empty origin)) [
    | inl a ↦ rw (a, clear_items) there
    | inr a ↦ elim (Option-cases (lookup origin st.jars)) [
      | inl b ↦ rw (a, clear_items, b) there
      | inr (jar, b) ↦
          let left = keep (λ c. c.stwp_only) jar in
          let kept =
            with_jar-GoodJar origin other left st
              (keep-GoodJar (λ c. c.stwp_only) jar (found-GoodJar origin st jar b here)) there in
          elim (Bool-cases (length left == length jar)) [
            | inl c ↦ rw (a, clear_items, b, c) kept
            | inr c ↦ rw (a, clear_items, b, c) kept
          ]
    ]
  ]

-- An operation on the cookies.
pub data Call : Type 0 where
  sets : (clock : ℕ → ℤ) (origin value : Bytes) → Call
  lists : (now : ℤ) (origin : Bytes) → Call
  removes : (origin name : Bytes) → Call
  clears : (origin : Bytes) → Call
  script_reads : (now : ℤ) (origin : Bytes) → Call
  script_sets : (now : ℤ) (origin name value : Bytes) (max_age : Option ℤ) → Call
  script_removes : (origin name : Bytes) → Call
  script_clears : (origin : Bytes) → Call

abbrev pub after : Call → Store → Store
after (sets clock origin value) st = apply_set_cookie clock origin value st
after (lists now origin) st = (header_for now origin st).1
after (removes origin name) st = remove origin name st
after (clears origin) st = clear origin st
after (script_reads now origin) st = (visible now origin st).1
after (script_sets now origin name value max_age) st = (set_item now origin name value max_age st).1
after (script_removes origin name) st = (remove_item origin name st).1
after (script_clears origin) st = (clear_items origin st).1

abbrev pub after_all : List Call → Store → Store
after_all [] st = st
after_all (call ∷ calls) st = after_all calls (after call st)

after-GoodJar :
    (call : Call) (st : Store)
    → ((origin : Bytes) → GoodJar (jar_of origin st))
    → (origin : Bytes) → GoodJar (jar_of origin (after call st))
unfolding header_for
after-GoodJar (sets clock origin value) st good other =
    apply_set_cookie-GoodJar clock origin other value st (good origin) (good other)
after-GoodJar (lists now origin) st good other =
    entries-GoodJar origin other st now (good origin) (good other)
after-GoodJar (removes origin name) st good other =
    remove-GoodJar origin other st name (good origin) (good other)
after-GoodJar (clears origin) st good other = clear-GoodJar origin other st (good other)
after-GoodJar (script_reads now origin) st good other =
    visible-GoodJar origin other st now (good origin) (good other)
after-GoodJar (script_sets now origin name value max_age) st good other =
    set_item-GoodJar origin other st now name value max_age (good origin) (good other)
after-GoodJar (script_removes origin name) st good other =
    remove_item-GoodJar origin other st name (good origin) (good other)
after-GoodJar (script_clears origin) st good other =
    clear_items-GoodJar origin other st (good origin) (good other)

-- However the operations follow each other, if every jar is in order, then it is so afterwards: it has at most 64
-- cookies, of distinct names; a name has 1 to 256 bytes, none of them a blank, a control byte, `;`, `=`, `,` or `|`;
-- a value has at most 4096 bytes, none of them a control byte, `;` or `|`, but it may contain blanks, `=` and `,`.
pub after_all-GoodJar :
    (calls : List Call) (st : Store) (origin : Bytes)
    → ((other : Bytes) → GoodJar (jar_of other st))
    → GoodJar (jar_of origin (after_all calls st))
after_all-GoodJar [] st origin good = good origin
after_all-GoodJar (call ∷ calls) st origin good =
    after_all-GoodJar calls (after call st) origin (after-GoodJar call st good)
