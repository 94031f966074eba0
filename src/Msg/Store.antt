-- ===== src/Msg/Store.antt =====
-- The header loops of the parsers over the lines of a printed head.
use starweb.Base.{
  ℕ, ◌≡◌, refl, sym, ap, ◌∙◌, true, false, none, some, List, [], ◌∷◌, ◌++◌, append_assoc,
  append-nil, if◌then◌else◌, All, Bool-cases, inl, inr,
}
use starweb.Base.Bytes.{Bytes, equal, is_empty}
use starweb.Base.Bytes.Laws.{equal_iff, equal_refl, equal-false}
use starweb.Base.Bytes.Trim.{strip-ne-nil, front_stays}
use starweb.Base.Decimal.{stoull}
use starweb.Base.Dict.{Dict, lookup, insert, insert_fresh, lookup-append}
use starweb.Msg.Lines.{IsHeader, IsHeaders, wire_line, lines_of, parse_header_line-wire_line}
use starweb.Msg.{is_blank, trim, add_headers, or_last, content_length_name}

-- No name is there twice.
abbrev pub Distinct : Dict Bytes → Type 0
Distinct [] = Unit
Distinct ((name, value) ∷ hs) = All (λ (h : Bytes × Bytes). equal name h.0 ≡ false) hs × Distinct hs

-- None of the names of `hs` is in the table yet.
abbrev pub Fresh : Dict Bytes → Dict Bytes → Type 0
Fresh acc = All (λ (h : Bytes × Bytes). lookup h.0 acc ≡ none)

Fresh-snoc :
    (acc : Dict Bytes) (name value : Bytes) (hs : Dict Bytes)
    → All (λ (h : Bytes × Bytes). equal name h.0 ≡ false) hs
    → Fresh acc hs
    → Fresh (acc ++ (name, value) ∷ []) hs
Fresh-snoc acc name value [] d f = tt
Fresh-snoc acc name value ((n, v) ∷ hs) d f =
    (missing acc n f.0 d.0, Fresh-snoc acc name value hs d.1 f.1)
  where
    missing :
        (acc : Dict Bytes) (n : Bytes)
        → lookup n acc ≡ none
        → equal name n ≡ false
        → lookup n (acc ++ (name, value) ∷ []) ≡ none
    missing acc n e d = rw (lookup-append n acc ((name, value) ∷ []) e) (unfold lookup in rw d)

pub Fresh-nil : (hs : Dict Bytes) → Fresh [] hs
Fresh-nil [] = tt
Fresh-nil (h ∷ hs) = (unfold lookup in refl, Fresh-nil hs)

-- The length after each header in turn.
abbrev pub length_after : ℕ → Dict Bytes → ℕ
length_after cl [] = cl
length_after cl ((name, value) ∷ hs) =
    length_after (if equal name content_length_name then or_last (stoull value) cl else cl) hs

trim-wire_line :
    (name value end : Bytes)
    → IsHeader name value
    → is_empty (trim (wire_line name value ++ end)) ≡ false
trim-wire_line [] value end h = absurd (h.name_ne_nil refl)
trim-wire_line (c ∷ name) value end h =
    strip-ne-nil is_blank c (wire_line name value ++ end)
      (front_stays is_blank c name h.name_trimmed.front)

is_empty-name : (name : Bytes) → ¬ (name ≡ []) → is_empty name ≡ false
is_empty-name [] h = absurd (h refl)
is_empty-name (c ∷ name) h = refl

module _ (name value end : Bytes) (h : IsHeader name value)
    (blank : All (λ x. is_blank x ≡ true) end) where
  add_headers-step :
      (acc : Dict Bytes) (cl : ℕ) (lines : List Bytes)
      → add_headers acc cl ((wire_line name value ++ end) ∷ lines)
        ≡ add_headers
            (insert name value acc)
            (if equal name content_length_name then or_last (stoull value) cl else cl)
            lines
  unfolding add_headers
  add_headers-step acc cl lines =
      rw (trim-wire_line name value end h, parse_header_line-wire_line name value h end blank)
        (rw (is_empty-name name h.name_ne_nil))

-- The lines behind the first store each header once, in order.
pub add_headers-lines_of :
    (hs acc : Dict Bytes) (cl : ℕ) (name value : Bytes)
    → IsHeader name value
    → IsHeaders hs
    → Distinct ((name, value) ∷ hs)
    → Fresh acc ((name, value) ∷ hs)
    → add_headers acc cl (lines_of (wire_line name value) hs)
      ≡ (acc ++ (name, value) ∷ hs, length_after cl ((name, value) ∷ hs))
add_headers-lines_of [] acc cl name value h v d f =
    ap (λ l. add_headers acc cl (l ∷ [])) (sym (append-nil (wire_line name value)))
    ∙ add_headers-step name value [] h tt acc cl []
    ∙ rw (insert_fresh name value acc f.0) (unfold add_headers in refl)
add_headers-lines_of ((n, w) ∷ hs) acc cl name value h v d f =
    add_headers-step name value (13 ∷ []) h (refl, tt) acc cl (lines_of (wire_line n w) hs)
    ∙ rw (insert_fresh name value acc f.0) (
        rw
          (add_headers-lines_of hs (acc ++ (name, value) ∷ []) _ n w v.0 v.1 d.1
            (Fresh-snoc acc name value ((n, w) ∷ hs) d.0 f.1))
          (rw (append_assoc acc ((name, value) ∷ []) ((n, w) ∷ hs))))

length_after_other :
    (cl : ℕ) (name : Bytes) (hs : Dict Bytes)
    → equal name content_length_name ≡ true
    → All (λ (h : Bytes × Bytes). equal name h.0 ≡ false) hs
    → length_after cl hs ≡ cl
length_after_other cl name [] e d = refl
length_after_other cl name ((n, v) ∷ hs) e d =
    rw (not_again n d.0) (length_after_other cl name hs e d.1)
  where
    not_again : (n : Bytes) → equal name n ≡ false → equal n content_length_name ≡ false
    not_again n f =
        equal-false n content_length_name
          λ g. cc (rw ((equal_iff name content_length_name).0 e, g, equal_refl) at f)

-- With distinct names the loop ends with the one Content-Length that is there.
pub length_after-lookup :
    (cl : ℕ) (hs : Dict Bytes)
    → Distinct hs
    → length_after cl hs
      ≡ elim (lookup content_length_name hs) [ none ↦ cl | some v ↦ or_last (stoull v) cl ]
length_after-lookup cl [] d = unfold lookup in refl
length_after-lookup cl ((n, v) ∷ hs) d = elim (Bool-cases (equal n content_length_name)) [
  | inl e ↦ rw e (length_after_other _ n hs e d.0 ∙ (unfold lookup in rw e))
  | inr e ↦ rw e (length_after-lookup cl hs d.1 ∙ (unfold lookup in rw e))
]
