-- ===== src/Msg/Strict/Agreement.antt =====
-- What the proxy may rely on in a head that `parse_request_headers` accepts.
use starweb.Base.{
  ◌≡◌, true, false, ◌&&◌, ◌⊎◌, inl, inr, some, List, [], ◌∷◌, arith, All, Bool-cases,
}
use starweb.Base.Bytes.{Bytes, equal, is_empty}
use starweb.Base.Bytes.Laws.{equal_iff}
use starweb.Base.Bytes.Split.{split_on}
use starweb.Base.Dict.{Dict, lookup, insert, lookup-insert}
use starweb.Msg.{Request, trim, parse_header_line, content_length_name}
use starweb.Msg.Strict.{
  differs, strict_headers, strict_request_line, strict_lines, parse_request_headers,
}

-- A line that is blank, or a header with a name; every Content-Length is the one of the table.
abbrev pub LineAgrees : Dict Bytes → Bytes → Type 0
LineAgrees hs line =
    (is_empty (trim line) ≡ true)
    ⊎ ((is_empty (parse_header_line line).0 ≡ false)
        × (equal (parse_header_line line).0 content_length_name ≡ false
            ⊎ (lookup content_length_name hs ≡ some (parse_header_line line).1)))

-- One round of the loop that is not refused.
Round : Dict Bytes → Dict Bytes → Bytes → List Bytes → Type 0
Round hs hs' line lines =
    ((is_empty (trim line) ≡ true) × (strict_headers hs lines ≡ (hs', true)))
    ⊎ ((is_empty (parse_header_line line).0 ≡ false)
        × ((equal (parse_header_line line).0 content_length_name
              && differs (lookup (parse_header_line line).0 hs) (parse_header_line line).1)
            ≡ false)
        × (strict_headers (insert (parse_header_line line).0 (parse_header_line line).1 hs) lines
            ≡ (hs', true)))

round :
    (line : Bytes) (lines : List Bytes) (hs hs' : Dict Bytes)
    → strict_headers hs (line ∷ lines) ≡ (hs', true)
    → Round hs hs' line lines
unfolding strict_headers Round
round line lines hs hs' h = ground arith

-- What is stored under the name stays what it was: another value is refused.
same_value :
    (name value v : Bytes) (hs : Dict Bytes)
    → (equal name content_length_name && differs (lookup name hs) value) ≡ false
    → lookup content_length_name hs ≡ some v
    → lookup content_length_name (insert name value hs) ≡ some v
unfolding differs
same_value name value v hs g e = ground (
  arith,
  lookup-insert name content_length_name value hs,
  equal_iff name content_length_name,
  equal_iff v value,
)

keeps :
    (lines : List Bytes) (hs hs' : Dict Bytes) (v : Bytes)
    → strict_headers hs lines ≡ (hs', true)
    → lookup content_length_name hs ≡ some v
    → lookup content_length_name hs' ≡ some v
unfolding Round
keeps [] hs hs' v h e = unfold strict_headers in ground arith
keeps (line ∷ lines) hs hs' v h e = elim (round line lines hs hs' h) [
  | inl (_, r) ↦ keeps lines hs hs' v r e
  | inr (_, g, r) ↦ keeps lines _ hs' v r (same_value _ _ v hs g e)
]

agrees :
    (lines : List Bytes) (hs hs' : Dict Bytes)
    → strict_headers hs lines ≡ (hs', true)
    → All (LineAgrees hs') lines
unfolding Round
agrees [] hs hs' h = tt
agrees (line ∷ lines) hs hs' h = elim (round line lines hs hs' h) [
  | inl (b, r) ↦ (inl b, agrees lines hs hs' r)
  | inr (b, g, r) ↦ (
    inr (
      b,
      elim (Bool-cases (equal (parse_header_line line).0 content_length_name)) [
        | inl c ↦ inr (keeps lines _ hs' _ r (stored _ _ hs c))
        | inr c ↦ inl c
      ],
    ),
    agrees lines _ hs' r,
  )
]
  where
    stored :
        (name value : Bytes) (hs : Dict Bytes)
        → equal name content_length_name ≡ true
        → lookup content_length_name (insert name value hs) ≡ some value
    stored name value hs c = rw (lookup-insert, c)

abbrev pub later_lines : Bytes → List Bytes
later_lines head = elim (split_on 10 head) [ [] ↦ [] | _ ∷ lines ↦ lines ]

loop :
    (line : Bytes) (lines : List Bytes) (req r : Request)
    → strict_lines (line ∷ lines) req ≡ (r, true)
    → strict_headers (strict_request_line (trim line) req).0.headers lines ≡ (r.headers, true)
unfolding strict_lines
loop line lines req r h = ground arith

-- In a head that `parse_request_headers` accepts, every line behind the first is blank or a header
-- with a name, and every Content-Length among them has the one value that the table holds.
pub parse_request_headers_agree :
    (head : Bytes) (req r : Request)
    → parse_request_headers head req ≡ (r, true)
    → All (LineAgrees r.headers) (later_lines head)
unfolding parse_request_headers
parse_request_headers_agree head req r h = from (split_on 10 head) h
  where
    from :
        (ls : List Bytes)
        → strict_lines ls req ≡ (r, true)
        → All (LineAgrees r.headers) (elim ls [ [] ↦ [] | _ ∷ lines ↦ lines ])
    from [] h = tt
    from (line ∷ lines) h =
        agrees lines (strict_request_line (trim line) req).0.headers r.headers
          (loop line lines req r h)
