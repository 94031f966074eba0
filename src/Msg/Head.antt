-- ===== src/Msg/Head.antt =====
-- Where the head of a printed request ends in a buffer, and the lines that it is cut into.
use starweb.Base.{
  ℕ, ◌+◌, ◌≡◌, refl, ap, ◌∙◌, true, false, ◌⊎◌, none, some, [], ◌∷◌, ◌++◌, append_assoc, arith,
  length, take, take-append, length-append, ◌==◌, get_elem?,
}
use starweb.Base.Bytes.{Bytes, find_sub, starts_with}
use starweb.Base.Bytes.Laws.{Lacks, Avoids, Avoids-append}
use starweb.Base.Bytes.Split.{split_on}
use starweb.Base.Decimal.{to_string}
use starweb.Base.Dict.{Dict, lookup}
use starweb.Msg.{
  Request, crlf, serialize_request, is_blank, header_end, header_len, content_length_name,
}
use starweb.Msg.Lines.{
  IsHeader, IsHeaders, wire_line, tail_lines, header_lines-tail_lines, lines_of, split_on-lines_of,
}
use starweb.Msg.Store.{Distinct}

abbrev pub blank_line : Bytes
blank_line = crlf ++ crlf

-- A piece without carriage returns holds no part of the separator.
find_sub-skip :
    (a s : Bytes) (i : ℕ)
    → Lacks 13 a
    → find_sub blank_line s ≡ some i
    → find_sub blank_line (a ++ s) ≡ some (length a + i)
unfolding find_sub starts_with
find_sub-skip [] s i h e = ground arith
find_sub-skip (x ∷ a) s i h e = ground (arith, find_sub-skip a s i h.1 e)

-- Nor does a line break with a line behind it.
find_sub-line :
    (c : ℕ) (s : Bytes) (i : ℕ)
    → (c == 13) ≡ false
    → find_sub blank_line (c ∷ s) ≡ some i
    → find_sub blank_line (13 ∷ 10 ∷ c ∷ s) ≡ some (2 + i)
unfolding find_sub starts_with
find_sub-line c s i h e = ground arith

find_sub-wire_line :
    (name value rest : Bytes) (i : ℕ)
    → IsHeader name value
    → find_sub blank_line rest ≡ some i
    → find_sub blank_line (13 ∷ 10 ∷ (wire_line name value ++ rest))
      ≡ some (2 + (length (wire_line name value) + i))
find_sub-wire_line [] value rest i h e = absurd (h.name_ne_nil refl)
find_sub-wire_line (c ∷ name) value rest i h e =
    find_sub-line c (wire_line name value ++ rest) _ h.name_no_cr.0 (
      find_sub-skip (wire_line (c ∷ name) value) rest i
        (Avoids-append _ (c ∷ name) (b':' ∷ b' ' ∷ value) h.name_no_cr
          (refl, (refl, h.value_no_cr)))
        e)

find_sub-tail_lines :
    (hs : Dict Bytes) (rest : Bytes)
    → IsHeaders hs
    → find_sub blank_line (tail_lines hs ++ (blank_line ++ rest)) ≡ some (length (tail_lines hs))
find_sub-tail_lines [] rest v = unfold find_sub starts_with in refl
find_sub-tail_lines ((name, value) ∷ hs) rest v =
    rw (append_assoc (wire_line name value) (tail_lines hs) (blank_line ++ rest)) (
      find_sub-wire_line name value _ _ v.0 (find_sub-tail_lines hs rest v.1)
      ∙ ap some (omega (arith, length-append (wire_line name value) (tail_lines hs))))

-- A request that can be printed and read back.
pub record IsRequest (r : Request) : Type 0 where
  pub method_ne_nil : ¬ (r.method ≡ [])
  pub method_no_blank : Avoids is_blank r.method
  pub path_no_space : Lacks b' ' r.path
  pub path_no_lf : Lacks 10 r.path
  pub path_no_cr : Lacks 13 r.path
  pub version_ne_nil : ¬ (r.version ≡ [])
  pub version_no_blank : Avoids is_blank r.version
  pub headers : IsHeaders r.headers
  pub distinct : Distinct r.headers
  -- the headers state the length of the body
  pub states_length :
      (lookup content_length_name r.headers ≡ some (to_string (length r.body)))
      ⊎ ((lookup content_length_name r.headers ≡ none) × (r.body ≡ []))

abbrev pub request_line : Request → Bytes
request_line r = r.method ++ (b' ' ∷ (r.path ++ (b' ' ∷ r.version)))

-- The bytes in front of the blank line.
abbrev pub head : Request → Bytes
head r = request_line r ++ tail_lines r.headers

-- no blank is in particular no space, no line feed and no carriage return
pub Lacks-blank : (c : ℕ) (s : Bytes) → is_blank c ≡ true → Avoids is_blank s → Lacks c s
Lacks-blank c [] e h = tt
Lacks-blank c (x ∷ s) e h = (ground (arith, h.0), Lacks-blank c s e h.1)

pub serialize-head :
    (r : Request) (rest : Bytes)
    → serialize_request r ++ rest ≡ head r ++ (blank_line ++ (r.body ++ rest))
unfolding serialize_request
serialize-head r rest =
    rw (header_lines-tail_lines r.headers (13 ∷ 10 ∷ r.body)) (simp append_assoc)

Lacks-request_line :
    (c : ℕ) (r : Request)
    → IsRequest r
    → is_blank c ≡ true
    → (b' ' == c) ≡ false
    → Lacks c r.path
    → Lacks c (request_line r)
Lacks-request_line c r v b e h =
    Avoids-append _ r.method _ (Lacks-blank c r.method b v.method_no_blank) (
      e,
      Avoids-append _ r.path (b' ' ∷ r.version) h (e, Lacks-blank c r.version b v.version_no_blank),
    )

module _ (r : Request) (v : IsRequest r) (rest : Bytes) where
  pub header_end-serialize : header_end (head r ++ (blank_line ++ rest)) ≡ some (length (head r))
  unfolding header_end
  header_end-serialize =
      rw (append_assoc (request_line r) (tail_lines r.headers) (blank_line ++ rest)) (
        rw
          (
            find_sub-skip (request_line r) (tail_lines r.headers ++ (blank_line ++ rest)) _
                (Lacks-request_line 13 r v refl refl v.path_no_cr)
                (find_sub-tail_lines r.headers rest v.headers),
            header_end,
          )
          (rw (length-append (request_line r) (tail_lines r.headers))))

  get_elem?-append : (a s : Bytes) (x : ℕ) → get_elem? (a ++ x ∷ s) (length a) ≡ some x
  get_elem?-append [] s x = refl
  get_elem?-append (y ∷ a) s x = get_elem?-append a s x

  pub header_len-serialize : header_len (head r ++ (blank_line ++ rest)) (length (head r)) ≡ 4
  unfolding header_len
  header_len-serialize = rw (get_elem?-append (head r) (10 ∷ 13 ∷ 10 ∷ rest) 13, header_len)

  pub split_on-serialize :
      split_on 10 (take (length (head r)) (head r ++ (blank_line ++ rest)))
      ≡ lines_of (request_line r) r.headers
  split_on-serialize = rw (take-append (head r) (blank_line ++ rest)) (
      split_on-lines_of (request_line r) r.headers
        (Lacks-request_line 10 r v refl refl v.path_no_lf) v.headers)
