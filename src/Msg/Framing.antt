-- ===== src/Msg/Framing.antt =====
-- What `parse_request` says of the bytes that it consumes.
use starweb.Base.{
  ℕ, ◌+◌, ◌-◌, ◌≤◌, ◌<◌, ◌≡◌, ◌⊎◌, inl, inr, none, some, [], ◌∷◌, ◌++◌, arith, length, take, drop,
  Bool-cases, ltb, Option-cases, length-take, length-drop, take-add, take_all, ltb→lt, ◌∙◌,
}
use starweb.Base.Bytes.{Bytes, find_sub, substr}
use starweb.Base.Bytes.Laws.{find_sub-le, get_elem?-find_sub}
use starweb.Base.Bytes.Split.{split_on}
use starweb.Base.Decimal.{u64_mod}
use starweb.Msg.{
  Request, crlf, header_end, header_len, take_body, finish_request, parse_request_lines,
  parse_request,
}

header_len-le : (raw : Bytes) (i : ℕ) → header_len raw i ≤ 4
unfolding header_len
header_len-le raw i = ground arith

-- The separator lies in the buffer.
header_end-le : (raw : Bytes) (i : ℕ) → header_end raw ≡ some i → i + header_len raw i ≤ length raw
unfolding header_end
header_end-le raw i h = elim (Option-cases (find_sub (crlf ++ crlf) raw)) [
  | inl e ↦
      let found : find_sub (10 ∷ 10 ∷ []) raw ≡ some i = ground arith in
      unfold header_len in
      ground (arith, get_elem?-find_sub 10 (10 ∷ []) raw i, find_sub-le (10 ∷ 10 ∷ []) raw i)
  | inr (j, e) ↦ ground (arith, header_len-le raw i, find_sub-le (crlf ++ crlf) raw i)
]

module _ (raw : Bytes) (i sep cl : ℕ) where
  pub take_body_short :
      i + sep + cl < u64_mod → length raw < i + sep + cl → take_body raw i sep cl ≡ none
  unfolding take_body
  take_body_short small short = ground arith

  pub take_body_whole :
      i + sep + cl < u64_mod
      → i + sep + cl ≤ length raw
      → take_body raw i sep cl ≡ some (substr (i + sep) cl raw, i + sep + cl)
  unfolding take_body
  take_body_whole small whole = ground arith

  take_body_wraps :
      u64_mod ≤ i + sep + cl
      → cl < u64_mod
      → i + sep ≤ length raw
      → length raw < u64_mod
      → take_body raw i sep cl ≡ some (drop (i + sep) raw, i + sep + cl - u64_mod)
  unfolding take_body
  take_body_wraps large word inside fits =
      ground (arith, take_all cl (drop (i + sep) raw), length-drop (i + sep) raw)

module _ (raw : Bytes) (req q : Request) (i cl : ℕ) (ended : header_end raw ≡ some i)
    (read : parse_request_lines (split_on 10 (take i raw)) req ≡ (q, some cl))
    (fits : length raw < u64_mod) where
  abbrev body_start : ℕ
  body_start = i + header_len raw i

  parse_request-take_body : parse_request raw req ≡ finish_request raw i (q, some cl)
  unfolding parse_request
  parse_request-take_body = rw (ended, parse_request) (rw read)

  -- The head is complete, states a length that with the head stays below 2^64, and the buffer is
  -- shorter than 2^64 bytes. Then `parse_request` asks for more exactly when the buffer does not hold the
  -- whole body; else the body has the stated length, and the bytes consumed are the head, the
  -- separator and the body.
  pub parse_request_frames :
      body_start + cl < u64_mod
      → ((length raw < body_start + cl) × (parse_request raw req ≡ (q, none)))
        ⊎ ((body : Bytes) × (parse_request raw req
              ≡ (record q { body = body }, some (body_start + cl)))
            × (length body ≡ cl)
            × (take (body_start + cl) raw ≡ take body_start raw ++ body)
            × (body_start + cl ≤ length raw))
  parse_request_frames small = elim (Bool-cases (ltb (length raw) (body_start + cl))) [
    | inl short ↦ inl (
      ltb→lt _ _ short,
      parse_request-take_body
          ∙ (unfold finish_request in
              rw (
                take_body_short raw i (header_len raw i) cl small (ltb→lt _ _ short),
                finish_request,
              )),
    )
    | inr whole ↦
        let inside : body_start + cl ≤ length raw = ground arith in
        inr (
          substr body_start cl raw,
          parse_request-take_body
              ∙ (unfold finish_request in
                  rw (take_body_whole raw i (header_len raw i) cl small inside, finish_request)),
          omega (arith, length-take cl (drop body_start raw), length-drop body_start raw),
          take-add body_start cl raw,
          inside,
        )
  ]

  -- Where the sum of the head, the separator and the stated length passes 2^64, `parse_request`
  -- accepts the request though the buffer does not hold its body: the body is whatever follows the
  -- head, and fewer bytes are consumed than the head and the separator have.
  pub parse_request_wraps :
      u64_mod ≤ body_start + cl
      → cl < u64_mod
      → (n : ℕ) × (parse_request raw req ≡ (record q { body = drop body_start raw }, some n))
        × (n < body_start)
        × (length (drop body_start raw) < cl)
  parse_request_wraps large word =
      let inside = header_end-le raw i ended in
      (
        body_start + cl - u64_mod,
        parse_request-take_body
            ∙ (unfold finish_request in
                rw (
                  take_body_wraps raw i (header_len raw i) cl large word inside fits,
                  finish_request,
                )),
        omega arith,
        omega (arith, length-drop body_start raw, inside),
      )
