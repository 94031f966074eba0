-- ===== src/Msg/Reply/Frames.antt =====
-- src/common/stwp_msg.hpp: what `parse_response` says of the bytes that it consumes.
use starweb.Base.{
  ℕ, ◌+◌, ◌≤◌, ◌<◌, ◌≡◌, ◌⊎◌, inl, inr, true, none, some, ◌++◌, arith, length, take, drop,
  Bool-cases, ltb, ltb→lt, length-take, length-drop, take-add, ◌∙◌,
}
use starweb.Base.Bytes.{Bytes, substr}
use starweb.Base.Decimal.{u64_mod}
use starweb.Msg.{Response, header_end, header_len}
use starweb.Msg.Framing.{take_body_short, take_body_whole}
use starweb.Msg.Reply.{parse_response_headers, stated_length, finish_response, parse_response}

module _ (raw : Bytes) (res q : Response) (i : ℕ) (ended : header_end raw ≡ some i)
    (read : parse_response_headers (take i raw) res ≡ (q, true)) where
  parse_response-finish : parse_response raw res ≡ finish_response raw i (q, true)
  parse_response-finish = unfold parse_response in rw (ended, parse_response) (rw read)

  -- The head is complete and can be read, and the length that its table states stays below 2^64 with the
  -- head. Then `parse_response` asks for more exactly when the buffer does not hold the whole body; else the
  -- body has the stated length, and the bytes consumed are the head, the separator and the body.
  pub parse_response_frames :
      i + header_len raw i + stated_length q.headers < u64_mod
      → ((length raw < i + header_len raw i + stated_length q.headers)
          × (parse_response raw res ≡ (q, none)))
        ⊎ ((body : Bytes) × (parse_response raw res
              ≡ (record q { body = body }, some (i + header_len raw i + stated_length q.headers)))
            × (length body ≡ stated_length q.headers)
            × (take (i + header_len raw i + stated_length q.headers) raw
                ≡ take (i + header_len raw i) raw ++ body)
            × (i + header_len raw i + stated_length q.headers ≤ length raw))
  unfolding finish_response
  parse_response_frames small =
      let sep = header_len raw i in
      let cl = stated_length q.headers in
      elim (Bool-cases (ltb (length raw) (i + sep + cl))) [
        | inl short ↦ inl (
          ltb→lt _ _ short,
          parse_response-finish
              ∙ rw (take_body_short raw i sep cl small (ltb→lt _ _ short), finish_response),
        )
        | inr whole ↦
            let inside : i + sep + cl ≤ length raw = ground arith in
            inr (
              substr (i + sep) cl raw,
              parse_response-finish
                  ∙ rw (take_body_whole raw i sep cl small inside, finish_response),
              omega (arith, length-take cl (drop (i + sep) raw), length-drop (i + sep) raw),
              take-add (i + sep) cl raw,
              inside,
            )
      ]
