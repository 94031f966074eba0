-- ===== src/StaticFiles/Send/Serve.antt =====
-- What `send_file` puts on the wire: the head, and exactly the part of the file that it announces.
use starweb.Base.{
  ℕ, suc, ◌+◌, ◌-◌, ◌≤◌, ◌≡◌, refl, ap, sym, ◌∙◌, Bool, true, false, none, some, [], ◌∷◌, ◌++◌,
  arith, ◌==◌, leb, length, take, drop, Bool-cases, inl, inr, append_assoc, append-nil, length-take,
  length-drop, subst, take_all,
}
use starweb.Base.Bytes.{Bytes, codes}
use starweb.Base.Dict.{lookup}
use starweb.Msg.{Request, Response, serialize_response}
use starweb.StaticFiles.{parse_byte_range}
use starweb.StaticFiles.Range.{parse_byte_range-InFile}
use starweb.StaticFiles.Send.{
  Sent, inline_body_max, framed, described, whole_response, part_response, send_inline,
  send_streamed, send_part, send_opened,
}
use starweb.StaticFiles.Send.Complete.{joined, Bounded, Honest, stream-Done, stream_counts}

serialize-body :
    (res : Response) (b : Bytes)
    → res.body ≡ []
    → serialize_response (record res { body = b }) ≡ serialize_response res ++ b
unfolding serialize_response
serialize-body res b e = rw e (simp append_assoc)

-- The head and the body went out, and the connection is kept if it should be.
pub record Served (s : Sent) (res : Response) (keep_alive : Bool) (body : Bytes) : Type 0 where
  pub kept : s.keep_alive ≡ keep_alive
  pub status : s.status ≡ res.status_code
  pub counted : s.body_bytes ≡ length body
  pub sent : joined s.wire ≡ serialize_response (framed res (length body) keep_alive) ++ body

framed_kept :
    (res : Response) (len : ℕ) (keep_alive : Bool) → (framed res len keep_alive).body ≡ res.body
unfolding framed
framed_kept res len keep_alive = refl

framed_status :
    (res : Response) (len : ℕ) (keep_alive : Bool)
    → (framed res len keep_alive).status_code ≡ res.status_code
unfolding framed
framed_status res len keep_alive = refl

described_kept : (res : Response) (safe : Bytes) → (described res safe).body ≡ res.body
unfolding described
described_kept res safe = refl

part_kept :
    (res : Response) (start end size : ℕ) → (part_response res start end size).body ≡ res.body
unfolding part_response
part_kept res start end size = refl

whole_kept : (res : Response) → (whole_response res).body ≡ res.body
unfolding whole_response
whole_kept res = refl

module _ (writes : ℕ → Bool) (reads : ℕ → ℕ → Bytes) (content : Bytes)
    (honest : Honest content reads) (open_conn : (i : ℕ) → writes i ≡ true)
    (keep_alive : Bool) where
  inline-Served :
      (res : Response) (offset len : ℕ) (body : Bytes)
      → res.body ≡ []
      → reads offset len ≡ body
      → length body ≡ len
      → Served
          (send_inline writes reads (framed res len keep_alive) offset len keep_alive)
          res
          keep_alive
          body
  unfolding send_inline
  inline-Served res offset len body e r size =
      let same : (length body == len) ≡ true = ground arith in
      rw (r, same)
        (record {
          kept = rw (open_conn 0) refl;
          status = framed_status res len keep_alive;
          counted = sym size;
          sent =
              append-nil _
              ∙ serialize-body (framed res len keep_alive) body (framed_kept res len keep_alive ∙ e)
              ∙ ap (λ n. serialize_response (framed res n keep_alive) ++ body) (sym size);
        })

  streamed-Served :
      (res : Response) (offset len : ℕ)
      → offset + len ≤ length content
      → length (take len (drop offset content)) ≡ len
      → Served
          (send_streamed writes reads (framed res len keep_alive) offset len keep_alive)
          res
          keep_alive
          (take len (drop offset content))
  unfolding send_streamed
  streamed-Served res offset len l size =
      let head = serialize_response (framed res len keep_alive) in
      let start : Sent = record {
        status = (framed res len keep_alive).status_code;
        body_bytes = 0;
        keep_alive = false;
        wire = head ∷ [];
      } in
      let d =
        stream-Done writes reads content honest open_conn keep_alive (suc len) 1 offset len start l
          (omega arith) in
      rw (open_conn 0) (record {
        kept = d.kept;
        status = d.status ∙ framed_status res len keep_alive;
        counted = omega (arith, d.counted);
        sent =
            d.sent
            ∙ ap (λ b. b ++ take len (drop offset content)) (append-nil head)
            ∙ ap
                (λ n.
                  serialize_response (framed res n keep_alive) ++ take len (drop offset content))
                (sym size);
      })

  send_part-Served :
      (res : Response) (offset len : ℕ)
      → res.body ≡ []
      → offset + len ≤ length content
      → Served
          (send_part writes reads res offset len keep_alive)
          res
          keep_alive
          (take len (drop offset content))
  unfolding send_part
  send_part-Served res offset len e l =
      let size : length (take len (drop offset content)) ≡ len =
        omega (arith, length-take len (drop offset content), length-drop offset content) in
      elim (Bool-cases (leb len inline_body_max)) [
        | inl small ↦ rw small (inline-Served res offset len _ e (honest offset len) size)
        | inr large ↦ rw large (streamed-Served res offset len l size)
      ]

  -- To a request for a part of the file that can be given, `send_file`, once the file is open, sends the
  -- head with the length of the part, and then exactly that part, whether it is sent in one piece or in
  -- rounds; the connection is kept if it should be. (Every write succeeds, every read gives what stands in
  -- the file, and the response that is filled in has no body yet.)
  pub send_opened-Served_range :
      (safe : Bytes) (req : Request) (res : Response) (header : Bytes) (start end : ℕ)
      → res.body ≡ []
      → lookup (codes "range") req.headers ≡ some header
      → parse_byte_range header (length content) ≡ some (start, end)
      → Served
          (send_opened writes reads safe (length content) req res keep_alive)
          (part_response (described res safe) start end (length content))
          keep_alive
          (take (end - start + 1) (drop start content))
  unfolding send_opened
  send_opened-Served_range safe req res header start end e r p =
      let part = part_response (described res safe) start end (length content) in
      let kept : part.body ≡ [] =
        part_kept (described res safe) start end (length content) ∙ described_kept res safe ∙ e in
      let inside = parse_byte_range-InFile header (length content) (start, end) p in
      rw (r, send_opened)
        (rw p
          (send_part-Served part start (end - start + 1) kept (omega (arith, inside.0, inside.1))))

  -- To a request that asks for no part, `send_file`, once the file is open, sends the head with the
  -- length of the file, and then the file; the connection is kept if it should be. (Every write
  -- succeeds, every read gives what stands in the file, and the response that is filled in has no body yet.)
  pub send_opened-Served_whole :
      (safe : Bytes) (req : Request) (res : Response)
      → res.body ≡ []
      → lookup (codes "range") req.headers ≡ none
      → Served
          (send_opened writes reads safe (length content) req res keep_alive)
          (whole_response (described res safe))
          keep_alive
          content
  unfolding send_opened
  send_opened-Served_whole safe req res e r =
      let whole = whole_response (described res safe) in
      let kept : whole.body ≡ [] = whole_kept (described res safe) ∙ described_kept res safe ∙ e in
      rw (r, send_opened)
        (subst (Served _ whole keep_alive) (take_all (length content) content (omega arith))
          (send_part-Served whole 0 (length content) kept (omega arith)))

module _ (writes : ℕ → Bool) (reads : ℕ → ℕ → Bytes) (bounded : Bounded reads) where
  -- Whatever the file hands over, no more than it is asked for, and whichever writes fail: when
  -- `send_part` keeps the connection, the bytes of the body that it has counted are those it announced.
  pub send_part_counts :
      (res : Response) (offset len : ℕ) (keep_alive : Bool)
      → (send_part writes reads res offset len keep_alive).keep_alive ≡ true
      → (send_part writes reads res offset len keep_alive).body_bytes ≡ len
  unfolding send_part send_inline send_streamed
  send_part_counts res offset len keep_alive h = elim (Bool-cases (leb len inline_body_max)) [
    | inl small ↦ ground arith
    | inr large ↦ elim (Bool-cases (writes 0)) [
      | inl w ↦
          let start : Sent = record {
            status = (framed res len keep_alive).status_code;
            body_bytes = 0;
            keep_alive = false;
            wire = serialize_response (framed res len keep_alive) ∷ [];
          } in
          rw (large, w)
            (omega (
              arith,
              stream_counts writes reads (suc len) 1 offset len start keep_alive bounded refl
                  (rw (large, w) at h),
            ))
      | inr w ↦ absurd (ground arith)
    ]
  ]
