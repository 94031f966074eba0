-- ===== src/Msg/RoundTrip.antt =====
-- A printed request is parsed back, whatever follows it in the buffer.
use starweb.Base.{
  ℕ, suc, ◌+◌, ◌-◌, ◌<◌, ◌≡◌, refl, ap, ◌∙◌, true, ◌⊎◌, inl, inr, none, some, [], ◌∷◌, ◌++◌,
  append_assoc, append-nil, arith, All, length, drop, take-append, drop-append_add, length-append,
  drop-append_suc, subst,
}
use starweb.Base.Bytes.{Bytes}
use starweb.Base.Bytes.Laws.{Avoids, find-append}
use starweb.Base.Bytes.Trim.{IsTrimmed, strip-append, IsTrimmed-between}
use starweb.Base.Decimal.{to_string, stoull, stoull-to_string, u64_mod}
use starweb.Base.Dict.{Dict, lookup}
use starweb.Msg.Head.{
  IsRequest, blank_line, request_line, head, Lacks-blank, serialize-head, header_end-serialize,
  header_len-serialize, split_on-serialize,
}
use starweb.Msg.Lines.{IsHeaders, lines_of}
use starweb.Msg.Store.{Distinct, Fresh-nil, add_headers-lines_of, length_after, length_after-lookup}
use starweb.Msg.{
  Request, empty_request, serialize_request, is_blank, trim, parse_request_line,
  content_length_name, or_last, add_headers, take_body, finish_request, parse_request_lines,
  parse_request,
}

-- The body behind the separator.
take_body-serialize :
    (a body rest : Bytes)
    → length a + 4 + length body + length rest < u64_mod
    → take_body (a ++ (blank_line ++ (body ++ rest))) (length a) 4 (length body)
      ≡ some (body, length a + 4 + length body)
unfolding take_body
take_body-serialize a body rest h =
    rw (drop-append_add a (blank_line ++ (body ++ rest)) 4, take-append body rest)
      (ground (arith, length-append a (blank_line ++ (body ++ rest)), length-append body rest))

IsTrimmed-request_line : (r : Request) → IsRequest r → IsTrimmed is_blank (request_line r)
IsTrimmed-request_line r v = from r.method v.method_ne_nil v.method_no_blank
  where
    from :
        (m : Bytes)
        → ¬ (m ≡ [])
        → Avoids is_blank m
        → IsTrimmed is_blank (m ++ (b' ' ∷ (r.path ++ (b' ' ∷ r.version))))
    from [] n h = absurd (n refl)
    from (c ∷ m) n h =
        let regroup : (m ++ (b' ' ∷ (r.path ++ (b' ' ∷ [])))) ++ r.version
            ≡ m ++ (b' ' ∷ (r.path ++ (b' ' ∷ r.version))) =
          simp append_assoc in
        subst (λ s. IsTrimmed is_blank (c ∷ s)) regroup
          (IsTrimmed-between is_blank c _ r.version h.0 v.version_ne_nil v.version_no_blank)

trim-request_line :
    (r : Request) (end : Bytes)
    → IsRequest r
    → All (λ x. is_blank x ≡ true) end
    → trim (request_line r ++ end) ≡ request_line r
trim-request_line r end v b =
    strip-append is_blank [] (request_line r) end tt (IsTrimmed-request_line r v) b

second_space :
    (m p v : Bytes) → drop (length m + 1 + length p + 1) (m ++ (b' ' ∷ (p ++ (b' ' ∷ v)))) ≡ v
second_space m p v =
    let sum : length m + 1 + length p + 1 ≡ length m + suc (length p + 1) = omega arith in
    rw (sum, drop-append_add m (b' ' ∷ (p ++ (b' ' ∷ v))) (suc (length p + 1)))
      (drop-append_suc p b' ' v)

parse_request_line-request_line :
    (r q : Request)
    → IsRequest r
    → parse_request_line (request_line r) q
      ≡ (record q { method = r.method; path = r.path; version = r.version }, true)
unfolding parse_request_line
parse_request_line-request_line r q v =
    rw
      (
        find-append r.method b' ' (r.path ++ (b' ' ∷ r.version))
            (Lacks-blank b' ' r.method refl v.method_no_blank),
        parse_request_line,
      )
      (rw
        (
          drop-append_suc r.method b' ' (r.path ++ (b' ' ∷ r.version)),
          find-append r.path b' ' r.version v.path_no_space,
        )
        (rw (
          between (length r.method) (length r.path),
          drop-append_suc r.method b' ' (r.path ++ (b' ' ∷ r.version)),
          take-append r.path (b' ' ∷ r.version),
          second_space r.method r.path r.version,
          take-append r.method (b' ' ∷ (r.path ++ (b' ' ∷ r.version))),
        )))
  where
    between : (m p : ℕ) → m + 1 + p - (m + 1) ≡ p
    between m p = omega arith

-- The length that the headers of a well-formed request state is that of its body.
length_after-body :
    (r : Request) → IsRequest r → length r.body < u64_mod → length_after 0 r.headers ≡ length r.body
length_after-body r v l =
    length_after-lookup 0 r.headers v.distinct ∙ stated r.body v.states_length l
  where
    stated :
        (body : Bytes)
        → (lookup content_length_name r.headers ≡ some (to_string (length body)))
          ⊎ ((lookup content_length_name r.headers ≡ none) × (body ≡ []))
        → length body < u64_mod
        → ◌≡◌ {A = ℕ}
            (elim (lookup content_length_name r.headers) [
              | none ↦ 0
              | some v ↦ or_last (stoull v) 0
            ])
            (length body)
    stated body (inl e) l = rw e (rw (stoull-to_string (length body) l))
    stated body (inr (e, n)) l = rw (e, n)

-- The lines of a printed head give its request line and its headers.
parse_request_lines-lines_of :
    (r : Request) (hs : Dict Bytes)
    → IsRequest r
    → IsHeaders hs
    → Distinct hs
    → parse_request_lines (lines_of (request_line r) hs) empty_request
      ≡ (record r { headers = hs; body = [] }, some (length_after 0 hs))
unfolding parse_request_lines
parse_request_lines-lines_of r [] v w d =
    let line : trim (request_line r) ≡ request_line r =
      subst (λ s. trim s ≡ request_line r) (append-nil (request_line r))
        (trim-request_line r [] v tt) in
    rw (line, parse_request_line-request_line r empty_request v) (unfold add_headers in refl)
parse_request_lines-lines_of r ((n, x) ∷ hs) v w d =
    rw
      (
        trim-request_line r (13 ∷ []) v (refl, tt),
        parse_request_line-request_line r empty_request v,
      )
      (rw (add_headers-lines_of hs [] 0 n x w.0 w.1 d (Fresh-nil ((n, x) ∷ hs))))

length-serialize :
    (r : Request) (rest : Bytes)
    → length (serialize_request r ++ rest) ≡ length (head r) + 4 + length r.body + length rest
length-serialize r rest = rw (serialize-head r rest) (
    omega
      (arith, length-append (head r) (blank_line ++ (r.body ++ rest)), length-append r.body rest))

-- A buffer that starts with the head, the separator and the body of a request.
parse_request-head :
    (r : Request) (rest : Bytes)
    → IsRequest r
    → length (head r) + 4 + length r.body + length rest < u64_mod
    → parse_request (head r ++ (blank_line ++ (r.body ++ rest))) empty_request
      ≡ (r, some (length (head r) + 4 + length r.body))
unfolding parse_request finish_request
parse_request-head r rest v l =
    rw (header_end-serialize r v (r.body ++ rest), parse_request)
      (rw
        (
          split_on-serialize r v (r.body ++ rest),
          parse_request_lines-lines_of r r.headers v v.headers v.distinct,
        )
        (rw (length_after-body r v (omega arith)) (
          rw (header_len-serialize r v (r.body ++ rest), finish_request)
            (rw (take_body-serialize (head r) r.body rest l, finish_request)))))

-- `parse_request` on a printed request with anything behind it gives back the request, and consumes
-- exactly the bytes that were printed. (The request is well formed, its headers state the length of
-- its body, and the buffer is shorter than 2^64 bytes.)
pub parse_request-serialize :
    (r : Request) (rest : Bytes)
    → IsRequest r
    → length (serialize_request r ++ rest) < u64_mod
    → parse_request (serialize_request r ++ rest) empty_request
      ≡ (r, some (length (serialize_request r)))
parse_request-serialize r rest v l =
    let size = length-serialize r rest in
    let total : length (head r) + 4 + length r.body ≡ length (serialize_request r) =
      omega (arith, size, length-append (serialize_request r) rest) in
    ap (λ raw. parse_request raw empty_request) (serialize-head r rest)
    ∙ parse_request-head r rest v (omega (arith, size))
    ∙ ap (λ n. (r, some n)) total
