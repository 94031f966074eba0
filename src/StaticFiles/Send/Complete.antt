-- ===== src/StaticFiles/Send/Complete.antt =====
-- A connection that is kept has received the whole body, and what it received is the file.
use starweb.Base.{
  ℕ, zero, suc, ◌+◌, ◌-◌, ◌≤◌, ◌<◌, ◌≡◌, refl, ap, sym, ◌∙◌, Bool, true, false, List, [], ◌∷◌, ◌++◌,
  arith, ◌==◌, length, take, drop, min, Bool-cases, inl, inr, append_assoc, append-nil, length-take,
  length-drop, length-append, take-add, drop-add, ◌≢◌,
}
use starweb.Base.Bytes.{Bytes, is_empty}
use starweb.StaticFiles.Send.{Sent, inline_body_max, stream}

abbrev pub joined : List Bytes → Bytes
joined [] = []
joined (b ∷ bs) = b ++ joined bs

-- The file hands over no more than it is asked for.
abbrev pub Bounded : (ℕ → ℕ → Bytes) → Type 0
Bounded reads = (offset n : ℕ) → length (reads offset n) ≤ n

-- Every read gives what stands there.
abbrev pub Honest : Bytes → (ℕ → ℕ → Bytes) → Type 0
Honest content reads = (offset n : ℕ) → reads offset n ≡ take n (drop offset content)

abbrev after_piece : Sent → Bytes → Sent
after_piece out piece = record out {
  body_bytes = out.body_bytes + length piece;
  wire = out.wire ++ piece ∷ [];
}

module _ (writes : ℕ → Bool) (reads : ℕ → ℕ → Bytes) where
  pub stream_counts :
      (fuel k offset remaining : ℕ) (out : Sent) (keep_alive : Bool)
      → Bounded reads
      → out.keep_alive ≡ false
      → (stream writes reads fuel k offset remaining out keep_alive).keep_alive ≡ true
      → (stream writes reads fuel k offset remaining out keep_alive).body_bytes
        ≡ out.body_bytes + remaining
  unfolding stream
  stream_counts zero k offset remaining out keep_alive b o h = absurd (cc)
  stream_counts (suc fuel) k offset remaining out keep_alive b o h =
      let piece = reads offset (min inline_body_max remaining) in
      let out' : Sent = record out {
        body_bytes = out.body_bytes + length piece;
        wire = out.wire ++ piece ∷ [];
      } in
      let later =
        stream_counts fuel (k + 1) (offset + length piece) (remaining - length piece) out'
          keep_alive b o in
      ground (arith, b offset (min inline_body_max remaining), later)

  stream_round :
      (fuel k offset remaining : ℕ) (out : Sent) (keep_alive : Bool) (piece : Bytes)
      → reads offset (min inline_body_max remaining) ≡ piece
      → (remaining == 0) ≡ false
      → is_empty piece ≡ false
      → writes k ≡ true
      → stream writes reads (suc fuel) k offset remaining out keep_alive
        ≡ stream writes reads fuel
            (k + 1)
            (offset + length piece)
            (remaining - length piece)
            (after_piece out piece)
            keep_alive
  unfolding stream
  stream_round fuel k offset remaining out keep_alive piece p z e w = rw (z, p) (rw (e, w))

  stream_end :
      (fuel k offset remaining : ℕ) (out : Sent) (keep_alive : Bool)
      → (remaining == 0) ≡ true
      → stream writes reads (suc fuel) k offset remaining out keep_alive
        ≡ record out { keep_alive = keep_alive }
  unfolding stream
  stream_end fuel k offset remaining out keep_alive z = rw z

joined-snoc : (bs : List Bytes) (b : Bytes) → joined (bs ++ b ∷ []) ≡ joined bs ++ b
joined-snoc [] b = append-nil b
joined-snoc (a ∷ bs) b = simp (joined-snoc bs b, append_assoc)

is_empty-length : (s : Bytes) → 0 < length s → is_empty s ≡ false
is_empty-length [] h = absurd (omega arith)
is_empty-length (x ∷ s) h = refl

-- What has been sent is all of the rest, and the connection is kept if it should be.
pub record Done (out s : Sent) (keep_alive : Bool) (rest : Bytes) : Type 0 where
  pub kept : s.keep_alive ≡ keep_alive
  pub status : s.status ≡ out.status
  pub counted : s.body_bytes ≡ out.body_bytes + length rest
  pub sent : joined s.wire ≡ joined out.wire ++ rest

Done-after_piece :
    (out s : Sent) (keep_alive : Bool) (piece rest : Bytes)
    → Done (after_piece out piece) s keep_alive rest
    → Done out s keep_alive (piece ++ rest)
Done-after_piece out s keep_alive piece rest d = record {
  kept = d.kept;
  status = d.status;
  counted = omega (arith, d.counted, length-append piece rest);
  sent = d.sent ∙ rw (joined-snoc out.wire piece) (append_assoc (joined out.wire) piece rest);
}

take_rest :
    (n remaining offset : ℕ) (content : Bytes)
    → n ≤ remaining
    → take n (drop offset content) ++ take (remaining - n) (drop (offset + n) content)
      ≡ take remaining (drop offset content)
take_rest n remaining offset content h =
    let sum : n + (remaining - n) ≡ remaining = omega arith in
    rw (drop-add offset n content) (
      sym (take-add n (remaining - n) (drop offset content))
      ∙ ap (λ m. take m (drop offset content)) sum)

module _ (writes : ℕ → Bool) (reads : ℕ → ℕ → Bytes) (content : Bytes)
    (honest : Honest content reads) (open_conn : (i : ℕ) → writes i ≡ true)
    (keep_alive : Bool) where
  pub stream-Done :
      (fuel k offset remaining : ℕ) (out : Sent)
      → offset + remaining ≤ length content
      → remaining < fuel
      → Done out
          (stream writes reads fuel k offset remaining out keep_alive)
          keep_alive
          (take remaining (drop offset content))
  stream-Done zero k offset remaining out l f = absurd (omega arith)
  stream-Done (suc fuel) k offset remaining out l f = elim (Bool-cases (remaining == 0)) [
    | inl z ↦
        let none_left : remaining ≡ 0 = ground arith in
        rw (stream_end writes reads fuel k offset remaining out keep_alive z) (
          rw none_left (record {
            kept = refl;
            status = refl;
            counted = omega arith;
            sent = sym (append-nil (joined out.wire));
          }))
    | inr z ↦
        let n = min inline_body_max remaining in
        let piece = take n (drop offset content) in
        let size : length piece ≡ n =
          omega (arith, length-take n (drop offset content), length-drop offset content) in
        let some_left : remaining ≢ 0 = ground arith in
        let d =
          stream-Done fuel (k + 1) (offset + length piece) (remaining - length piece)
            (after_piece out piece) (omega (arith, size)) (omega (arith, size)) in
        let whole : piece ++ take (remaining - length piece) (drop (offset + length piece) content)
            ≡ take remaining (drop offset content) =
          rw size (take_rest n remaining offset content (omega arith)) in
        rw
          (stream_round writes reads fuel k offset remaining out keep_alive piece (honest offset n)
            z (is_empty-length piece (omega (arith, size))) (open_conn k))
          (rw (← whole) (Done-after_piece out _ keep_alive piece _ d))
  ]
