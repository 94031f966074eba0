-- ===== src/Proxy/Conf/Lexer/Quote.antt =====
-- src/proxy/config.cpp: what `quote` writes, `tokenize` reads as one word with the same text.
use starweb.Base.{
  ℕ, ◌≡◌, refl, sym, ap, ◌∙◌, true, false, ◌||◌, List, [], ◌∷◌, ◌++◌, append_assoc, append-nil,
  arith, ◌==◌, ==_refl, Bool-cases, inl, inr,
}
use starweb.Base.Bytes.{Bytes, codes}
use starweb.Proxy.Conf.{Result, ok, error}
use starweb.Proxy.Conf.Lexer.{
  word, Token, Mode, plain, in_word, quoted, token, step_plain, quiet, escaped, unescape, ends_word,
  rev_onto, in_order, step, prepend, run, all_plain, escape, escape_all, quote,
}

rev_onto-twice : (s t out : Bytes) → rev_onto (rev_onto s t) out ≡ rev_onto t (s ++ out)
rev_onto-twice [] t out = refl
rev_onto-twice (c ∷ s) t out = rev_onto-twice s (c ∷ t) out

prepend-nil : (m : Result (List Token)) → prepend [] m ≡ m
prepend-nil (ok ts) = refl
prepend-nil (error e) = refl

prepend-append :
    (ts us : List Token) (m : Result (List Token))
    → prepend ts (prepend us m) ≡ prepend (ts ++ us) m
prepend-append ts us (ok vs) = ap ok (sym (append_assoc ts us vs))
prepend-append ts us (error e) = refl

run-quiet :
    (file : Bytes) (mode next : Mode) (line later c : ℕ) (s : Bytes)
    → step mode line c ≡ record { emitted = []; mode = next; line = later }
    → run file mode line (c ∷ s) ≡ run file next later s
unfolding run
run-quiet file mode next line later c s e = rw e (prepend-nil _)

run-escape :
    (file : Bytes) (start : ℕ) (text : Bytes) (c : ℕ) (r : Bytes)
    → run file (quoted b'"' start text) start (escape c ++ r)
      ≡ run file (quoted b'"' start (c ∷ text)) start r
unfolding step
run-escape file start text c r = elim (Bool-cases (c == b'"' || c == 92)) [
  | inl q ↦
      let same : unescape c ≡ c = ground arith in
      rw (q) (
        run-quiet file (quoted b'"' start text) (escaped b'"' start text) start start 92 (c ∷ r)
          refl
        ∙ run-quiet file (escaped b'"' start text) (quoted b'"' start (c ∷ text)) start start c r
            (rw same refl))
  | inr q ↦ elim (Bool-cases (c == 10)) [
    | inl n ↦
        let ten : c ≡ 10 = ground arith in
        rw (q, n)
          (run-quiet file (quoted b'"' start text) (escaped b'"' start text) start start 92
              (b'n' ∷ r) refl
            ∙ run-quiet file (escaped b'"' start text) (quoted b'"' start (c ∷ text)) start start
                b'n' r (ap (λ k. quiet (quoted b'"' start (k ∷ text)) start) (sym ten)))
    | inr n ↦
        rw (q, n)
          (run-quiet file (quoted b'"' start text) (quoted b'"' start (c ∷ text)) start start c r
            (ground arith))
  ]
]

-- Reading the inside of the quotes.
run-escape_all :
    (file : Bytes) (start : ℕ) (text s rest : Bytes)
    → run file (quoted b'"' start text) start (escape_all s ++ rest)
      ≡ run file (quoted b'"' start (rev_onto s text)) start rest
unfolding run step escape_all
run-escape_all file start text [] rest = refl
run-escape_all file start text (c ∷ s) rest = rw (append_assoc (escape c) (escape_all s) rest) (
    run-escape file start text c (escape_all s ++ rest)
    ∙ run-escape_all file start (c ∷ text) s rest)

run-word :
    (file : Bytes) (line : ℕ) (text s : Bytes) (c : ℕ) (rest : Bytes)
    → all_plain s ≡ true
    → ends_word c ≡ true
    → run file (in_word text) line (s ++ c ∷ rest)
      ≡ prepend (token word (in_order (rev_onto s text)) line ∷ []) (run file plain line (c ∷ rest))
unfolding run step all_plain
run-word file line text [] c rest p e =
    rw e (sym (prepend-append (token word (in_order text) line ∷ []) (step_plain line c).emitted _))
run-word file line text (x ∷ s) c rest p e =
    let inside : ends_word x ≡ false = ground arith in
    let plain_rest : all_plain s ≡ true = ground arith in
    rw inside (prepend-nil _ ∙ run-word file line (x ∷ text) s c rest plain_rest e)

run-close :
    (file : Bytes) (q start line : ℕ) (text r : Bytes)
    → run file (quoted q start text) line (q ∷ r)
      ≡ prepend (token word (in_order text) start ∷ []) (run file plain line r)
unfolding run step
run-close file q start line text r = rw (==_refl q) refl

quoted_text :
    (file : Bytes) (line : ℕ) (s r : Bytes)
    → run file plain line (b'"' ∷ ((escape_all s ++ codes "\"") ++ r))
      ≡ prepend (token word s line ∷ []) (run file plain line r)
unfolding step step_plain
quoted_text file line s r =
    run-quiet file plain (quoted b'"' line []) line line b'"' ((escape_all s ++ codes "\"") ++ r)
      refl
    ∙ ap (run file (quoted b'"' line []) line) (append_assoc (escape_all s) (codes "\"") r)
    ∙ run-escape_all file line [] s (b'"' ∷ r)
    ∙ run-close file b'"' line line (rev_onto s []) r
    ∙ ap (λ t. prepend (token word t line ∷ []) (run file plain line r))
        (rev_onto-twice s [] [] ∙ append-nil s)

plain_text :
    (file : Bytes) (line x : ℕ) (s : Bytes) (c : ℕ) (rest : Bytes)
    → all_plain (x ∷ s) ≡ true
    → ends_word c ≡ true
    → run file plain line (x ∷ s ++ c ∷ rest)
      ≡ prepend (token word (x ∷ s) line ∷ []) (run file plain line (c ∷ rest))
unfolding all_plain
plain_text file line x s c rest p e =
    let first : step plain line x ≡ quiet (in_word (x ∷ [])) line =
      unfold step step_plain in ground arith in
    run-quiet file plain (in_word (x ∷ [])) line line x (s ++ c ∷ rest) first
    ∙ run-word file line (x ∷ []) s c rest (ground arith) e
    ∙ ap (λ t. prepend (token word t line ∷ []) (run file plain line (c ∷ rest)))
        (rev_onto-twice s (x ∷ []) [] ∙ ap (◌∷◌ x) (append-nil s))

-- What `quote` writes for a text, before a byte that ends a word, is read by the loop of `tokenize` as one word
-- with that text, on the line where it stands.
pub run-quote :
    (file : Bytes) (line : ℕ) (s : Bytes) (c : ℕ) (rest : Bytes)
    → ends_word c ≡ true
    → run file plain line (quote s ++ c ∷ rest)
      ≡ prepend (token word s line ∷ []) (run file plain line (c ∷ rest))
unfolding quote escape_all
run-quote file line s c rest e = go s
  where
    go :
        (s : Bytes)
        → run file plain line (quote s ++ c ∷ rest)
          ≡ prepend (token word s line ∷ []) (run file plain line (c ∷ rest))
    go [] = quoted_text file line [] (c ∷ rest)
    go (x ∷ s) = elim (Bool-cases (all_plain (x ∷ s))) [
      | inr q ↦ rw q (quoted_text file line (x ∷ s) (c ∷ rest))
      | inl q ↦ rw q (plain_text file line x s c rest q e)
    ]
