-- ===== src/Proxy/Conf/Tree/Fuel.antt =====
-- src/proxy/config.cpp: `parse_block` on enough fuel.
use starweb.Base.{
  ◌⊎◌, ℕ, zero, suc, ◌≤◌, ◌<◌, ◌≡◌, refl, Bool, true, false, List, [], ◌∷◌, length, arith,
  Bool-cases, inl, inr,
}
use starweb.Base.Bytes.{Bytes}
use starweb.Proxy.Conf.{Result, ok, error}
use starweb.Proxy.Conf.Lexer.{Kind, word, open_brace, close_brace, semi, Token}
use starweb.Proxy.Conf.Tree.{
  Node, node, from_list, no_nodes, take_args, Parsed, parsed, refused, no_fuel, go_on, and_then,
  directive, emit, parse_block,
}

-- The call came to an end, and left at most `n` tokens.
abbrev pub Ends : ℕ → Parsed → Type 0
Ends n (parsed ns after) = length after ≤ n
Ends n (refused e) = 0 ≤ n
Ends n no_fuel = 1 ≤ 0

Ends-weakened : {m n : ℕ} (p : Parsed) → m ≤ n → Ends m p → Ends n p
Ends-weakened (parsed ns after) l h = omega arith
Ends-weakened (refused e) l h = omega arith
Ends-weakened no_fuel l h = h

Ends-go_on : (n : ℕ) (r : Result (List Node)) (p : Parsed) → Ends n p → Ends n (go_on r p)
Ends-go_on n (ok ns) (parsed ms after) h = h
Ends-go_on n (ok ns) (refused e) h = h
Ends-go_on n (ok ns) no_fuel h = h
Ends-go_on n (error e) p h = omega arith

Kind-cases : (k : Kind) → ((k ≡ word) ⊎ (k ≡ semi)) ⊎ ((k ≡ open_brace) ⊎ (k ≡ close_brace))
Kind-cases word = inl (inl refl)
Kind-cases semi = inl (inr refl)
Kind-cases open_brace = inr (inl refl)
Kind-cases close_brace = inr (inr refl)

take_args-length : (toks : List Token) → length (take_args toks).1 ≤ length toks
unfolding take_args
take_args-length [] = omega arith
take_args-length (t ∷ toks) =
    let rest = take_args-length toks in
    elim (Kind-cases t.kind) [
      | inl (inl e) ↦ rw e (omega arith)
      | inl (inr e) ↦ rw e (omega arith)
      | inr (inl e) ↦ rw e (omega arith)
      | inr (inr e) ↦ rw e (omega arith)
    ]

Ends-and_then :
    (n : ℕ) (p : Parsed) (k : List Node → List Token → Parsed)
    → Ends n p
    → ((ns : List Node) (after : List Token) → length after ≤ n → Ends n (k ns after))
    → Ends n (and_then p k)
Ends-and_then n (parsed ns after) k h next = next ns after h
Ends-and_then n (refused e) k h next = h
Ends-and_then n no_fuel k h next = h

module _ (included : Node → Result (List Node)) (file : Bytes) (last : ℕ) where
  Ends-directive :
      (rest_of : List Token → Bool → Parsed) (t : Token) (args : List Bytes) (in_block : Bool)
      (toks : List Token)
      → ((rest : List Token) (inner : Bool)
          → length rest ≤ length toks
          → Ends (length rest) (rest_of rest inner))
      → Ends (length toks) (directive included file last rest_of t args in_block toks)
  Ends-directive rest_of t args in_block [] ends = omega arith
  Ends-directive rest_of t args in_block (next ∷ rest) ends =
      let within : (left : List Token) (inner : Bool)
          → length left ≤ suc (length rest)
          → Ends (suc (length rest)) (rest_of left inner) =
        λ left inner l.
          Ends-weakened (rest_of left inner) (omega arith) (ends left inner (omega arith)) in
      elim (Kind-cases next.kind) [
        | inl (inl e) ↦ rw e (omega arith)
        | inl (inr e) ↦ rw e (
            Ends-go_on _ (emit included file last (node t.text args no_nodes false file t.line)) _
              (within rest in_block (omega arith)))
        | inr (inl e) ↦ rw e (
            Ends-and_then _ _ _ (within rest true (omega arith)) (λ ns after l.
              Ends-go_on _
                (emit included file last (node t.text args (from_list ns) true file t.line)) _
                (within after in_block l)))
        | inr (inr e) ↦ rw e (omega arith)
      ]

  -- On more fuel than there are tokens, `parse_block` comes to an end, with directives or with a message, and
  -- leaves no more tokens than it was given.
  pub parse_block-Ends :
      (fuel : ℕ) (toks : List Token) (in_block : Bool)
      → length toks < fuel
      → Ends (length toks) (parse_block included file last fuel toks in_block)
  unfolding parse_block
  parse_block-Ends zero toks in_block l = absurd (omega arith)
  parse_block-Ends (suc fuel) [] true l = omega arith
  parse_block-Ends (suc fuel) [] false l = omega arith
  parse_block-Ends (suc fuel) (t ∷ toks) in_block l =
      let size = take_args-length toks in
      let ends : (rest : List Token) (inner : Bool)
          → length rest ≤ length (take_args toks).1
          → Ends (length rest) (parse_block included file last fuel rest inner) =
        λ rest inner r. parse_block-Ends fuel rest inner (omega arith) in
      elim (Kind-cases t.kind) [
        | inl (inl e) ↦ rw e (
            Ends-weakened _ (omega arith) (
              Ends-directive (parse_block included file last fuel) t (take_args toks).0 in_block
                (take_args toks).1 ends))
        | inl (inr e) ↦ rw e (omega arith)
        | inr (inl e) ↦ rw e (omega arith)
        | inr (inr e) ↦
            rw e (elim (Bool-cases in_block) [
              | inl q ↦ rw q (omega arith)
              | inr q ↦ rw q (omega arith)
            ])
      ]
