-- ===== src/Proxy/Upstream/Pick.antt =====
-- src/proxy/upstream.cpp: `pick` moves weight between the peers and makes none, and gives a peer that was
-- not tried while there is one.
use starweb.Base.{
  ℕ, zero, suc, ◌+◌, ◌<◌, ◌≡◌, refl, sym, ap, subst, ◌∙◌, Bool, true, false, ◌||◌, Option, none,
  some, List, [], ◌∷◌, length, arith, Bool-cases, inl, inr, ◌⊎◌,
}
use starweb.Base.Int.{leb_ℤ, ℤ, pos, ◌+ℤ◌, ltb_ℤ, int_laws, pos_part, neg_part}
use starweb.Proxy.{Peer}
use starweb.Proxy.Upstream.{State, candidate, better, lighter, round, update}

-- The sum of the current weights.
unfoldable pub weight_sum : List State → ℤ
weight_sum [] = pos 0
weight_sum (s ∷ states) = s.current_weight +ℤ weight_sum states

abbrev Same : ℤ → ℤ → Type 0
Same a b = pos_part a + neg_part b ≡ pos_part b + neg_part a

round-weight_sum :
    (allow_down : Bool) (now : ℤ) (i : ℕ) (peers : List Peer) (states : List State)
    (tried : List Bool) (best : Option (ℕ × ℤ)) (total : ℤ)
    → Same
        (weight_sum (round allow_down now i peers states tried best total).states +ℤ total)
        (weight_sum states +ℤ (round allow_down now i peers states tried best total).total)
unfolding round weight_sum
round-weight_sum allow_down now i [] states tried best total = refl
round-weight_sum allow_down now i (p ∷ peers) [] tried best total = refl
round-weight_sum allow_down now i (p ∷ peers) (s ∷ states) [] best total = refl
round-weight_sum allow_down now i (p ∷ peers) (s ∷ states) (t ∷ tried) best total =
    elim (Bool-cases (candidate allow_down now t s)) [
      | inl c ↦
          rw (c, round)
            (omega (
              int_laws,
              round-weight_sum allow_down now (i + 1) peers states tried
                  (better best i (s.current_weight +ℤ p.weight)) (total +ℤ p.weight),
            ))
      | inr c ↦
          rw (c, round)
            (omega
              (int_laws, round-weight_sum allow_down now (i + 1) peers states tried best total))
    ]

update-weight_sum :
    (i : ℕ) (total : ℤ) (states : List State)
    → i < length states
    → Same (weight_sum (update i (lighter total) states) +ℤ total) (weight_sum states)
unfolding update weight_sum
update-weight_sum i total [] h = absurd (omega arith)
update-weight_sum zero total (s ∷ states) h = omega int_laws
update-weight_sum (suc i) total (s ∷ states) h =
    omega (int_laws, update-weight_sum i total states (omega arith))

-- A peer takes part in a round if it was not tried and, unless those that are down may, is not down.
abbrev pub takes_part : Bool → ℤ → Bool → State → Bool
takes_part allow_down now true s = false
takes_part true now false s = true
takes_part false now false s = leb_ℤ s.down_until now

candidate-takes_part :
    (allow_down : Bool) (now : ℤ) (t : Bool) (s : State)
    → candidate allow_down now t s ≡ takes_part allow_down now t s
candidate-takes_part allow_down now true s = refl
candidate-takes_part true now false s = refl
candidate-takes_part false now false s = refl

-- The peer at a place takes part in the round.
unfoldable pub candidate_at : Bool → ℤ → List State → List Bool → ℕ → Bool
candidate_at allow_down now (s ∷ states) (t ∷ tried) zero = takes_part allow_down now t s
candidate_at allow_down now (s ∷ states) (t ∷ tried) (suc i) =
    candidate_at allow_down now states tried i
candidate_at allow_down now states tried i = false

-- Some peer does.
unfoldable pub some_candidate : Bool → ℤ → List Peer → List State → List Bool → Bool
some_candidate allow_down now (p ∷ peers) (s ∷ states) (t ∷ tried) =
    takes_part allow_down now t s || some_candidate allow_down now peers states tried
some_candidate allow_down now peers states tried = false

better_cases :
    (best : Option (ℕ × ℤ)) (i : ℕ) (w : ℤ)
    → (better best i w ≡ some (i, w)) ⊎ (better best i w ≡ best)
better_cases none i w = inl refl
better_cases (some (b, v)) i w = elim (Bool-cases (ltb_ℤ v w)) [
  | inl h ↦ inl (rw h refl)
  | inr h ↦ inr (rw h refl)
]

better-some : (best : Option (ℕ × ℤ)) (i : ℕ) (w : ℤ) → (x : ℕ × ℤ) × (better best i w ≡ some x)
better-some none i w = ((i, w), refl)
better-some (some (b, v)) i w = elim (Bool-cases (ltb_ℤ v w)) [
  | inl h ↦ ((i, w), rw h refl)
  | inr h ↦ ((b, v), rw h refl)
]

abbrev place : Option (ℕ × ℤ) → ℕ
place none = 0
place (some x) = x.0

-- The best of a round is the one it began with, or a candidate.
abbrev From : Bool → ℤ → ℕ → List State → List Bool → Option (ℕ × ℤ) → ℕ × ℤ → Type 0
From allow_down now i states tried best x =
    (best ≡ some x)
    ⊎ ((j : ℕ) × (x.0 ≡ i + j) × (candidate_at allow_down now states tried j ≡ true))

From-later :
    (allow_down : Bool) (now : ℤ) (i : ℕ) (s : State) (states : List State) (t : Bool)
    (tried : List Bool) (best : Option (ℕ × ℤ)) (x : ℕ × ℤ)
    → (j : ℕ) × (x.0 ≡ (i + 1) + j) × (candidate_at allow_down now states tried j ≡ true)
    → From allow_down now i (s ∷ states) (t ∷ tried) best x
unfolding candidate_at
From-later allow_down now i s states t tried best x (j, e, c) = inr (suc j, omega (arith, e), c)

round-From :
    (allow_down : Bool) (now : ℤ) (i : ℕ) (peers : List Peer) (states : List State)
    (tried : List Bool) (best : Option (ℕ × ℤ)) (total : ℤ) (x : ℕ × ℤ)
    → (round allow_down now i peers states tried best total).best ≡ some x
    → From allow_down now i states tried best x
unfolding round candidate_at
round-From allow_down now i [] states tried best total x h = inl h
round-From allow_down now i (p ∷ peers) [] tried best total x h = inl h
round-From allow_down now i (p ∷ peers) (s ∷ states) [] best total x h = inl h
round-From allow_down now i (p ∷ peers) (s ∷ states) (t ∷ tried) best total x h =
    elim (Bool-cases (candidate allow_down now t s)) [
      | inr c ↦
          elim (round-From allow_down now (i + 1) peers states tried best total x (rw c at h)) [
            | inl e ↦ inl e
            | inr k ↦ From-later allow_down now i s states t tried best x k
          ]
      | inl c ↦
          let w = s.current_weight +ℤ p.weight in
          elim (round-From allow_down now (i + 1) peers states tried (better best i w)
            (total +ℤ p.weight) x (rw c at h)) [
              | inr k ↦ From-later allow_down now i s states t tried best x k
              | inl e ↦ elim (better_cases best i w) [
                | inl b ↦ inr (
                  0,
                  omega (arith, ap place (sym e ∙ b)),
                  sym (candidate-takes_part allow_down now t s) ∙ c,
                )
                | inr b ↦ inl (sym b ∙ e)
              ]
            ]
    ]

pub round-none :
    (allow_down : Bool) (now : ℤ) (i : ℕ) (peers : List Peer) (states : List State)
    (tried : List Bool) (best : Option (ℕ × ℤ)) (total : ℤ)
    → some_candidate allow_down now peers states tried ≡ false
    → round allow_down now i peers states tried best total
      ≡ record { best = best; total = total; states = states }
unfolding round some_candidate
round-none allow_down now i [] states tried best total h = refl
round-none allow_down now i (p ∷ peers) [] tried best total h = refl
round-none allow_down now i (p ∷ peers) (s ∷ states) [] best total h = refl
round-none allow_down now i (p ∷ peers) (s ∷ states) (t ∷ tried) best total h =
    let none_here : candidate allow_down now t s ≡ false =
      ground (arith, candidate-takes_part allow_down now t s) in
    let later = round-none allow_down now (i + 1) peers states tried best total (ground arith) in
    rw (none_here, round) (rw later refl)

round_keeps :
    (allow_down : Bool) (now : ℤ) (i : ℕ) (peers : List Peer) (states : List State)
    (tried : List Bool) (y : ℕ × ℤ) (total : ℤ)
    → (x : ℕ × ℤ) × ((round allow_down now i peers states tried (some y) total).best ≡ some x)
unfolding round
round_keeps allow_down now i [] states tried y total = (y, refl)
round_keeps allow_down now i (p ∷ peers) [] tried y total = (y, refl)
round_keeps allow_down now i (p ∷ peers) (s ∷ states) [] y total = (y, refl)
round_keeps allow_down now i (p ∷ peers) (s ∷ states) (t ∷ tried) y total =
    elim (Bool-cases (candidate allow_down now t s)) [
      | inr c ↦ rw (c, round) (round_keeps allow_down now (i + 1) peers states tried y total)
      | inl c ↦
          let w = s.current_weight +ℤ p.weight in
          let (z, b) = better-some (some y) i w in
          rw (c, round)
            (rw b (round_keeps allow_down now (i + 1) peers states tried z (total +ℤ p.weight)))
    ]

pub round-some :
    (allow_down : Bool) (now : ℤ) (i : ℕ) (peers : List Peer) (states : List State)
    (tried : List Bool) (best : Option (ℕ × ℤ)) (total : ℤ)
    → some_candidate allow_down now peers states tried ≡ true
    → (x : ℕ × ℤ) × ((round allow_down now i peers states tried best total).best ≡ some x)
unfolding round some_candidate
round-some allow_down now i [] states tried best total h = absurd (cc)
round-some allow_down now i (p ∷ peers) [] tried best total h = absurd (cc)
round-some allow_down now i (p ∷ peers) (s ∷ states) [] best total h = absurd (cc)
round-some allow_down now i (p ∷ peers) (s ∷ states) (t ∷ tried) best total h =
    elim (Bool-cases (candidate allow_down now t s)) [
      | inr c ↦
          rw (c, round)
            (round-some allow_down now (i + 1) peers states tried best total
              (ground (arith, candidate-takes_part allow_down now t s)))
      | inl c ↦
          let (z, b) = better-some best i (s.current_weight +ℤ p.weight) in
          rw (c, round)
            (rw b (round_keeps allow_down now (i + 1) peers states tried z (total +ℤ p.weight)))
    ]

candidate_at-length :
    (allow_down : Bool) (now : ℤ) (states : List State) (tried : List Bool) (i : ℕ)
    → candidate_at allow_down now states tried i ≡ true
    → i < length states
unfolding candidate_at
candidate_at-length allow_down now [] tried i h = absurd (cc)
candidate_at-length allow_down now (s ∷ states) [] i h = absurd (cc)
candidate_at-length allow_down now (s ∷ states) (t ∷ tried) zero h = omega arith
candidate_at-length allow_down now (s ∷ states) (t ∷ tried) (suc i) h =
    omega (arith, candidate_at-length allow_down now states tried i h)

round-length :
    (allow_down : Bool) (now : ℤ) (i : ℕ) (peers : List Peer) (states : List State)
    (tried : List Bool) (best : Option (ℕ × ℤ)) (total : ℤ)
    → length (round allow_down now i peers states tried best total).states ≡ length states
unfolding round
round-length allow_down now i [] states tried best total = refl
round-length allow_down now i (p ∷ peers) [] tried best total = refl
round-length allow_down now i (p ∷ peers) (s ∷ states) [] best total = refl
round-length allow_down now i (p ∷ peers) (s ∷ states) (t ∷ tried) best total =
    ap suc (round-length allow_down now (i + 1) peers states tried _ _)

-- The choice of one round, the best peer made lighter by the total.
unfoldable pub settled : Bool → ℤ → List Peer → List State → List Bool → ℕ → List State
settled allow_down now peers states tried b =
    let r = round allow_down now 0 peers states tried none (pos 0) in
    update b (lighter r.total) r.states

pub round_place :
    (allow_down : Bool) (now : ℤ) (peers : List Peer) (states : List State) (tried : List Bool)
    (x : ℕ × ℤ)
    → (round allow_down now 0 peers states tried none (pos 0)).best ≡ some x
    → candidate_at allow_down now states tried x.0 ≡ true
round_place allow_down now peers states tried x h =
    elim (round-From allow_down now 0 peers states tried none (pos 0) x h) [
      | inl e ↦ absurd (cc)
      | inr (j, e, c) ↦
          let same : j ≡ x.0 = omega (arith, e) in
          subst (λ k. candidate_at allow_down now states tried k ≡ true) same c
    ]

pub settled-weight_sum :
    (allow_down : Bool) (now : ℤ) (peers : List Peer) (states : List State) (tried : List Bool)
    (x : ℕ × ℤ)
    → (round allow_down now 0 peers states tried none (pos 0)).best ≡ some x
    → weight_sum (settled allow_down now peers states tried x.0) ≡ weight_sum states
unfolding settled
settled-weight_sum allow_down now peers states tried x h =
    let r = round allow_down now 0 peers states tried none (pos 0) in
    let inside =
      candidate_at-length allow_down now states tried x.0
        (round_place allow_down now peers states tried x h) in
    let same = round-length allow_down now 0 peers states tried none (pos 0) in
    let raised = round-weight_sum allow_down now 0 peers states tried none (pos 0) in
    let lowered = update-weight_sum x.0 r.total r.states (omega (arith, inside, same)) in
    omega (int_laws, raised, lowered)
