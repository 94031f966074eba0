-- ===== src/Proxy/Upstream/Choice.antt =====
-- src/proxy/upstream.cpp: what `pick` gives.
use starweb.Base.{
  ℕ, ◌≡◌, refl, ap, ◌∙◌, Bool, true, false, not, Option, none, some, List, Bool-cases, inl, inr,
}
use starweb.Base.Int.{ℤ, pos}
use starweb.Proxy.{Peer}
use starweb.Proxy.Upstream.{State, round, second_round, last_round, pick}
use starweb.Proxy.Upstream.Pick.{
  weight_sum, candidate_at, some_candidate, round-none, round-some, round_place, settled,
  settled-weight_sum,
}

-- A peer that is given is a candidate: of those that are up while there is one of them, else of all that
-- were not tried. None is given only where all were tried.
pub Picked : List Peer → List State → List Bool → ℤ → Option ℕ → Type 0
Picked peers states tried now none = some_candidate true now peers states tried ≡ false
Picked peers states tried now (some b) =
    candidate_at (not (some_candidate false now peers states tried)) now states tried b ≡ true

module _ (peers : List Peer) (states : List State) (tried : List Bool) (now : ℤ) where
  -- The two things that are shown of a result.
  record Fair (result : Option ℕ × List State) : Type 0 where
    picked : Picked peers states tried now result.0
    kept : weight_sum result.1 ≡ weight_sum states

  pick_up :
      (x : ℕ × ℤ)
      → (round false now 0 peers states tried none (pos 0)).best ≡ some x
      → pick peers states tried now ≡ (some x.0, settled false now peers states tried x.0)
  unfolding pick settled
  pick_up x e = rw (e, second_round) refl

  pick_down :
      (x : ℕ × ℤ)
      → some_candidate false now peers states tried ≡ false
      → (round true now 0 peers states tried none (pos 0)).best ≡ some x
      → pick peers states tried now ≡ (some x.0, settled true now peers states tried x.0)
  unfolding pick settled
  pick_down x n e =
      let quiet = round-none false now 0 peers states tried none (pos 0) n in
      ap (second_round peers tried now) quiet ∙ rw (e, second_round) refl

  pick-none :
      some_candidate false now peers states tried ≡ false
      → some_candidate true now peers states tried ≡ false
      → pick peers states tried now ≡ (none, states)
  unfolding pick
  pick-none n m =
      let quiet = round-none false now 0 peers states tried none (pos 0) n in
      let still = round-none true now 0 peers states tried none (pos 0) m in
      ap (second_round peers tried now) quiet ∙ ap last_round still

  pick-Fair : Fair (pick peers states tried now)
  unfolding Picked
  pick-Fair = elim (Bool-cases (some_candidate false now peers states tried)) [
    | inl c ↦
        let (x, e) = round-some false now 0 peers states tried none (pos 0) c in
        rw (pick_up x e) (record {
          picked = rw c (round_place false now peers states tried x e);
          kept = settled-weight_sum false now peers states tried x e;
        })
    | inr n ↦ elim (Bool-cases (some_candidate true now peers states tried)) [
      | inl c ↦
          let (x, e) = round-some true now 0 peers states tried none (pos 0) c in
          rw (pick_down x n e) (record {
            picked = rw n (round_place true now peers states tried x e);
            kept = settled-weight_sum true now peers states tried x e;
          })
      | inr m ↦ rw (pick-none n m) (record { picked = m; kept = refl })
    ]
  ]

  -- The peer that `pick` gives was not tried, and is up while there is such a peer; `pick` gives none only
  -- where all peers were tried.
  pub pick-Picked : Picked peers states tried now (pick peers states tried now).0
  pick-Picked = pick-Fair.picked

  -- `pick` leaves the sum of the current weights as it was.
  pub pick-weight_sum : weight_sum (pick peers states tried now).1 ≡ weight_sum states
  pick-weight_sum = pick-Fair.kept
