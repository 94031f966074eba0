-- ===== src/Proxy/Upstream/Health.antt =====
-- src/proxy/upstream.cpp: how many failures `report` takes before a peer is down.
use starweb.Base.{
  ℕ, suc, ◌+◌, ◌<◌, ◌≡◌, refl, sym, ap, ◌∙◌, subst, true, false, ◌&&◌, ◌||◌, List, [], ◌∷◌, arith,
  length, All, ◌==◌, Bool-cases, inl, inr,
}
use starweb.Base.Int.{ℤ, pos, ◌+ℤ◌, ◌-ℤ◌, ◌≤ℤ◌, ltb_ℤ, leb_ℤ, int_laws}
use starweb.Proxy.{Peer}
use starweb.Proxy.Upstream.{State, opened, report}

-- Failures at a time and at the later ones, one after the other.
unfoldable pub failures : Peer → ℤ → List ℤ → State → State
failures p t [] s = report p t false s
failures p t (t' ∷ ts) s = failures p t' ts (report p t false s)

unfoldable pub last_of : ℤ → List ℤ → ℤ
last_of t [] = t
last_of t (t' ∷ ts) = last_of t' ts

-- The time is still in the window that begins at `start`.
abbrev pub Within : Peer → ℤ → ℤ → Type 0
Within p start t = t -ℤ start ≤ℤ p.fail_timeout_ms

-- n failures have been counted in the window that begins at `start`.
record Counted (n : ℕ) (start until : ℤ) (s : State) : Type 0 where
  fails : s.fails ≡ pos n
  start_of : 0 < n → s.window_start ≡ start
  down : s.down_until ≡ until

+ℤ_one : (n : ℕ) → pos n +ℤ pos 1 ≡ pos (suc n)
+ℤ_one n = omega int_laws

-- The same, where the window has been looked at.
record Opened (n : ℕ) (start until : ℤ) (s : State) : Type 0 where
  fails : s.fails ≡ pos n
  start_of : s.window_start ≡ start
  down : s.down_until ≡ until

opened_fresh :
    (p : Peer) (now : ℤ) (s : State)
    → s.fails ≡ pos 0
    → opened now p.fail_timeout_ms s ≡ record s { window_start = now; fails = pos 0 }
opened_fresh p now s e =
    let test : (leb_ℤ s.fails (pos 0) && leb_ℤ (pos 0) s.fails
          || ltb_ℤ p.fail_timeout_ms (now -ℤ s.window_start))
        ≡ true =
      ground (arith, e) in
    rw (test, opened) refl

opened-Within :
    (p : Peer) (n : ℕ) (start now : ℤ) (s : State)
    → s.fails ≡ pos n
    → 0 < n
    → s.window_start ≡ start
    → Within p start now
    → opened now p.fail_timeout_ms s ≡ s
opened-Within p n start now s e z b w =
    let test : (leb_ℤ s.fails (pos 0) && leb_ℤ (pos 0) s.fails
          || ltb_ℤ p.fail_timeout_ms (now -ℤ s.window_start))
        ≡ false =
      ground (arith, e, b, w) in
    rw (test, opened) refl

opened-Opened :
    (p : Peer) (n : ℕ) (start until now : ℤ) (s : State)
    → Counted n start until s
    → (n ≡ 0 → start ≡ now)
    → Within p start now
    → Opened n start until (opened now p.fail_timeout_ms s)
opened-Opened p n start until now s c z w = elim (Bool-cases (n == 0)) [
  | inl e ↦
      let none_yet : n ≡ 0 = ground arith in
      let fresh : s.fails ≡ pos 0 = c.fails ∙ ap pos none_yet in
      rw (opened_fresh p now s fresh)
        (record { fails = ap pos (sym none_yet); start_of = sym (z none_yet); down = c.down })
  | inr e ↦
      let some_yet : 0 < n = ground arith in
      rw (opened-Within p n start now s (c.fails) some_yet (c.start_of some_yet) w)
        (record { fails = c.fails; start_of = c.start_of some_yet; down = c.down })
]

report-Counted :
    (p : Peer) (m n : ℕ) (start until now : ℤ) (s : State)
    → p.max_fails ≡ pos (suc m)
    → n < m
    → Counted n start until s
    → (n ≡ 0 → start ≡ now)
    → Within p start now
    → Counted (suc n) start until (report p now false s)
unfolding report
report-Counted p m n start until now s e l c z w =
    let o = opened-Opened p n start until now s c z w in
    let s' = opened now p.fail_timeout_ms s in
    let one : s'.fails +ℤ pos 1 ≡ pos (suc n) = ap (λ x. x +ℤ pos 1) (o.fails) ∙ +ℤ_one n in
    let counts : (leb_ℤ p.max_fails (pos 0) && leb_ℤ (pos 0) p.max_fails) ≡ false =
      ground (arith, e) in
    let few : leb_ℤ p.max_fails (s'.fails +ℤ pos 1) ≡ false = ground (arith, e, one) in
    rw (counts, few) (record { fails = one; start_of = λ _. o.start_of; down = o.down })

report-down :
    (p : Peer) (m : ℕ) (start until now : ℤ) (s : State)
    → p.max_fails ≡ pos (suc m)
    → Counted m start until s
    → (m ≡ 0 → start ≡ now)
    → Within p start now
    → (report p now false s).down_until ≡ now +ℤ p.fail_timeout_ms
unfolding report
report-down p m start until now s e c z w =
    let o = opened-Opened p m start until now s c z w in
    let s' = opened now p.fail_timeout_ms s in
    let one : s'.fails +ℤ pos 1 ≡ pos (suc m) = ap (λ x. x +ℤ pos 1) (o.fails) ∙ +ℤ_one m in
    let counts : (leb_ℤ p.max_fails (pos 0) && leb_ℤ (pos 0) p.max_fails) ≡ false =
      ground (arith, e) in
    let enough : leb_ℤ p.max_fails (s'.fails +ℤ pos 1) ≡ true = ground (arith, e, one) in
    rw (counts, enough) refl

failures-Counted :
    (p : Peer) (m n : ℕ) (start until t : ℤ) (ts : List ℤ) (s : State)
    → p.max_fails ≡ pos (suc m)
    → n + length ts < m
    → Counted n start until s
    → (n ≡ 0 → start ≡ t)
    → All (Within p start) (t ∷ ts)
    → Counted (suc (n + length ts)) start until (failures p t ts s)
unfolding failures
failures-Counted p m n start until t [] s e l c z w =
    subst (λ k. Counted (suc k) start until (report p t false s)) (omega arith)
      (report-Counted p m n start until t s e (omega arith) c z (w.0))
failures-Counted p m n start until t (t' ∷ ts) s e l c z w =
    subst (λ k. Counted (suc k) start until (failures p t' ts (report p t false s))) (omega arith)
      (failures-Counted p m (suc n) start until t' ts (report p t false s) e (omega arith)
        (report-Counted p m n start until t s e (omega arith) c z (w.0))
        (λ h. absurd (omega (arith, h))) (w.1))

failures_down_from :
    (p : Peer) (m n : ℕ) (start until t : ℤ) (ts : List ℤ) (s : State)
    → p.max_fails ≡ pos (suc m)
    → n + length ts ≡ m
    → Counted n start until s
    → (n ≡ 0 → start ≡ t)
    → All (Within p start) (t ∷ ts)
    → (failures p t ts s).down_until ≡ last_of t ts +ℤ p.fail_timeout_ms
unfolding failures last_of
failures_down_from p m n start until t [] s e l c z w =
    let all : n ≡ m = omega arith in
    report-down p n start until t s (e ∙ ap (λ k. pos (suc k)) (sym all)) c z (w.0)
failures_down_from p m n start until t (t' ∷ ts) s e l c z w =
    failures_down_from p m (suc n) start until t' ts (report p t false s) e (omega arith)
      (report-Counted p m n start until t s e (omega arith) c z (w.0))
      (λ h. absurd (omega (arith, h))) (w.1)

from_zero : (t : ℤ) (s : State) → s.fails ≡ pos 0 → Counted 0 t s.down_until s
from_zero t s e = record { fails = e; start_of = λ h. absurd (omega (arith, h)); down = refl }

-- A peer that allows m failures in its window, m not 0, and has none counted is down after m failures one
-- after the other, all within the window of the first: from the last of them until the timeout has passed.
pub failures_down :
    (p : Peer) (t : ℤ) (ts : List ℤ) (s : State)
    → p.max_fails ≡ pos (suc (length ts))
    → s.fails ≡ pos 0
    → All (Within p t) (t ∷ ts)
    → (failures p t ts s).down_until ≡ last_of t ts +ℤ p.fail_timeout_ms
failures_down p t ts s e z w =
    failures_down_from p (length ts) 0 t s.down_until t ts s e (omega arith) (from_zero t s z)
      (λ _. refl) w

-- A peer has no failures counted. After fewer failures than it allows, one after the other and within the window of
-- the first, `down_until` is what it was; all the failures have been counted, and the window begins at the first.
pub failures_few :
    (p : Peer) (m : ℕ) (t : ℤ) (ts : List ℤ) (s : State)
    → p.max_fails ≡ pos (suc m)
    → length ts < m
    → s.fails ≡ pos 0
    → All (Within p t) (t ∷ ts)
    → ((failures p t ts s).down_until ≡ s.down_until)
      × ((failures p t ts s).fails ≡ pos (suc (length ts)))
      × ((failures p t ts s).window_start ≡ t)
failures_few p m t ts s e l z w =
    let c =
      failures-Counted p m 0 t s.down_until t ts s e (omega arith) (from_zero t s z) (λ _. refl)
        w in
    (c.down, c.fails ∙ ap (λ k. pos (suc k)) (omega arith), c.start_of (omega arith))
