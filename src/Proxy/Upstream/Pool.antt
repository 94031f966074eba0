-- ===== src/Proxy/Upstream/Pool.antt =====
-- src/proxy/upstream.cpp: the connections that `park` keeps and `take_idle` takes.
use starweb.Base.{
  ℕ, suc, ◌≤◌, ◌<◌, ◌≡◌, refl, ap, Bool, true, false, ◌&&◌, Option, some, List, [], ◌∷◌, ◌++◌,
  arith, length, Bool-cases, inl, inr,
}
use starweb.Base.Int.{ℤ, pos, ◌-ℤ◌, ltb_ℤ, leb_ℤ}
use starweb.Proxy.Upstream.{Idle, idle_lifetime, take_newest, without_oldest, park}

without_oldest-length :
    (x : Idle) (idle : List Idle) → length (without_oldest (x ∷ idle)) ≡ length idle
without_oldest-length x [] = refl
without_oldest-length x (y ∷ idle) = ap suc (without_oldest-length y idle)

head_stays :
    (x : Idle) (idle : List Idle)
    → 0 < length idle
    → (rest : List Idle) × (without_oldest (x ∷ idle) ≡ x ∷ rest)
head_stays x [] h = absurd (omega arith)
head_stays x (y ∷ idle) h = (without_oldest (y ∷ idle), refl)

park-length :
    (k conn : ℕ) (now : ℤ) (idle : List Idle)
    → length idle ≤ k
    → length (park (pos k) conn now idle) ≤ k
unfolding park
park-length k conn now idle h =
    ground (arith, without_oldest-length (record { conn = conn; since = now }) idle)

park_head :
    (k conn : ℕ) (now : ℤ) (idle : List Idle)
    → 0 < k
    → (rest : List Idle) × (park (pos k) conn now idle ≡ record { conn = conn; since = now } ∷ rest)
unfolding park
park_head k conn now idle z =
    let keeps : leb_ℤ (pos k) (pos 0) ≡ false = ground arith in
    elim (Bool-cases (ltb_ℤ (pos k) (pos (suc (length idle))))) [
      | inr n ↦ (idle, rw (keeps, n) refl)
      | inl n ↦ rw (keeps, n) (head_stays (record { conn = conn; since = now }) idle (ground arith))
    ]

-- A call of `park` or of `take_idle`.
pub data Call : Type 0 where
  parks : (conn : ℕ) (now : ℤ) → Call
  takes : (now : ℤ) → Call

module _ (quiet : ℕ → Bool) where
  -- The connection is young enough, and quiet.
  abbrev pub Usable : ℤ → Idle → Type 0
  Usable now item = (ltb_ℤ (now -ℤ item.since) idle_lifetime ≡ true) × (quiet item.conn ≡ true)

  -- The connection was parked, is young enough and quiet; it and all newer ones leave the pool, and the older
  -- ones stay.
  pub record Found (now : ℤ) (idle rest : List Idle) (found : ℕ) : Type 0 where
    pub newer : List Idle
    pub item : Idle
    pub split : idle ≡ newer ++ item ∷ rest
    pub same : item.conn ≡ found
    pub young : ltb_ℤ (now -ℤ item.since) idle_lifetime ≡ true
    pub is_quiet : quiet item.conn ≡ true

  skip :
      (now : ℤ) (x : Idle) (idle rest : List Idle) (conn : ℕ)
      → Found now idle rest conn
      → Found now (x ∷ idle) rest conn
  skip now x idle rest conn f = record {
    newer = x ∷ f.newer;
    item = f.item;
    split = ap (◌∷◌ x) (f.split);
    same = f.same;
    young = f.young;
    is_quiet = f.is_quiet;
  }

  -- A connection that `take_idle` gives is one of those in the pool, is young enough and quiet; it and all
  -- newer ones leave the pool, and the older ones stay.
  pub take_newest-Found :
      (now : ℤ) (idle rest : List Idle) (conn : ℕ)
      → take_newest quiet now idle ≡ (some conn, rest)
      → Found now idle rest conn
  unfolding take_newest
  take_newest-Found now [] rest conn h = absurd (cc)
  take_newest-Found now (x ∷ idle) rest conn h =
      elim (Bool-cases (ltb_ℤ (now -ℤ x.since) idle_lifetime && quiet x.conn)) [
        | inl u ↦
            let e : ◌≡◌ {A = Option ℕ × List Idle} (some x.conn, idle) (some conn, rest) =
              rw u at h in
            record {
              newer = [];
              item = x;
              split = ap (◌∷◌ x) (ap (λ r. r.1) e);
              same = cc (ap (λ r. r.0) e);
              young = ground arith;
              is_quiet = ground arith;
            }
        | inr u ↦ skip now x idle rest conn (take_newest-Found now idle rest conn (rw u at h))
      ]

  take_newest-length :
      (now : ℤ) (idle : List Idle) → length (take_newest quiet now idle).1 ≤ length idle
  unfolding take_newest
  take_newest-length now [] = omega arith
  take_newest-length now (x ∷ idle) =
      elim (Bool-cases (ltb_ℤ (now -ℤ x.since) idle_lifetime && quiet x.conn)) [
        | inl u ↦ rw (u, take_newest) (omega arith)
        | inr u ↦ rw (u, take_newest) (omega (arith, take_newest-length now idle))
      ]

  unfoldable pub after_call : ℤ → Call → List Idle → List Idle
  after_call keepalive (parks conn now) idle = park keepalive conn now idle
  after_call keepalive (takes now) idle = (take_newest quiet now idle).1

  unfoldable pub after_calls : ℤ → List Call → List Idle → List Idle
  after_calls keepalive [] idle = idle
  after_calls keepalive (c ∷ calls) idle = after_calls keepalive calls (after_call keepalive c idle)

  after_calls_bounded :
      (k : ℕ) (calls : List Call) (idle : List Idle)
      → length idle ≤ k
      → length (after_calls (pos k) calls idle) ≤ k
  unfolding after_call after_calls
  after_calls_bounded k [] idle h = h
  after_calls_bounded k (parks conn now ∷ calls) idle h =
      after_calls_bounded k calls _ (park-length k conn now idle h)
  after_calls_bounded k (takes now ∷ calls) idle h =
      after_calls_bounded k calls _ (omega (arith, take_newest-length now idle))

  -- However `park` and `take_idle` are called, a pool that was empty never holds more connections than
  -- `keepalive` says, where that is not negative.
  pub park_bounded : (k : ℕ) (calls : List Call) → length (after_calls (pos k) calls []) ≤ k
  park_bounded k calls = after_calls_bounded k calls [] (omega arith)

  -- A connection that was parked is the next that `take_idle` gives, when connections are kept at all, it
  -- is asked for within the lifetime and the connection is quiet.
  pub take_newest-park :
      (k conn : ℕ) (now later : ℤ) (idle : List Idle)
      → 0 < k
      → ltb_ℤ (later -ℤ now) idle_lifetime ≡ true
      → quiet conn ≡ true
      → (take_newest quiet later (park (pos k) conn now idle)).0 ≡ some conn
  unfolding take_newest
  take_newest-park k conn now later idle z y q =
      let (rest, e) = park_head k conn now idle z in rw e (rw (y, q) refl)
