-- ===== src/ConnPool/Bound.antt =====
-- src/browser/conn_pool.cpp: how many connections are kept, and which one comes back.
use starweb.Base.{
  ℕ, suc, ◌≤◌, ◌<◌, ◌≡◌, refl, ap, Bool, true, false, Option, none, some, List, [], ◌∷◌,
  if◌then◌else◌, leb, length, arith, Bool-cases, Option-cases, inl, inr,
}
use starweb.Base.Bytes.{Bytes, equal}
use starweb.Base.Dict.{lookup, insert, erase, lookup-insert, lookup-insert_self, lookup-erase}
use starweb.Base.Int.{ℤ, ◌-ℤ◌, ltb_ℤ}
use starweb.ConnPool.{
  idle_timeout, max_per_origin, Entry, Pool, expired, unless_last, prune, pop_front, first_usable,
  acquire, queue_of, release, clear,
}

unless_last-length :
    (b : Bool) (e : Entry) (older : List Entry)
    → length (unless_last b e older) ≤ suc (length older)
unless_last-length true e [] = omega arith
unless_last-length true e (x ∷ older) = omega arith
unless_last-length false e older = omega arith

prune-length : (now : ℤ) (q : List Entry) → length (prune now q) ≤ length q
unfolding prune
prune-length now [] = omega arith
prune-length now (e ∷ q) =
    omega (arith, unless_last-length (expired now e) e (prune now q), prune-length now q)

pop_front-length : (e : Entry) (q : List Entry) → length (pop_front (e ∷ q)) ≡ length q
unfolding pop_front
pop_front-length e [] = refl
pop_front-length e (x ∷ q) = ap suc (pop_front-length x q)

room-length :
    (q : List Entry)
    → length q ≤ max_per_origin
    → length (if leb max_per_origin (length q) then pop_front q else q) < max_per_origin
room-length [] h = ground arith
room-length (e ∷ q) h = ground (arith, pop_front-length e q)

abbrev rest_of : Option (ℕ × List Entry) → List Entry
rest_of none = []
rest_of (some found) = found.1

first_usable-length :
    (usable : ℕ → Bool) (q rest : List Entry) (conn : ℕ)
    → first_usable usable q ≡ some (conn, rest)
    → length rest < length q
unfolding first_usable
first_usable-length usable [] rest conn h = absurd (cc)
first_usable-length usable (e ∷ q) rest conn h = elim (Bool-cases (usable e.conn)) [
  | inl u ↦ let same : q ≡ rest = ap rest_of (rw u at h) in omega (arith, ap length same)
  | inr u ↦ omega (arith, first_usable-length usable q rest conn (rw u at h))
]

-- What is kept for an origin.
abbrev pub kept : Bytes → Pool → List Entry
kept key pool = queue_of (lookup key pool)

-- An operation on the pool.
pub data Call : Type 0 where
  acquires : (now : ℤ) (key : Bytes) → Call
  releases : (now since : ℤ) (key : Bytes) (conn : ℕ) → Call
  clears : Call

module _ (valid usable : ℕ → Bool) where
  unfoldable pub after : Call → Pool → Pool
  after (acquires now key) pool = (acquire usable now key pool).1
  after (releases now since key conn) pool = release valid now since key conn pool
  after clears pool = clear pool

  unfoldable pub after_all : List Call → Pool → Pool
  after_all [] pool = pool
  after_all (c ∷ calls) pool = after_all calls (after c pool)

  abbrev Small : Pool → Type 0
  Small pool = (key : Bytes) → length (kept key pool) ≤ max_per_origin

  insert-Small :
      (key : Bytes) (q : List Entry) (pool : Pool)
      → length q ≤ max_per_origin
      → Small pool
      → Small (insert key q pool)
  insert-Small key q pool l s k =
      rw (lookup-insert key k q pool)
        (elim (Bool-cases (equal key k)) [ inl e ↦ rw e l | inr e ↦ rw e (s k) ])

  erase-Small : (key : Bytes) (pool : Pool) → Small pool → Small (erase key pool)
  erase-Small key pool s k =
      rw (lookup-erase key k pool)
        (elim (Bool-cases (equal key k)) [ inl e ↦ rw e (omega arith) | inr e ↦ rw e (s k) ])

  acquire-Small :
      (now : ℤ) (key : Bytes) (pool : Pool) → Small pool → Small (acquire usable now key pool).1
  unfolding acquire
  acquire-Small now key pool s = elim (Option-cases (lookup key pool)) [
    | inl e ↦ rw (e, acquire) s
    | inr (q, e) ↦ elim (Option-cases (first_usable usable (prune now q))) [
      | inl f ↦ rw (e, acquire) (rw f (erase-Small key pool s))
      | inr (found, f) ↦
          let fits : length q ≤ max_per_origin = rw e at (s key) in
          rw (e, acquire)
            (rw f (
              insert-Small key found.1 pool
                (omega (
                  arith,
                  first_usable-length usable (prune now q) found.1 found.0 f,
                  prune-length now q,
                  fits,
                ))
                s))
    ]
  ]

  release-Small :
      (now since : ℤ) (key : Bytes) (conn : ℕ) (pool : Pool)
      → Small pool
      → Small (release valid now since key conn pool)
  unfolding release
  release-Small now since key conn pool s = elim (Bool-cases (valid conn)) [
    | inr v ↦ rw (v, release) s
    | inl v ↦
        let q = prune now (kept key pool) in
        rw (v, release)
          (insert-Small key _ pool
            (room-length q (omega (arith, prune-length now (kept key pool), s key))) s)
  ]

  after_all-Small : (calls : List Call) (pool : Pool) → Small pool → Small (after_all calls pool)
  unfolding after_all after
  after_all-Small [] pool s = s
  after_all-Small (acquires now key ∷ calls) pool s =
      after_all-Small calls _ (acquire-Small now key pool s)
  after_all-Small (releases now since key conn ∷ calls) pool s =
      after_all-Small calls _ (release-Small now since key conn pool s)
  after_all-Small (clears ∷ calls) pool s =
      after_all-Small calls [] (λ key. unfold lookup in omega arith)

  -- However `acquire`, `release` and `clear` follow each other from an empty pool, no origin ever has more than
  -- eight connections in it.
  pub after_all_bounded :
      (calls : List Call) (key : Bytes) → length (kept key (after_all calls [])) ≤ max_per_origin
  after_all_bounded calls key = after_all-Small calls [] (λ k. unfold lookup in omega arith) key

  acquire_other :
      (now : ℤ) (key other : Bytes) (pool : Pool)
      → equal key other ≡ false
      → kept other (acquire usable now key pool).1 ≡ kept other pool
  unfolding acquire
  acquire_other now key other pool h = elim (Option-cases (lookup key pool)) [
    | inl e ↦ rw (e, acquire) refl
    | inr (q, e) ↦ elim (Option-cases (first_usable usable (prune now q))) [
      | inl f ↦ rw (e, acquire) (rw f (rw (lookup-erase key other pool) (rw h refl)))
      | inr (found, f) ↦
          rw (e, acquire) (rw f (rw (lookup-insert key other found.1 pool) (rw h refl)))
    ]
  ]

  release_other :
      (now since : ℤ) (key other : Bytes) (conn : ℕ) (pool : Pool)
      → equal key other ≡ false
      → kept other (release valid now since key conn pool) ≡ kept other pool
  unfolding release
  release_other now since key other conn pool h = elim (Bool-cases (valid conn)) [
    | inr v ↦ rw (v, release) refl
    | inl v ↦ rw (v, release) (rw (lookup-insert key other _ pool) (rw h refl))
  ]

  -- `acquire` and `release` for one origin leave what is kept for every other origin as it was.
  pub acquire_others :
      (now since : ℤ) (key other : Bytes) (conn : ℕ) (pool : Pool)
      → equal key other ≡ false
      → (kept other (acquire usable now key pool).1 ≡ kept other pool)
        × (kept other (release valid now since key conn pool) ≡ kept other pool)
  acquire_others now since key other conn pool h =
      (acquire_other now key other pool h, release_other now since key other conn pool h)

  prune_front :
      (later : ℤ) (e : Entry) (q : List Entry)
      → expired later e ≡ false
      → prune later (e ∷ q) ≡ e ∷ prune later q
  unfolding prune
  prune_front later e q y = rw y refl

  front_usable :
      (e : Entry) (q : List Entry)
      → usable e.conn ≡ true
      → first_usable usable (e ∷ q) ≡ some (e.conn, q)
  unfolding first_usable
  front_usable e q u = rw u refl

  acquire_front :
      (later : ℤ) (key : Bytes) (conn : ℕ) (since : ℤ) (q : List Entry) (pool : Pool)
      → usable conn ≡ true
      → ltb_ℤ idle_timeout (later -ℤ since) ≡ false
      → (acquire usable later key (insert key (record { conn = conn; since = since } ∷ q) pool)).0
        ≡ some conn
  unfolding acquire
  acquire_front later key conn since q pool u y =
      let e : Entry = record { conn = conn; since = since } in
      rw (lookup-insert_self key (e ∷ q) pool, acquire)
        (rw (prune_front later e q y) (rw (front_usable e (prune later q) u) refl))

  -- A valid connection that was released is the next that `acquire` gives for its origin, while it is usable
  -- and has not expired.
  pub acquire-release :
      (now since later : ℤ) (key : Bytes) (conn : ℕ) (pool : Pool)
      → valid conn ≡ true
      → usable conn ≡ true
      → ltb_ℤ idle_timeout (later -ℤ since) ≡ false
      → (acquire usable later key (release valid now since key conn pool)).0 ≡ some conn
  unfolding release
  acquire-release now since later key conn pool v u y =
      rw (v, release) (acquire_front later key conn since _ pool u y)
