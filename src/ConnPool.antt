-- ===== src/ConnPool.antt =====
-- src/browser/conn_pool.cpp: the idle connections that the browser keeps for each origin. Each operation
-- runs under one mutex, as one step. A connection is its number; whether its descriptor is valid and whether
-- it is still usable are parameters. A time is a number of seconds. A queue has the newest first.
pub mod Bound
mod Tests
use starweb.Base.{
  ℕ, suc, Bool, true, false, ◌&&◌, Option, none, some, List, [], ◌∷◌, if◌then◌else◌, leb, length,
}
use starweb.Base.Bytes.{Bytes}
use starweb.Base.Dict.{Dict, lookup, insert, erase}
use starweb.Base.Int.{ℤ, pos, ◌-ℤ◌, ltb_ℤ}

abbrev pub idle_timeout : ℤ
idle_timeout = pos 10

abbrev pub max_per_origin : ℕ
max_per_origin = 8

pub record Entry : Type 0 where
  pub conn : ℕ
  pub since : ℤ

abbrev pub Pool : Type 0
Pool = Dict (List Entry)

abbrev pub expired : ℤ → Entry → Bool
expired now e = ltb_ℤ idle_timeout (now -ℤ e.since)

abbrev pub unless_last : Bool → Entry → List Entry → List Entry
unless_last true e [] = []
unless_last true e (x ∷ older) = e ∷ x ∷ older
unless_last false e older = e ∷ older

-- The oldest go while they are expired.
unfoldable pub prune : ℤ → List Entry → List Entry
prune now [] = []
prune now (e ∷ older) = unless_last (expired now e) e (prune now older)

-- The oldest goes.
unfoldable pub pop_front : List Entry → List Entry
pop_front [] = []
pop_front (e ∷ []) = []
pop_front (e ∷ x ∷ older) = e ∷ pop_front (x ∷ older)

module _ (usable : ℕ → Bool) where
  -- From the newest on, the first that is usable; those before it are closed.
  unfoldable pub first_usable : List Entry → Option (ℕ × List Entry)
  first_usable [] = none
  first_usable (e ∷ older) =
      let rest = first_usable older in if usable e.conn then some (e.conn, older) else rest

  unfoldable pub acquire : ℤ → Bytes → Pool → Option ℕ × Pool
  acquire now key pool = elim (lookup key pool) [
    | none ↦ (none, pool)
    | some q ↦ elim (first_usable (prune now q)) [
      | none ↦ (none, erase key pool)
      | some found ↦ (some found.0, insert key found.1 pool)
    ]
  ]

abbrev pub queue_of : Option (List Entry) → List Entry
queue_of none = []
queue_of (some q) = q

-- The clock is read for the pruning, and again for the new entry.
unfoldable pub release : (ℕ → Bool) → ℤ → ℤ → Bytes → ℕ → Pool → Pool
release valid now since key conn pool =
    let q = prune now (queue_of (lookup key pool)) in
    let room = if leb max_per_origin (length q) then pop_front q else q in
    let e : Entry = record { conn = conn; since = since } in
    if valid conn then insert key (e ∷ room) pool else pool

abbrev pub clear : Pool → Pool
clear pool = []
