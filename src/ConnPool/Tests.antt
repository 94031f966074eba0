-- ===== src/ConnPool/Tests.antt =====
-- Runs of the browser's connection pool.
use starweb.Base.{ℕ, ◌≤◌, ◌≡◌, refl, Bool, true, false, some, [], ◌∷◌, length, List, ◌==◌, ◌%◌}
use starweb.Base.Bytes.{codes, equal}
use starweb.Base.Int.{pos, ◌-ℤ◌, ltb_ℤ}
use starweb.ConnPool.{Pool, max_per_origin, idle_timeout, acquire, release}
use starweb.ConnPool.Bound.{
  Call, acquires, releases, clears, kept, after_all, after_all_bounded, acquire_others,
  acquire-release,
}

abbrev always : ℕ → Bool
always n = true

abbrev even_ones : ℕ → Bool
even_ones n = n % 2 == 0

abbrev calls : List Call
calls =
    releases (pos 0) (pos 0) (codes "a") 4
    ∷ releases (pos 1) (pos 1) (codes "a") 5
    ∷ acquires (pos 2) (codes "a")
    ∷ clears
    ∷ releases (pos 3) (pos 3) (codes "b") 6
    ∷ []

abbrev pool : Pool
pool = (codes "a", record { conn = 4; since = pos 0 } ∷ []) ∷ []

after_all_bounded_example :
    length (kept (codes "b") (after_all always even_ones calls [])) ≤ max_per_origin
after_all_bounded_example = after_all_bounded always even_ones calls (codes "b")

differ : equal (codes "b") (codes "a") ≡ false
unfolding equal
differ = refl

acquire_others_example :
    (kept (codes "a") (acquire even_ones (pos 2) (codes "b") pool).1 ≡ kept (codes "a") pool)
    × (kept (codes "a") (release always (pos 2) (pos 2) (codes "b") 6 pool) ≡ kept (codes "a") pool)
acquire_others_example =
    acquire_others always even_ones (pos 2) (pos 2) (codes "b") (codes "a") 6 pool differ

young : ltb_ℤ idle_timeout (pos 7 -ℤ pos 3) ≡ false
unfolding ◌-ℤ◌
young = refl

acquire-release_example :
    (acquire even_ones (pos 7) (codes "a") (release always (pos 2) (pos 3) (codes "a") 6 pool)).0
    ≡ some 6
acquire-release_example =
    acquire-release always even_ones (pos 2) (pos 3) (pos 7) (codes "a") 6 pool refl refl young
