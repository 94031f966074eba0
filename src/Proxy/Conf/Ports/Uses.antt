-- ===== src/Proxy/Conf/Ports/Uses.antt =====
-- src/proxy/config.cpp: the listens of the servers by port, as `validate` sees them.
use starweb.Base.{ℕ, ◌≡◌, Bool, false, List, [], ◌∷◌, ◌==◌, if◌then◌else◌}
use starweb.Base.Bytes.{Bytes}
use starweb.Proxy.{Listen, Server}
use starweb.Proxy.Conf.Build.{is_any}
use starweb.Proxy.Conf.Ports.{defaults_behind}

-- The listens of the servers, each with its server's names, the last one first.
abbrev pub Uses : Type 0
Uses = List (Listen × List Bytes)

abbrev pub listens_used : List Bytes → List Listen → Uses → Uses
listens_used names [] before = before
listens_used names (l ∷ ls) before = listens_used names ls ((l, names) ∷ before)

abbrev pub servers_used : List Server → Uses → Uses
servers_used [] before = before
servers_used (s ∷ ss) before = servers_used ss (listens_used s.names s.listens before)

-- How many listens on a port have `default_server`.
unfoldable pub defaults_at : ℕ → Uses → ℕ
defaults_at p [] = 0
defaults_at p ((l, names) ∷ us) =
    let rest = defaults_at p us in if l.port == p then defaults_behind l rest else rest

-- Which listens on a port have `star`.
unfoldable pub stars_at : ℕ → Uses → List Bool
stars_at p [] = []
stars_at p ((l, names) ∷ us) =
    let rest = stars_at p us in if l.port == p then l.star ∷ rest else rest

abbrev pub onto : List Bytes → List Bytes → List Bytes
onto [] before = before
onto (n ∷ ns) before = onto ns (n ∷ before)

-- The names that a port has, one for each use.
unfoldable pub names_at : ℕ → Uses → List Bytes
names_at p [] = []
names_at p ((l, names) ∷ us) =
    let rest = names_at p us in if l.port == p then onto names rest else rest

abbrev pub Unique : List Bytes → Type 0
Unique [] = Unit
Unique (n ∷ ns) = (is_any n ns ≡ false) × Unique ns
