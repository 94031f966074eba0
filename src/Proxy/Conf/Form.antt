-- ===== src/Proxy/Conf/Form.antt =====
-- src/proxy/config.cpp: the form of the configurations that the builder makes.
pub mod Pools
pub mod Sites
pub mod Locations
pub mod Hosts
pub mod Passes
pub mod Whole
use starweb.Base.{
  ℕ, zero, suc, ◌≤◌, ◌<◌, ◌^◌, ◌≡◌, ◌⊎◌, Bool, true, false, List, [], ◌∷◌, length, All,
}
use starweb.Base.Int.{pos, pos_part}
use starweb.Proxy.{Peer, UpstreamConfig, Listen, Location, Server, Config}
use starweb.Proxy.Conf.Build.Locations.{has_location, is_path, no_pass}
use starweb.Proxy.Conf.Build.Servers.{has_port}
use starweb.Proxy.Conf.Build.Upstreams.{has_peer}

abbrev pub IsPort : ℕ → Type 0
IsPort port = (1 ≤ port) × (port < 2 ^ 16)

abbrev pub GoodPeer : Peer → Type 0
GoodPeer p = (1 ≤ p.port) × (p.port < 2 ^ 16) × (1 ≤ pos_part p.weight)

-- An upstream with a peer, whose peers have a port and a positive weight.
abbrev pub GoodUpstream : UpstreamConfig → Type 0
GoodUpstream u = (has_peer u ≡ true) × All GoodPeer u.peers

-- The location passes requests to one of `n` upstreams.
abbrev pub Passes : ℕ → Location → Type 0
Passes n l =
    (l.proxy ≡ true)
    × ((i : ℕ) × (l.pass.upstream ≡ pos i) × (i < n))
    × (l.root ≡ [])
    × (l.return_code ≡ pos 0)

-- The location answers with a code.
abbrev pub Replies : Location → Type 0
Replies l =
    (l.proxy ≡ false)
    × (l.root ≡ [])
    × ((code : ℕ) × (l.return_code ≡ pos code) × (100 ≤ code) × (code < 600))

-- The location has only its root, which may be no text.
abbrev pub Serves : Location → Type 0
Serves l = (l.proxy ≡ false) × (l.return_code ≡ pos 0)

abbrev pub Handled : ℕ → Location → Type 0
Handled n l = Passes n l ⊎ (Replies l ⊎ Serves l)

abbrev pub GoodLocation : ℕ → Location → Type 0
GoodLocation n l = (is_path l.path ≡ true) × Handled n l

-- No two locations have the same modifier and path.
abbrev pub Distinct : List Location → Type 0
Distinct [] = Unit
Distinct (l ∷ ls) = (has_location l.kind l.path ls ≡ false) × Distinct ls

abbrev pub DistinctPorts : List Listen → Type 0
DistinctPorts [] = Unit
DistinctPorts (l ∷ ls) = (has_port l.port ls ≡ false) × DistinctPorts ls

abbrev pub GoodListen : Listen → Type 0
GoodListen l = IsPort l.port

-- A server of a configuration with `n` upstreams.
abbrev pub GoodServer : ℕ → Server → Type 0
GoodServer n s =
    All GoodListen s.listens
    × DistinctPorts s.listens
    × All (GoodLocation n) s.locations
    × Distinct s.locations

abbrev pub WellFormed : Config → Type 0
WellFormed cfg =
    All GoodUpstream cfg.upstreams
    × (1 ≤ length cfg.servers)
    × All (GoodServer (length cfg.upstreams)) cfg.servers
