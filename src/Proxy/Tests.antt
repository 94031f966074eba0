-- ===== src/Proxy/Tests.antt =====
-- Runs of the proxy's routing and balancing, at concrete configurations.
use starweb.Base.{
  ℕ, ◌≤◌, ◌≡◌, refl, Bool, true, false, some, List, [], ◌∷◌, arith, length, ◌==◌, ◌%◌,
}
use starweb.Base.Bytes.{Bytes, codes, last_or_0, find_last_if, find_if, pop_back}
use starweb.Base.Int.{pos, ◌+ℤ◌, ◌-ℤ◌, ◌≤ℤ◌, ltb_ℤ}
use starweb.Proxy.{Peer, ProxyPass, Match, Location, Server, Config}
use starweb.Proxy.Router.{normalize_host, pick_server, pick_location}
use starweb.Proxy.Router.Best.{pick_server-Chosen}
use starweb.Proxy.Router.Chosen.{Chosen}
use starweb.Proxy.Router.Longest.{location_rank, pick_location-Chosen}
use starweb.Proxy.Router.Named.{server_rank}
use starweb.Proxy.Upstream.{Idle, State, initial, pick, take_newest, park, idle_lifetime}
use starweb.Proxy.Upstream.Choice.{Picked, pick-Picked, pick-weight_sum}
use starweb.Proxy.Upstream.Health.{failures, last_of, failures_down, failures_few}
use starweb.Proxy.Upstream.Pick.{weight_sum}
use starweb.Proxy.Upstream.Pool.{
  Call, parks, takes, after_calls, Found, park_bounded, take_newest-Found, take_newest-park,
}

abbrev no_pass : ProxyPass
no_pass = record { star = false; upstream = pos 0; proxy_host = []; has_uri = false; uri = [] }

abbrev location : Match → Bytes → Location
location kind path = record {
  kind = kind;
  path = path;
  file = [];
  line = pos 1;
  proxy = false;
  pass = no_pass;
  set_headers = [];
  connect_timeout_ms = pos 5000;
  read_timeout_ms = pos 60000;
  root = codes "/srv";
  index = codes "index.html";
  return_code = pos 0;
  return_body = [];
}

abbrev locations : List Location
locations =
    location Match.prefix (codes "/")
    ∷ location Match.prefix (codes "/img/")
    ∷ location Match.exact (codes "/img/logo")
    ∷ []

abbrev server : Bytes → Bool → Server
server name default = record {
  listens = record { port = 8090; star = false; default_server = default } ∷ [];
  names = name ∷ [];
  cert = [];
  key = [];
  locations = locations;
  file = [];
  line = pos 1;
}

abbrev site : Config
site = record {
  path = [];
  error_log = [];
  access_log = [];
  trusted_ca = [];
  keepalive_timeout_ms = pos 20000;
  client_max_body_size = 1048576;
  upstreams = [];
  servers =
      server (codes "other") false
      ∷ server (codes "*.a.org") true
      ∷ server (codes "*.img.a.org") false
      ∷ server (codes "x.a.org") false
      ∷ [];
}

normalize_host_port : normalize_host (codes "Ex.ORG.:80") ≡ codes "ex.org"
unfolding normalize_host last_or_0 find_last_if find_if pop_back
normalize_host_port = refl

pick_server-Chosen_example :
    Chosen
      (server_rank 8090 (codes "b.img.a.org"))
      site.servers
      (pick_server site 8090 (codes "b.img.a.org"))
pick_server-Chosen_example = pick_server-Chosen site 8090 (codes "b.img.a.org")

pick_location-Chosen_example :
    Chosen
      (location_rank (codes "/img/logo"))
      locations
      (pick_location (server (codes "other") false) (codes "/img/logo"))
pick_location-Chosen_example =
    pick_location-Chosen (server (codes "other") false) (codes "/img/logo")

abbrev peer : ℕ → Peer
peer weight = record {
  host = codes "h";
  port = 80;
  weight = pos weight;
  max_fails = pos 2;
  fail_timeout_ms = pos 10000;
}

abbrev peers : List Peer
peers = peer 3 ∷ peer 1 ∷ []

abbrev states : List State
states = initial ∷ initial ∷ []

abbrev tried : List Bool
tried = true ∷ false ∷ []

pick-Picked_example : Picked peers states tried (pos 5) (pick peers states tried (pos 5)).0
pick-Picked_example = pick-Picked peers states tried (pos 5)

pick-weight_sum_example : weight_sum (pick peers states tried (pos 5)).1 ≡ weight_sum states
pick-weight_sum_example = pick-weight_sum peers states tried (pos 5)

in_window : pos 7 -ℤ pos 7 ≤ℤ pos 10000
unfolding ◌-ℤ◌
in_window = omega arith

later_in_window : pos 9 -ℤ pos 7 ≤ℤ pos 10000
unfolding ◌-ℤ◌
later_in_window = omega arith

failures_down_example :
    (failures (peer 1) (pos 7) (pos 9 ∷ []) initial).down_until
    ≡ last_of (pos 7) (pos 9 ∷ []) +ℤ pos 10000
failures_down_example =
    failures_down (peer 1) (pos 7) (pos 9 ∷ []) initial refl refl (in_window, (later_in_window, tt))

failures_few_example :
    ((failures (peer 1) (pos 7) [] initial).down_until ≡ pos 0)
    × ((failures (peer 1) (pos 7) [] initial).fails ≡ pos 1)
    × ((failures (peer 1) (pos 7) [] initial).window_start ≡ pos 7)
failures_few_example =
    failures_few (peer 1) 1 (pos 7) [] initial refl (omega arith) refl (in_window, tt)

abbrev even_ones : ℕ → Bool
even_ones n = n % 2 == 0

abbrev calls : List Call
calls = parks 4 (pos 0) ∷ parks 5 (pos 1) ∷ parks 6 (pos 2) ∷ takes (pos 3) ∷ []

park_bounded_example : length (after_calls even_ones (pos 2) calls []) ≤ 2
park_bounded_example = park_bounded even_ones 2 calls

abbrev pool : List Idle
pool = record { conn = 5; since = pos 2 } ∷ record { conn = 4; since = pos 1 } ∷ []

taken : take_newest even_ones (pos 3) pool ≡ (some 4, [])
unfolding take_newest ◌-ℤ◌
taken = refl

take_newest-Found_example : Found even_ones (pos 3) pool [] 4
take_newest-Found_example = take_newest-Found even_ones (pos 3) pool [] 4 taken

young : ltb_ℤ (pos 3 -ℤ pos 2) idle_lifetime ≡ true
unfolding ◌-ℤ◌
young = refl

take_newest-park_example : (take_newest even_ones (pos 3) (park (pos 1) 4 (pos 2) pool)).0 ≡ some 4
take_newest-park_example =
    take_newest-park even_ones 1 4 (pos 2) (pos 3) pool (omega arith) young refl
