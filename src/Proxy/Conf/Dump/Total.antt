-- ===== src/Proxy/Conf/Dump/Total.antt =====
-- src/proxy/config.cpp: `dump_config` on the configurations that the builder makes.
use starweb.Base.{
  ℕ, zero, suc, ◌<◌, ◌≡◌, refl, inl, inr, Bool, true, false, Option, none, some, List, [], ◌∷◌,
  length, get_elem?, All, arith, Bool-cases,
}
use starweb.Base.Bytes.{Bytes, is_empty}
use starweb.Proxy.{UpstreamConfig, Location, Server, Config}
use starweb.Proxy.Conf.{ok}
use starweb.Proxy.Conf.Form.{Handled, GoodLocation, GoodServer}
use starweb.Proxy.Conf.Form.Whole.{load_config-WellFormed}
use starweb.Proxy.Conf.Build.Top.{load_config}
use starweb.Proxy.Conf.Dump.{dump_handler, dump_locations, dump_servers, dump_config}
use starweb.Proxy.Conf.Tree.{Files}

get_elem?_within {ℓ} :
    {A : Type ℓ} (xs : List A) (i : ℕ) → i < length xs → (x : A) × (get_elem? xs i ≡ some x)
get_elem?_within [] i h = absurd (omega arith)
get_elem?_within (x ∷ xs) zero h = (x, refl)
get_elem?_within (x ∷ xs) (suc i) h = get_elem?_within xs i (omega arith)

abbrev pub is_some : Option Bytes → Bool
is_some none = false
is_some (some s) = true

text_of : (o : Option Bytes) → is_some o ≡ true → (s : Bytes) × (o ≡ some s)
text_of none h = absurd (cc)
text_of (some s) h = (s, refl)

own_handler :
    (us : List UpstreamConfig) (l : Location) → l.proxy ≡ false → is_some (dump_handler us l) ≡ true
unfolding dump_handler
own_handler us l off = elim (Bool-cases (is_empty l.root)) [
  | inl e ↦ rw (off, e) refl
  | inr e ↦ rw (off, e) refl
]

dump_handler-is_some :
    (us : List UpstreamConfig) (l : Location)
    → Handled (length us) l
    → is_some (dump_handler us l) ≡ true
unfolding dump_handler
dump_handler-is_some us l (inl (on, (i, at, within), root, code)) =
    let (u, e) = get_elem?_within us i within in rw (on, at, e) refl
dump_handler-is_some us l (inr (inl (off, empty, rest))) = own_handler us l off
dump_handler-is_some us l (inr (inr (off, code))) = own_handler us l off

dump_locations-is_some :
    (us : List UpstreamConfig) (ls : List Location)
    → All (GoodLocation (length us)) ls
    → is_some (dump_locations us ls) ≡ true
unfolding dump_locations
dump_locations-is_some us [] h = refl
dump_locations-is_some us (l ∷ ls) ((path, handled), h) =
    let (s, e) = text_of _ (dump_handler-is_some us l handled) in
    let (t, f) = text_of _ (dump_locations-is_some us ls h) in rw (e, f) refl

dump_servers-is_some :
    (us : List UpstreamConfig) (ss : List Server)
    → All (GoodServer (length us)) ss
    → is_some (dump_servers us ss) ≡ true
unfolding dump_servers
dump_servers-is_some us [] h = refl
dump_servers-is_some us (s ∷ ss) ((ports, apart, locs, distinct), h) =
    let (l, e) = text_of _ (dump_locations-is_some us s.locations locs) in
    let (t, f) = text_of _ (dump_servers-is_some us ss h) in rw (e, f) refl

-- `dump_config` prints every configuration that `load_config` accepts; no index of an upstream is out of range.
pub dump_config_loaded :
    (file_exists : Bytes → Bool) (starweb_ca : Option Bytes) (fs : Files) (path : Bytes)
    {cfg : Config}
    → load_config file_exists starweb_ca fs path ≡ ok cfg
    → is_some (dump_config cfg) ≡ true
unfolding dump_config
dump_config_loaded file_exists starweb_ca fs path {cfg = cfg} loaded =
    let (ups, some_server, good) = load_config-WellFormed file_exists starweb_ca fs path loaded in
    let (s, e) = text_of _ (dump_servers-is_some cfg.upstreams cfg.servers good) in rw e refl
