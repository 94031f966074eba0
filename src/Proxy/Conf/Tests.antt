-- ===== src/Proxy/Conf/Tests.antt =====
-- Runs of the proxy's configuration: texts, values and whole files.
use starweb.Base.{
  ℕ, ◌≤◌, ◌≡◌, refl, Bool, true, false, Option, none, some, List, [], ◌∷◌, ◌++◌, arith, ◌<◌, ◌*◌,
  ◌^◌, ◌↔◌, All,
}
use starweb.Base.Int.{ℤ, pos, negsuc}
use starweb.Proxy.{Config, Server, Location}
use starweb.Proxy.Conf.Ports.Uses.{servers_used, defaults_at, stars_at, names_at, Unique}
use starweb.Proxy.Conf.Ports.Agree.{validate-Unique}
use starweb.Proxy.Conf.Dump.{dump_config}
use starweb.Proxy.Conf.Dump.Total.{is_some, dump_config_loaded}
use starweb.Proxy.Conf.Lexer.Quote.{run-quote}
use starweb.Proxy.Conf.Glob.{wildmatch, Matches, wildmatch_iff}
use starweb.Proxy.Conf.Value.Bounds.{parse_printed_iff, parse_size_units}
use starweb.Proxy.Conf.Tree.Fuel.{Ends, parse_block-Ends}
use starweb.Proxy.Conf.Form.{WellFormed}
use starweb.Proxy.Conf.Form.Whole.{load_config-WellFormed}
use starweb.Proxy.Conf.{each, Result, ok, error, value_or}
use starweb.Proxy.Conf.Lexer.{
  at, step_plain, step, run, tokenize, all_plain, escape_all, quote, word, semi, token, plain,
  prepend, Token,
}
use starweb.Proxy.Conf.Tree.{
  take_args, emit, parse_block, all_files, parse_file, Files, Node, node, no_nodes, from_list,
}
use starweb.Proxy.Conf.Value.{
  digits_only, digits_front, time_unit, parse_duration, size_unit, parse_size, parse_port,
  host_bytes, split_address, parse_host_port, day_ms,
}
use starweb.Proxy.Conf.Build.{
  misplaced, simple, block, once, duration, variable_front, check_variables, header_bytes, has_rule,
  set_header_rule, set_timeout, inheritable, inherited,
}
use starweb.Proxy.Conf.Build.Upstreams.{
  has_upstream, with_param, peer_param, address_of, port_of, add_peer, set_keepalive,
  upstream_directive, build_upstream,
}
use starweb.Proxy.Conf.Build.Pass.{
  pass_scheme, last_upstream, by_name, choose_upstream, build_proxy_pass, Shared,
}
use starweb.Proxy.Conf.Build.Locations.{
  drop_slashes, once_simple, site_pass, site_root, site_index, site_return, own_directive,
  site_directive, match_of, has_location, build_location,
}
use starweb.Proxy.Conf.Build.Servers.{
  listen_param, has_port, listen_port, add_listen, plain_name, is_server_name, add_name, add_names,
  set_certificate, host_own, host_directive, build_server,
}
use starweb.Proxy.Conf.Ports.{
  find_port, set_port, use_of, use_name, use_port, check_certificates, check_server, check_servers,
  validate,
}
use starweb.Proxy.Conf.Build.Top.{
  frame_once, set_access_log, set_timeout_ms, set_body_size, set_trusted, add_upstream, frame_own,
  frame_directive, build_stwp, top_directive, build, load_config, new_config,
}
use starweb.Base.Bytes.{
  equal, find_if, find_last_if, starts_with, find_sub, last_or_0, pop_back, Bytes, codes,
}
use starweb.Base.Decimal.{to_string, digits_value}
use starweb.Base.Dict.{lookup, insert}
use starweb.Url.{format_host}

abbrev text : Bytes
text =
    codes
      "stwp { upstream app { server 10.0.0.1:9000 weight=2; } server { listen 80 default_server; server_name a.b; location / { proxy_pass moon://app/x; } location = /p { return 404; } location /f { root /srv/; } } }"

abbrev files : Files
files = record {
  is_relative = λ path. true;
  parent_path = λ path. [];
  filename = λ path. path;
  join = λ dir path. path;
  is_regular_file = λ path. false;
  directory = λ path. [];
  content = λ path. some text;
  sort = λ paths. paths;
}

abbrev loaded : Result Config
loaded = load_config (λ path. false) none files (codes "c")

abbrev site : Config
site = value_or (new_config []) loaded

loads : loaded ≡ ok site
unfolding each at step_plain step run tokenize all_plain escape_all quote take_args emit parse_block
    all_files parse_file digits_only digits_front time_unit parse_duration size_unit parse_size
    parse_port host_bytes split_address parse_host_port misplaced simple block once duration
    variable_front check_variables header_bytes has_rule set_header_rule set_timeout inheritable
    has_upstream with_param peer_param address_of port_of add_peer set_keepalive upstream_directive
    build_upstream pass_scheme last_upstream by_name choose_upstream build_proxy_pass drop_slashes
    once_simple site_pass site_root site_index site_return own_directive site_directive match_of
    has_location build_location listen_param has_port listen_port add_listen plain_name
    is_server_name add_name add_names set_certificate host_own host_directive build_server find_port
    set_port use_of use_name use_port check_certificates check_server check_servers validate
    frame_once set_access_log set_timeout_ms set_body_size set_trusted add_upstream frame_own
    frame_directive build_stwp top_directive build load_config equal find_if find_last_if
    starts_with find_sub last_or_0 pop_back to_string digits_value lookup insert format_host
loads = refl

load_config-WellFormed_example : WellFormed site
load_config-WellFormed_example = load_config-WellFormed (λ path. false) none files (codes "c") loads

dump_config_loaded_example : is_some (dump_config site) ≡ true
dump_config_loaded_example = dump_config_loaded (λ path. false) none files (codes "c") loads

abbrev server_at : Bytes → Bool → Server
server_at name default = record {
  listens = record { port = 80; star = false; default_server = default } ∷ [];
  names = name ∷ [];
  cert = [];
  key = [];
  locations = [];
  file = [];
  line = pos 1;
}

abbrev two_servers : List Server
two_servers = server_at (codes "a") true ∷ server_at (codes "b") false ∷ []

accepts : validate (λ path. false) two_servers ([] ∷ [] ∷ []) [] none none ≡ ok tt
unfolding validate check_servers check_server check_certificates use_port use_name use_of find_port
    set_port each equal
accepts = refl

validate-Unique_example :
    (defaults_at 80 (servers_used two_servers []) ≤ 1)
    × ((star : Bool) × All (λ s. s ≡ star) (stars_at 80 (servers_used two_servers [])))
    × Unique (names_at 80 (servers_used two_servers []))
validate-Unique_example =
    validate-Unique (λ path. false) two_servers ([] ∷ [] ∷ []) [] none none 80 accepts

run-quote_example :
    run (codes "f") plain 1 (quote (codes "a \"b") ++ b';' ∷ [])
    ≡ prepend (token word (codes "a \"b") 1 ∷ []) (run (codes "f") plain 1 (b';' ∷ []))
run-quote_example = run-quote (codes "f") 1 (codes "a \"b") b';' [] refl

wildmatch_iff_example :
    (wildmatch (codes "*.conf") (codes "a.conf") ≡ true) ↔ Matches (codes "*.conf") (codes "a.conf")
wildmatch_iff_example = wildmatch_iff (codes "*.conf") (codes "a.conf")

parse_printed_iff_example :
    ((parse_port (to_string 8090) ≡ some 8090) ↔ ((1 ≤ 8090) × (8090 < 2 ^ 16)))
    × ((parse_duration (to_string 8090 ++ codes "ms") ≡ some 8090) ↔ (8090 ≤ day_ms))
parse_printed_iff_example = parse_printed_iff 8090

parse_size_units_example :
    (2 < 2 ^ 34 → parse_size (to_string 2 ++ codes "g") ≡ some (2 * 2 ^ 30))
    × (2 ^ 34 ≤ 2 → (m : ℕ) × (parse_size (to_string 2 ++ codes "g") ≡ some m) × (m < 2 * 2 ^ 30))
parse_size_units_example = parse_size_units 2 (omega arith)

abbrev two_tokens : List Token
two_tokens = token word (codes "daemon") 1 ∷ token semi [] 1 ∷ []

parse_block-Ends_example : Ends 2 (parse_block (λ n. ok []) (codes "f") 1 3 two_tokens false)
parse_block-Ends_example =
    parse_block-Ends (λ n. ok []) (codes "f") 1 3 two_tokens false (omega arith)

-- A root of no text is accepted, and leaves a location with no handler at all.
abbrev empty_root : List Node
empty_root = node (codes "root") ([] ∷ []) no_nodes false [] 1 ∷ []

abbrev bare_location : Result (List Location × Shared)
bare_location =
    build_location inherited
      (node (codes "location") (codes "/" ∷ []) (from_list empty_root) true [] 1)
      ([], record { upstreams = []; first_star_pass = none })

abbrev handler_of : Result (List Location × Shared) → Option (Bool × ℤ × Bytes × ℤ)
handler_of (ok (l ∷ ls, pool)) = some (l.proxy, l.pass.upstream, l.root, l.return_code)
handler_of (ok ([], pool)) = none
handler_of (error e) = none

bare_location_handler : handler_of bare_location ≡ some (false, negsuc 0, [], pos 0)
unfolding build_location site_directive inheritable own_directive site_root once_simple simple once
    drop_slashes match_of has_location each lookup insert equal
bare_location_handler = refl
