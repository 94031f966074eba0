-- ===== src/Proxy/Conf/Dump.antt =====
-- src/proxy/config.cpp: `dump_config`. A read of an upstream that is not there is `none`.
pub mod Total
use mathlib.Core.Option
use starweb.Base.{
  ℕ, suc, ◌<◌, ◌≡◌, refl, ◌⊎◌, inl, inr, Bool, true, false, Option, none, some, List, [], ◌∷◌, ◌++◌,
  length, get_elem?, All, arith, ap, subst, Bool-cases, if◌then◌else◌,
}
use starweb.Base.Bytes.{Bytes, codes, is_empty}
use starweb.Base.Decimal.{to_string}
use starweb.Base.Int.{ℤ, pos, negsuc}
use starweb.Base.Maybe.{◌>>=◌}
use starweb.Proxy.{
  Peer, UpstreamConfig, Listen, HeaderRule, Match, exact, prefix, Location, Server, Config,
}
use starweb.Proxy.Conf.Lexer.{quote}
use starweb.Msg.{print_int}
use starweb.Url.{format_host}

-- A line of two words, unless the second is empty.
abbrev line_unless_empty : Bytes → Bytes → Bytes
line_unless_empty start [] = []
line_unless_empty start (c ∷ s) = start ++ (quote (c ∷ s) ++ codes ";\n")

unfoldable pub dump_peer : Peer → Bytes
dump_peer p =
    codes "        server "
    ++ (format_host p.host
        ++ (codes ":"
            ++ (to_string p.port
                ++ (codes " weight="
                    ++ (print_int p.weight
                        ++ (codes " max_fails="
                            ++ (print_int p.max_fails
                                ++ (codes " fail_timeout="
                                    ++ (print_int p.fail_timeout_ms ++ codes "ms;\n")))))))))

unfoldable pub dump_peers : List Peer → Bytes
dump_peers [] = []
dump_peers (p ∷ ps) = dump_peer p ++ dump_peers ps

unfoldable pub dump_upstreams : List UpstreamConfig → Bytes
dump_upstreams [] = []
dump_upstreams (u ∷ us) =
    codes "\n    upstream "
    ++ (quote u.name
        ++ (codes " {"
            ++ ((if u.implicit then codes "  # implicit" else [])
                ++ (codes "\n"
                    ++ (dump_peers u.peers
                        ++ (codes "        keepalive "
                            ++ (print_int u.keepalive
                                ++ (codes ";\n    }\n" ++ dump_upstreams us))))))))

unfoldable pub dump_listens : List Listen → Bytes
dump_listens [] = []
dump_listens (l ∷ ls) =
    codes "        listen "
    ++ (to_string l.port
        ++ ((if l.star then codes " star" else [])
            ++ ((if l.default_server then codes " default_server" else [])
                ++ (codes ";\n" ++ dump_listens ls))))

unfoldable pub dump_words : List Bytes → Bytes
dump_words [] = []
dump_words (n ∷ ns) = codes " " ++ (n ++ dump_words ns)

abbrev dump_names : List Bytes → Bytes
dump_names [] = []
dump_names (n ∷ ns) = codes "        server_name" ++ (dump_words (n ∷ ns) ++ codes ";\n")

unfoldable pub dump_headers : List HeaderRule → Bytes
dump_headers [] = []
dump_headers (h ∷ hs) =
    codes "            proxy_set_header "
    ++ (h.name ++ (codes " " ++ (quote h.value ++ (codes ";\n" ++ dump_headers hs))))

-- upstreams[i]
abbrev pub upstream_at : List UpstreamConfig → ℤ → Option UpstreamConfig
upstream_at us (pos i) = get_elem? us i
upstream_at us (negsuc n) = none

abbrev dump_pass : Location → UpstreamConfig → Bytes
dump_pass l u =
    codes "            proxy_pass "
    ++ ((if l.pass.star then codes "star://" else codes "moon://")
        ++ (l.pass.proxy_host
            ++ (l.pass.uri
                ++ (codes ";  # upstream "
                    ++ (quote u.name
                        ++ (codes "\n"
                            ++ (dump_headers l.set_headers
                                ++ (codes "            proxy_connect_timeout "
                                    ++ (print_int l.connect_timeout_ms
                                        ++ (codes "ms;\n            proxy_read_timeout "
                                            ++ (print_int l.read_timeout_ms
                                                ++ codes "ms;\n")))))))))))

abbrev dump_return : Location → Bytes
dump_return l =
    codes "            return "
    ++ (print_int l.return_code
        ++ ((if is_empty l.return_body then [] else codes " " ++ quote l.return_body)
            ++ codes ";\n"))

abbrev dump_root : Location → Bytes
dump_root l =
    codes "            root "
    ++ (quote l.root ++ (codes ";\n            index " ++ (quote l.index ++ codes ";\n")))

unfoldable pub dump_handler : List UpstreamConfig → Location → Option Bytes
dump_handler us l =
    if l.proxy
    then Option.map (dump_pass l) (upstream_at us l.pass.upstream)
    else if is_empty l.root
    then some (dump_return l)
    else some (dump_root l)

abbrev modifier : Match → Bytes
modifier exact = codes "= "
modifier prefix = []

unfoldable pub dump_locations : List UpstreamConfig → List Location → Option Bytes
dump_locations us [] = some []
dump_locations us (l ∷ ls) = do
  handler ← dump_handler us l
  rest ← dump_locations us ls
  some (
      codes "\n        location "
      ++ (modifier (l.kind)
          ++ (quote (l.path) ++ (codes " {\n" ++ (handler ++ (codes "        }\n" ++ rest))))))

unfoldable pub dump_servers : List UpstreamConfig → List Server → Option Bytes
dump_servers us [] = some []
dump_servers us (s ∷ ss) = do
  locations ← dump_locations us (s.locations)
  rest ← dump_servers us ss
  some (
      codes "\n    server {\n"
      ++ (dump_listens (s.listens)
          ++ (dump_names (s.names)
              ++ (line_unless_empty (codes "        tls_certificate ") (s.cert)
                  ++ (line_unless_empty (codes "        tls_certificate_key ") (s.key)
                      ++ (locations ++ (codes "    }\n" ++ rest)))))))

unfoldable pub dump_config : Config → Option Bytes
dump_config cfg = do
  servers ← dump_servers (cfg.upstreams) (cfg.servers)
  some (
      line_unless_empty (codes "error_log ") (cfg.error_log)
      ++ (codes "stwp {\n"
          ++ (line_unless_empty (codes "    access_log ") (cfg.access_log)
              ++ (codes "    keepalive_timeout "
                  ++ (print_int (cfg.keepalive_timeout_ms)
                      ++ (codes "ms;\n    client_max_body_size "
                          ++ (to_string (cfg.client_max_body_size)
                              ++ (codes ";\n    tls_trusted_certificate "
                                  ++ (quote (cfg.trusted_ca)
                                      ++ (codes ";\n"
                                          ++ (dump_upstreams (cfg.upstreams)
                                              ++ (servers ++ codes "}\n"))))))))))))
