-- ===== src/Proxy.antt =====
-- src/proxy/config.hpp: the configuration of the reverse proxy as the rest of it reads it. Ports are
-- `uint16_t` and the other numbers `int` in the source, but for `client_max_body_size`, a `uint64_t`.
pub mod Router
pub mod Upstream
pub mod Conf
mod Tests
use starweb.Base.{ℕ, Bool, Option, List}
use starweb.Base.Bytes.{Bytes}
use starweb.Base.Int.{ℤ}

pub record Peer : Type 0 where
  pub host : Bytes
  pub port : ℕ
  pub weight : ℤ
  pub max_fails : ℤ
  pub fail_timeout_ms : ℤ

pub record UpstreamConfig : Type 0 where
  pub name : Bytes
  pub peers : List Peer
  pub keepalive : ℤ
  pub implicit : Bool

pub record Listen : Type 0 where
  pub port : ℕ
  pub star : Bool
  pub default_server : Bool

pub record HeaderRule : Type 0 where
  pub name : Bytes
  pub value : Bytes

pub record ProxyPass : Type 0 where
  pub star : Bool
  pub upstream : ℤ
  pub proxy_host : Bytes
  pub has_uri : Bool
  pub uri : Bytes

pub data Match : Type 0 where
  exact : Match
  prefix : Match

pub record Location : Type 0 where
  pub kind : Match
  pub path : Bytes
  pub file : Bytes
  pub line : ℤ
  pub proxy : Bool
  pub pass : ProxyPass
  pub set_headers : List HeaderRule
  pub connect_timeout_ms : ℤ
  pub read_timeout_ms : ℤ
  pub root : Bytes
  pub index : Bytes
  pub return_code : ℤ
  pub return_body : Bytes

pub record Server : Type 0 where
  pub listens : List Listen
  pub names : List Bytes
  pub cert : Bytes
  pub key : Bytes
  pub locations : List Location
  pub file : Bytes
  pub line : ℤ

pub record Config : Type 0 where
  pub path : Bytes
  pub error_log : Bytes
  pub access_log : Bytes
  pub trusted_ca : Bytes
  pub keepalive_timeout_ms : ℤ
  pub client_max_body_size : ℕ
  pub upstreams : List UpstreamConfig
  pub servers : List Server
