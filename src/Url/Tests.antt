-- ===== src/Url/Tests.antt =====
-- Runs of `parse_url` at concrete URLs.
use starweb.Base.{◌≡◌, refl, inl, some, ◌++◌, arith}
use starweb.Base.Bytes.{Bytes, codes, find_if, find_sub, starts_with, equal}
use starweb.Base.Decimal.{to_string}
use starweb.Base.Int.{pos}
use starweb.Url.{
  ParsedUrl, parse_url, parse_rest, split_path, split_host_port, split_plain, read_port,
}
use starweb.Url.RoundTrip.{IsHost, url_text, parse_url_round_trip}
use starweb.Url.Sound.{IsUrl, parse_url-IsUrl}

abbrev host : Bytes
host = codes "::1"

host-IsHost : IsHost host
host-IsHost = record {
  ne_nil = λ e. cc e;
  no_slash = (refl, (refl, (refl, tt)));
  no_close = (refl, (refl, (refl, tt)));
  no_open = (refl, (refl, (refl, tt)));
}

parse_url_round_trip_example :
    parse_url (url_text (codes "Moon") host (to_string 8080 ++ codes "x") (some (codes "a")))
    ≡ some (record { scheme = codes "moon"; host = host; port = pos 8080; path = codes "/a" })
parse_url_round_trip_example =
    parse_url_round_trip (codes "Moon") host 8080 (codes "x") (some (codes "a")) (inl refl)
      host-IsHost (omega arith) refl (refl, tt)

abbrev parsed : ParsedUrl
parsed = record { scheme = codes "star"; host = codes "h"; port = pos 8490; path = codes "/p" }

parses : parse_url (codes "STAR://h/p") ≡ some parsed
unfolding parse_url parse_rest split_path split_host_port split_plain read_port find_sub find_if
    starts_with equal
parses = refl

parse_url-IsUrl_example : IsUrl parsed
parse_url-IsUrl_example = parse_url-IsUrl (codes "STAR://h/p") parses
