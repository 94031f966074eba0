-- ===== src/Cookies/Tests.antt =====
-- Runs of the cookies of an origin.
use starweb.Base.{◌-◌, some, ◌≡◌, refl, true, false, none, List, [], ◌∷◌}
use starweb.Base.Bytes.{Bytes, codes, equal, find_if}
use starweb.Base.Bytes.Trim.{strip}
use starweb.Base.Dict.{Dict, lookup}
use starweb.Base.Decimal.{u64_mod}
use starweb.Base.Decimal.Scan.{Beyond}
use starweb.Base.Int.{pos}
use starweb.Cookies.{
  Jar, Store, jar_of, join_pairs, parse_pair, read_attributes, valid_name, valid_value, name_bytes,
  value_bytes,
}
use starweb.Cookies.Each.{Call, sets, script_sets, script_clears, after_all, after_all-GoodJar}
use starweb.Cookies.Good.{GoodJar}
use starweb.Cookies.Hidden.{hidden, scripts_hidden}
use starweb.Cookies.Kept.{no_cookies}
use starweb.Cookies.Script.{set_item, remove_item, clear_items}

abbrev no_jars : Store
no_jars = record { jars = []; dirty = false; revision = 0 }

abbrev site : Bytes
site = codes "moon://a:8090"

abbrev calls : List Call
calls =
    sets (λ k. pos 100) site (codes "id=7; StwpOnly; Max-Age=10|lang=en")
    ∷ script_sets (pos 101) site (codes "n") (codes "1") none
    ∷ script_clears site
    ∷ []

none_yet : (other : Bytes) → GoodJar (jar_of other no_jars)
unfolding lookup
none_yet other = no_cookies

after_all-GoodJar_example : GoodJar (jar_of site (after_all calls no_jars))
after_all-GoodJar_example = after_all-GoodJar calls no_jars site none_yet

abbrev with_id : Store
with_id = record {
  jars =
      (
        site,
        record { name = codes "id"; value = codes "7"; expires_at = pos 0; stwp_only = true } ∷ [],
      )
      ∷ [];
  dirty = true;
  revision = 1;
}

scripts_hidden_example :
    (hidden (jar_of site (set_item (pos 1) site (codes "id") (codes "8") none with_id).1)
      ≡ hidden (jar_of site with_id))
    × (hidden (jar_of site (remove_item site (codes "id") with_id).1)
        ≡ hidden (jar_of site with_id))
    × (hidden (jar_of site (clear_items site with_id).1) ≡ hidden (jar_of site with_id))
scripts_hidden_example = scripts_hidden (pos 1) site site (codes "id") (codes "8") none with_id

-- A value with `=` in it is taken.
equals_in_value :
    parse_pair (codes "a=b=c") []
    ≡ some (
      record { name = codes "a"; value = codes "b=c"; expires_at = pos 0; stwp_only = false },
      none,
    )
unfolding parse_pair read_attributes valid_name valid_value name_bytes value_bytes find_if strip
equals_in_value = refl

header_text : join_pairs (jar_of site with_id) [] ≡ codes "id=7"
unfolding join_pairs lookup equal
header_text = refl

abbrev id_jars : Dict Jar
id_jars =
    (
      site,
      record { name = codes "id"; value = codes "7"; expires_at = pos 900; stwp_only = true } ∷ [],
    )
    ∷ []

abbrev beyond : Beyond
beyond = record { llu = λ n. u64_mod - 1; lld = λ n. pos 0; d = λ n. pos 0 }
