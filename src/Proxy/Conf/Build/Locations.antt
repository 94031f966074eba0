-- ===== src/Proxy/Conf/Build/Locations.antt =====
-- src/proxy/config.cpp: `Builder::build_location`.
use starweb.Base.{
  ℕ, suc, Bool, true, false, not, ◌||◌, ◌&&◌, none, some, List, [], ◌∷◌, ◌++◌, ◌==◌, leb, ltb,
  length, if◌then◌else◌,
}
use starweb.Base.Bytes.{Bytes, codes, equal, is_empty, find}
use starweb.Base.Decimal.{digits_value}
use starweb.Base.Int.{pos, negsuc}
use starweb.Proxy.{ProxyPass, Match, exact, prefix, Location}
use starweb.Proxy.Conf.{Result, ok, ◌>>=◌, ◌>>◌, each}
use starweb.Proxy.Conf.Build.{
  in_quotes, arg, fail, misplaced, check, simple, once, Inherited, Settings, settings, inheritable,
}
use starweb.Proxy.Conf.Build.Pass.{Shared, build_proxy_pass}
use starweb.Proxy.Conf.Tree.{Node, name_of, args_of, children_of, file_of, line_of}
use starweb.Proxy.Conf.Value.{all_digits}

-- A location while its directives are read.
pub record Site : Type 0 where
  pub loc : Location
  pub settings : Settings
  pub handlers : ℕ
  pub pool : Shared

-- `while (root.size() > 1 && root.back() == '/') root.pop_back()`, from the end of the text.
unfoldable pub drop_slashes : Bytes → Bytes
drop_slashes [] = []
drop_slashes (c ∷ s) =
    let rest = drop_slashes s in
    elim rest [ [] ↦ c ∷ [] | d ∷ r ↦ if is_empty r && d == b'/' then c ∷ [] else c ∷ d ∷ r ]

-- The directive stands in its block for the first time and has the right number of arguments.
unfoldable pub once_simple : Node → ℕ → ℕ → Settings → Result Settings
once_simple n least most st =
    simple n least most >> (once (st.seen) n >>= λ seen. ok (record st { seen = seen }))

unfoldable pub site_pass : Node → Site → Result Site
site_pass c s = do
  st ← once_simple c 1 1 s.settings
  (loc, pool) ← build_proxy_pass c s.loc s.pool
  ok (record { loc = loc; settings = st; handlers = suc s.handlers; pool = pool })

unfoldable pub site_root : Node → Site → Result Site
site_root c s = do
  st ← once_simple c 1 1 s.settings
  ok (record s {
    loc = record (s.loc) { root = drop_slashes (arg 0 c) };
    settings = st;
    handlers = suc s.handlers;
  })

unfoldable pub site_index : Node → Site → Result Site
site_index c s = do
  st ← once_simple c 1 1 s.settings
  check (elim (find b'/' (arg 0 c)) [ none ↦ true | some i ↦ false ]) c
      (codes "invalid index " ++ in_quotes (arg 0 c))
  ok (record s { loc = record (s.loc) { index = arg 0 c }; settings = st })

-- Three digits, the first from 1 to 5.
abbrev pub is_return_code : Bytes → Bool
is_return_code [] = false
is_return_code (c ∷ s) = all_digits (c ∷ s) && length (c ∷ s) == 3 && leb b'1' c && leb c b'5'

abbrev body_of : Node → Bytes → Bytes
body_of c before = if length (args_of c) == 2 then arg 1 c else before

unfoldable pub site_return : Node → Site → Result Site
site_return c s = do
  st ← once_simple c 1 2 s.settings
  check (is_return_code (arg 0 c)) c (codes "invalid return code " ++ in_quotes (arg 0 c))
  ok (record s {
    loc = record (s.loc) {
      return_code = pos (digits_value 0 (arg 0 c));
      return_body = body_of c s.loc.return_body;
    };
    settings = st;
    handlers = suc s.handlers;
  })

unfoldable pub own_directive : Node → Site → Result Site
own_directive c s =
    if equal (name_of c) (codes "proxy_pass")
    then site_pass c s
    else if equal (name_of c) (codes "root")
    then site_root c s
    else if equal (name_of c) (codes "index")
    then site_index c s
    else if equal (name_of c) (codes "return")
    then site_return c s
    else misplaced c

-- What is not inherited goes to the block's own directives.
unfoldable pub site_directive : Node → Site → Result Site
site_directive c s = inheritable c s.settings >>= λ r. elim r [
  | some st ↦ ok (record s { settings = st })
  | none ↦ own_directive c s
]

abbrev pub no_pass : ProxyPass
no_pass = record { star = false; upstream = negsuc 0; proxy_host = []; has_uri = false; uri = [] }

abbrev pub new_location : Node → Match → Bytes → Location
new_location n kind path = record {
  kind = kind;
  path = path;
  file = file_of n;
  line = pos (line_of n);
  proxy = false;
  pass = no_pass;
  set_headers = [];
  connect_timeout_ms = pos 5000;
  read_timeout_ms = pos 60000;
  root = [];
  index = codes "index.html";
  return_code = pos 0;
  return_body = [];
}

-- The modifier, when there are two arguments.
unfoldable pub match_of : Node → Result Match
match_of n =
    if length (args_of n) == 2
    then (if equal (arg 0 n) (codes "=")
        then ok exact
        else if equal (arg 0 n) (codes "^~")
        then ok prefix
        else if equal (arg 0 n) (codes "~") || equal (arg 0 n) (codes "~*")
        then fail n (codes "regex locations are not supported")
        else fail n (codes "invalid location modifier " ++ in_quotes (arg 0 n)))
    else ok prefix

abbrev pub last_arg : List Bytes → Bytes
last_arg [] = []
last_arg (a ∷ []) = a
last_arg (a ∷ b ∷ args) = last_arg (b ∷ args)

abbrev pub is_path : Bytes → Bool
is_path [] = false
is_path (c ∷ s) = c == b'/'

abbrev pub same_match : Match → Match → Bool
same_match exact exact = true
same_match exact prefix = false
same_match prefix exact = false
same_match prefix prefix = true

unfoldable pub has_location : Match → Bytes → List Location → Bool
has_location kind path [] = false
has_location kind path (l ∷ ls) =
    (same_match l.kind kind && equal l.path path) || has_location kind path ls

abbrev pub finished : Inherited → Location → Location
finished inh loc = record loc {
  set_headers = inh.headers;
  connect_timeout_ms = inh.connect_ms;
  read_timeout_ms = inh.read_ms;
}

abbrev pub new_site : Inherited → Node → Match → Bytes → Shared → Site
new_site inh n kind path pool = record {
  loc = new_location n kind path;
  settings = settings inh;
  handlers = 0;
  pool = pool;
}

-- The server's locations and the pool behind the block `n`.
unfoldable pub build_location :
    Inherited → Node → List Location × Shared → Result (List Location × Shared)
build_location inh n (locations, pool) = do
  kind ← match_of n
  let path = last_arg (args_of n)
  check (is_path path) n (codes "location " ++ (in_quotes path ++ codes " must start with \"/\""))
  check (not (has_location kind path locations)) n (codes "duplicate location " ++ in_quotes path)
  s ← each site_directive (children_of n) (new_site inh n kind path pool)
  check (not (s.handlers == 0)) n (
      codes "location "
      ++ (in_quotes path ++ codes " has no \"proxy_pass\", \"root\" or \"return\""))
  check (not (ltb 1 s.handlers)) n (
      codes "location "
      ++ (in_quotes path ++ codes " has more than one of \"proxy_pass\", \"root\" and \"return\""))
  ok (locations ++ finished s.settings.inh s.loc ∷ [], s.pool)
