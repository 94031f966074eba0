-- ===== src/StaticFiles/Path.antt =====
-- What `sanitize_path` promises of a path that it lets through, and what `content_type` looks at.
use starweb.Base.{
  ℕ, zero, suc, ◌≡◌, ◌≢◌, refl, Bool, true, false, ◌||◌, Option, none, some, List, [], ◌∷◌, ◌++◌,
  arith, ◌==◌, length, take, Option-cases, Bool-cases, inl, inr, ◌⊎◌, drop-append, if◌then◌else◌,
}
use starweb.Base.Bytes.{
  Bytes, find_if, find_last_if, find_sub, starts_with, last_or_0, codes, equal,
}
use starweb.Base.Dict.{lookup}
use starweb.Base.Bytes.Laws.{equal_iff, Avoids, Lacks, Avoids-take, Avoids-find_if, Avoids-append}
use starweb.StaticFiles.{
  dot_dot, cut_query, add_slash, add_index, sanitize_path, content_type, type_of_ext, octet_stream,
}

abbrev pub is_query : ℕ → Bool
is_query c = c == b'?' || c == b'#'

-- No two dots in a row.
abbrev pub NoDots : Bytes → Type 0
NoDots s = find_sub dot_dot s ≡ none

starts_with-take :
    (p : Bytes) (n : ℕ) (s : Bytes) → starts_with p s ≡ false → starts_with p (take n s) ≡ false
unfolding starts_with
starts_with-take [] n s h = absurd (cc)
starts_with-take (x ∷ p) zero s h = refl
starts_with-take (x ∷ p) (suc n) [] h = refl
starts_with-take (x ∷ p) (suc n) (y ∷ s) h = ground (arith, starts_with-take p n s)

NoDots-take : (n : ℕ) (s : Bytes) → NoDots s → NoDots (take n s)
unfolding find_sub
NoDots-take zero s h = unfold starts_with in refl
NoDots-take (suc n) [] h = h
NoDots-take (suc n) (x ∷ s) h =
    ground (arith, NoDots-take n s, starts_with-take dot_dot (suc n) (x ∷ s))

-- A byte that is no dot separates.
NoDots-cons : (c : ℕ) (s : Bytes) → (b'.' == c) ≡ false → NoDots s → NoDots (c ∷ s)
unfolding find_sub starts_with
NoDots-cons c s e h = ground arith

NoDots-append : (s t : Bytes) → last_or_0 s ≡ b'/' → NoDots s → NoDots t → NoDots (s ++ t)
unfolding find_sub starts_with last_or_0
NoDots-append [] t l h g = g
NoDots-append (x ∷ []) t l h g = NoDots-cons x t (ground arith) g
NoDots-append (x ∷ y ∷ s) t l h g = ground (arith, NoDots-append (y ∷ s) t l)

-- An absolute path without "..", without a query, that does not end in a slash.
pub record IsSafe (path : Bytes) : Type 0 where
  pub absolute : (t : Bytes) × (path ≡ b'/' ∷ t)
  pub no_dots : NoDots path
  pub no_query : Avoids is_query path
  pub names_file : last_or_0 path ≢ b'/'

-- An index file that `sanitize_path` may append.
pub record IsIndex (index : Bytes) : Type 0 where
  pub ne_nil : index ≢ []
  pub no_dots : NoDots index
  pub no_query : Avoids is_query index
  pub names_file : last_or_0 index ≢ b'/'

cut_query-NoDots : (path : Bytes) → NoDots path → NoDots (cut_query path)
unfolding cut_query
cut_query-NoDots path h = elim (Option-cases (find_if is_query path)) [
  | inl e ↦ rw (e, cut_query) h
  | inr (i, e) ↦ rw (e, cut_query) (NoDots-take i path h)
]

cut_query-Avoids : (path : Bytes) → Avoids is_query (cut_query path)
unfolding cut_query
cut_query-Avoids path = elim (Option-cases (find_if is_query path)) [
  | inl e ↦ rw (e, cut_query) (Avoids-find_if is_query path e)
  | inr (i, e) ↦ rw (e, cut_query) (Avoids-take is_query path i e)
]

add_slash-absolute : (path : Bytes) → (t : Bytes) × (add_slash path ≡ b'/' ∷ t)
unfolding add_slash
add_slash-absolute [] = ([], refl)
add_slash-absolute (c ∷ path) = elim (Bool-cases (c == b'/')) [
  | inl e ↦ (path, ground arith)
  | inr e ↦ (c ∷ path, ground arith)
]

add_slash-NoDots : (path : Bytes) → NoDots path → NoDots (add_slash path)
unfolding add_slash
add_slash-NoDots [] h = unfold find_sub starts_with in refl
add_slash-NoDots (c ∷ path) h = elim (Bool-cases (c == b'/')) [
  | inl e ↦ rw e h
  | inr e ↦ rw e (NoDots-cons b'/' (c ∷ path) refl h)
]

add_slash-Avoids : (path : Bytes) → Avoids is_query path → Avoids is_query (add_slash path)
unfolding add_slash
add_slash-Avoids [] h = (refl, tt)
add_slash-Avoids (c ∷ path) h = elim (Bool-cases (c == b'/')) [
  | inl e ↦ rw e h
  | inr e ↦ rw e (refl, h)
]

last_or_0-append : (s t : Bytes) → t ≢ [] → last_or_0 (s ++ t) ≡ last_or_0 t
unfolding last_or_0
last_or_0-append [] t n = refl
last_or_0-append (x ∷ []) [] n = absurd (n refl)
last_or_0-append (x ∷ []) (y ∷ t) n = refl
last_or_0-append (x ∷ y ∷ s) t n = last_or_0-append (y ∷ s) t n

add_index-IsSafe :
    (index path : Bytes)
    → IsIndex index
    → (t : Bytes) × (path ≡ b'/' ∷ t)
    → NoDots path
    → Avoids is_query path
    → IsSafe (add_index index path)
unfolding add_index
add_index-IsSafe index path v (t, a) d q = elim (Bool-cases (last_or_0 path == b'/')) [
  | inl e ↦ rw e (record {
    absolute = (t ++ index, rw a);
    no_dots = NoDots-append path index (ground arith) d v.no_dots;
    no_query = Avoids-append is_query path index q v.no_query;
    names_file = rw (last_or_0-append path index v.ne_nil) v.names_file;
  })
  | inr e ↦
      rw e (record { absolute = (t, a); no_dots = d; no_query = q; names_file = ground arith })
]

-- `sanitize_path` refuses exactly the paths with two dots in a row; any other gives an absolute path
-- that has no two dots in a row and no query or fragment, and does not end in a slash. (The
-- index is a file name of that kind.)
pub sanitize_path-IsSafe :
    (path index : Bytes)
    → IsIndex index
    → ((sanitize_path path index ≡ []) × (¬ NoDots path))
      ⊎ (IsSafe (sanitize_path path index) × NoDots path)
unfolding sanitize_path
sanitize_path-IsSafe path index v = elim (Option-cases (find_sub dot_dot path)) [
  | inl e ↦
      let cut = cut_query path in
      inr (
        rw (e, sanitize_path)
            (add_index-IsSafe index (add_slash cut) v (add_slash-absolute cut)
              (add_slash-NoDots cut (cut_query-NoDots path e))
              (add_slash-Avoids cut (cut_query-Avoids path))),
        e,
      )
  | inr (i, e) ↦ inl (rw (e, sanitize_path), λ n. cc (rw e at n))
]

find_last_if-Avoids : (p : ℕ → Bool) (b : Bytes) → Avoids p b → find_last_if p b ≡ none
unfolding find_last_if
find_last_if-Avoids p [] h = refl
find_last_if-Avoids p (x ∷ b) h = rw (find_last_if-Avoids p b h.1, h.0)

find_last_if-append :
    (p : ℕ → Bool) (a : Bytes) (c : ℕ) (b : Bytes)
    → p c ≡ true
    → Avoids p b
    → find_last_if p (a ++ c ∷ b) ≡ some (length a)
unfolding find_last_if
find_last_if-append p [] c b e h = rw (find_last_if-Avoids p b h, e)
find_last_if-append p (x ∷ a) c b e h = rw (find_last_if-append p a c b e h)

-- The types of the files that the server knows, by what stands behind the last dot.
abbrev pub known_types : List (Bytes × Bytes)
known_types =
    (codes "html", codes "text/html")
    ∷ (codes "htm", codes "text/html")
    ∷ (codes "css", codes "text/css")
    ∷ (codes "lua", codes "application/x-lua")
    ∷ (codes "png", codes "image/png")
    ∷ (codes "jpg", codes "image/jpeg")
    ∷ (codes "jpeg", codes "image/jpeg")
    ∷ (codes "gif", codes "image/gif")
    ∷ (codes "svg", codes "image/svg+xml")
    ∷ (codes "webp", codes "image/webp")
    ∷ (codes "ico", codes "image/x-icon")
    ∷ (codes "json", codes "application/json")
    ∷ (codes "txt", codes "text/plain")
    ∷ (codes "mov", codes "video/mp4")
    ∷ (codes "mp4", codes "video/mp4")
    ∷ (codes "mp3", codes "audio/mpeg")
    ∷ []

abbrev pub or_octets : Option Bytes → Bytes
or_octets none = octet_stream
or_octets (some type) = type

equal_dotted : (k ext : Bytes) → equal (b'.' ∷ ext) (b'.' ∷ k) ≡ equal k ext
unfolding equal
equal_dotted k ext = ground (arith, equal_iff ext k, equal_iff k ext)

or-if :
    (b c : Bool) (x r : Bytes) → (if b || c then x else r) ≡ (if b then x else if c then x else r)
or-if true c x r = refl
or-if false c x r = refl

or_octets-if :
    (b : Bool) (x : Bytes) (r : Option Bytes)
    → or_octets (if b then some x else r) ≡ (if b then x else or_octets r)
or_octets-if true x r = refl
or_octets-if false x r = refl

type_of_ext-lookup : (ext : Bytes) → type_of_ext (b'.' ∷ ext) ≡ or_octets (lookup ext known_types)
unfolding type_of_ext lookup
type_of_ext-lookup ext = simp (type_of_ext, equal_dotted, or-if, or_octets-if)

-- The content type of a path with a dot is that of the table of known types for what stands behind its last dot,
-- whatever stands before; where the table has none, and for a path without a dot, it is a stream of octets.
pub content_type_of_ext :
    (a ext path : Bytes)
    → Lacks b'.' ext
    → Lacks b'.' path
    → (content_type (a ++ (b'.' ∷ ext)) ≡ or_octets (lookup ext known_types))
      × (content_type path ≡ octet_stream)
unfolding content_type
content_type_of_ext a ext path h g = (
  rw (find_last_if-append _ a b'.' ext refl h, content_type)
      (rw (drop-append a (b'.' ∷ ext)) (type_of_ext-lookup ext)),
  rw (find_last_if-Avoids _ path g, content_type),
)
