-- ===== src/StaticFiles.antt =====
-- src/common/static_files.hpp: the path of a request, the type of a file and the Range header.
pub mod Path
pub mod Range
pub mod Send
mod Tests
use mathlib.Core.Option
use starweb.Base.{
  ℕ, suc, ◌+◌, ◌-◌, ◌≤◌, Bool, true, false, ◌&&◌, ◌||◌, Option, none, some, List, [], ◌∷◌, ◌++◌,
  ◌==◌, if◌then◌else◌, take, drop, length, leb, ltb,
}
use starweb.Base.Bytes.{
  Bytes, codes, equal, is_empty, find, find_if, find_last_if, find_sub, rfind, starts_with,
  last_or_0,
}
use starweb.Base.Decimal.{stoull}
use starweb.Base.Maybe.{◌>>=◌, ◌>>◌, guard}
use starweb.Msg.{trim}

abbrev pub dot_dot : Bytes
dot_dot = codes ".."

-- substr(0, find_first_of("?#"))
unfoldable pub cut_query : Bytes → Bytes
cut_query path = elim (find_if (λ c. c == b'?' || c == b'#') path) [
  | none ↦ path
  | some i ↦ take i path
]

unfoldable pub add_slash : Bytes → Bytes
add_slash [] = b'/' ∷ []
add_slash (c ∷ path) = if c == b'/' then c ∷ path else b'/' ∷ c ∷ path

unfoldable pub add_index : Bytes → Bytes → Bytes
add_index index path = if last_or_0 path == b'/' then path ++ index else path

-- The empty text is a refusal.
unfoldable pub sanitize_path : Bytes → Bytes → Bytes
sanitize_path path index = elim (find_sub dot_dot path) [
  | some _ ↦ []
  | none ↦ add_index index (add_slash (cut_query path))
]

abbrev pub octet_stream : Bytes
octet_stream = codes "application/octet-stream"

unfoldable pub type_of_ext : Bytes → Bytes
type_of_ext ext =
    if equal ext (codes ".html") || equal ext (codes ".htm")
    then codes "text/html"
    else if equal ext (codes ".css")
    then codes "text/css"
    else if equal ext (codes ".lua")
    then codes "application/x-lua"
    else if equal ext (codes ".png")
    then codes "image/png"
    else if equal ext (codes ".jpg") || equal ext (codes ".jpeg")
    then codes "image/jpeg"
    else if equal ext (codes ".gif")
    then codes "image/gif"
    else if equal ext (codes ".svg")
    then codes "image/svg+xml"
    else if equal ext (codes ".webp")
    then codes "image/webp"
    else if equal ext (codes ".ico")
    then codes "image/x-icon"
    else if equal ext (codes ".json")
    then codes "application/json"
    else if equal ext (codes ".txt")
    then codes "text/plain"
    else if equal ext (codes ".mov") || equal ext (codes ".mp4")
    then codes "video/mp4"
    else if equal ext (codes ".mp3")
    then codes "audio/mpeg"
    else octet_stream

unfoldable pub content_type : Bytes → Bytes
content_type path = elim (rfind b'.' path) [
  | none ↦ octet_stream
  | some dot ↦ type_of_ext (drop dot path)
]

abbrev pub bytes_prefix : Bytes
bytes_prefix = codes "bytes="

-- first-last, first- or -count, before the last place is cut to the file.
unfoldable pub read_range : Bytes → Bytes → ℕ → Option (ℕ × ℕ)
read_range first last file_size =
    if is_empty first
    then (do
      n ← stoull last
      if n == 0 then none else some (if leb file_size n then 0 else file_size - n, file_size - 1))
    else (do
      start ← stoull first
      end ← if is_empty last then some (file_size - 1) else stoull last
      some (start, end))

unfoldable pub clamp_range : ℕ → ℕ × ℕ → Option (ℕ × ℕ)
clamp_range file_size (start, end) =
    let end' = if leb file_size end then file_size - 1 else end in
    if leb start end' && ltb start file_size then some (start, end') else none

unfoldable pub range_of : Bytes → Bytes → ℕ → Option (ℕ × ℕ)
range_of first last file_size =
    if is_empty first && is_empty last
    then none
    else read_range first last file_size >>= clamp_range file_size

unfoldable pub parse_spec : Bytes → ℕ → Option (ℕ × ℕ)
parse_spec spec file_size = elim (find b',' spec) [
  | some _ ↦ none
  | none ↦ elim (find b'-' spec) [
    | none ↦ none
    | some dash ↦ range_of (trim (take dash spec)) (trim (drop (dash + 1) spec)) file_size
  ]
]

unfoldable pub parse_byte_range : Bytes → ℕ → Option (ℕ × ℕ)
parse_byte_range header file_size =
    if file_size == 0
    then none
    else if starts_with bytes_prefix header
    then parse_spec (trim (drop (length bytes_prefix) header)) file_size
    else none
