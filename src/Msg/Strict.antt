-- ===== src/Msg/Strict.antt =====
-- src/common/stwp_msg.hpp: the proxy's stricter reading, `find_header_end` and
-- `parse_request_headers`.
pub mod Agreement
pub mod Separator
use mathlib.Core.Option
use starweb.Base.{
  ℕ, suc, ◌+◌, ◌-◌, ◌*◌, ◌%◌, Bool, true, false, not, ◌&&◌, ◌||◌, Option, none, some, List, [], ◌∷◌,
  ◌++◌, ◌==◌, if◌then◌else◌, ltb, take, drop,
}
use starweb.Base.Bytes.{Bytes, equal, is_empty, find, find_from, find_sub, substr}
use starweb.Base.Bytes.Split.{split_on}
use starweb.Base.Dict.{Dict, lookup, insert}
use starweb.Msg.{Request, crlf, trim, parse_header_line, content_length_name}

-- Where the head ends (`none` is `npos`), and the length of the separator.
unfoldable pub find_header_end : Bytes → Option ℕ × ℕ
find_header_end s = elim (find_sub (10 ∷ 10 ∷ []) s) [
  | none ↦ (find_sub (crlf ++ crlf) s, 4)
  | some lf ↦ elim (find_sub (crlf ++ crlf) s) [
    | none ↦ (some lf, 2)
    | some both ↦ if ltb lf both then (some lf, 2) else (some both, 4)
  ]
]

-- Whether the table already holds another value of Content-Length.
unfoldable pub differs : Option Bytes → Bytes → Bool
differs none value = false
differs (some old) value = not (equal old value)

-- The loop over the header lines, with the table at a refusal.
unfoldable pub strict_headers : Dict Bytes → List Bytes → Dict Bytes × Bool
strict_headers hs [] = (hs, true)
strict_headers hs (line ∷ lines) =
    let (name, value) = parse_header_line line in
    let skipped = strict_headers hs lines in
    let stored = strict_headers (insert name value hs) lines in
    if is_empty (trim line)
    then skipped
    else if is_empty name || (equal name content_length_name && differs (lookup name hs) value)
    then (hs, false)
    else stored

unfoldable pub strict_request_line : Bytes → Request → Request × Bool
strict_request_line line req = elim (find b' ' line) [
  | none ↦ (req, false)
  | some i ↦ elim (find_from b' ' (i + 1) line) [
    | none ↦ (req, false)
    | some j ↦
        let method = take i line in
        let path = substr (i + 1) (j - i - 1) line in
        (
          record req { method = method; path = path; version = drop (j + 1) line },
          not (is_empty method || is_empty path),
        )
  ]
]

unfoldable pub strict_lines : List Bytes → Request → Request × Bool
strict_lines [] req = (req, false)
strict_lines (line ∷ lines) req =
    let (req', found) = strict_request_line (trim line) req in
    let (hs, fine) = strict_headers req'.headers lines in
    if found then (record req' { headers = hs }, fine) else (req', false)

unfoldable pub parse_request_headers : Bytes → Request → Request × Bool
parse_request_headers head = strict_lines (split_on 10 head)
