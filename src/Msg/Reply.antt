-- ===== src/Msg/Reply.antt =====
-- src/common/stwp_msg.hpp: `parse_response_headers` and `parse_response`.
pub mod Frames
mod Tests
use starweb.Base.{
  ℕ, ◌+◌, ◌-◌, Bool, true, false, ◌||◌, Option, none, some, List, [], ◌∷◌, if◌then◌else◌, take,
  drop,
}
use starweb.Base.Bytes.{Bytes, is_empty, find, find_from, substr}
use starweb.Base.Bytes.Split.{split_on}
use starweb.Base.Decimal.{stoi, stoull}
use starweb.Base.Dict.{Dict, lookup, insert}
use starweb.Msg.{
  Response, trim, parse_header_line, header_end, header_len, take_body, content_length_name,
  or_last,
}

-- The status code, where the text in its place is a number.
unfoldable pub set_status : Response → Bytes → Bytes → Response × Bool
set_status res code text = elim (stoi (trim code)) [
  | none ↦ (res, false)
  | some n ↦ (record res { status_code = n; status_text = text }, true)
]

-- VERSION STATUS_CODE STATUS_TEXT; the text may be missing.
unfoldable pub parse_status_line : Bytes → Response → Response × Bool
parse_status_line line res = elim (find b' ' line) [
  | none ↦ (res, false)
  | some i ↦
      let res' = record res { version = take i line } in
      elim (find_from b' ' (i + 1) line) [
        | none ↦ set_status res' (drop (i + 1) line) []
        | some j ↦ set_status res' (substr (i + 1) (j - (i + 1)) line) (trim (drop (j + 1) line))
      ]
]

unfoldable pub collect_headers : Dict Bytes → List Bytes → Dict Bytes
collect_headers hs [] = hs
collect_headers hs (line ∷ lines) =
    let (name, value) = parse_header_line line in
    let skip = is_empty (trim line) || is_empty name in
    collect_headers (if skip then hs else insert name value hs) lines

unfoldable pub parse_response_lines : List Bytes → Response → Response × Bool
parse_response_lines [] res = (res, false)
parse_response_lines (line ∷ lines) res =
    let (res', found) = parse_status_line (trim line) res in
    if found
    then (record res' { headers = collect_headers res'.headers lines }, true)
    else (res', false)

unfoldable pub parse_response_headers : Bytes → Response → Response × Bool
parse_response_headers head = parse_response_lines (split_on 10 head)

-- The Content-Length of the table, 0 where there is none that can be read.
unfoldable pub stated_length : Dict Bytes → ℕ
stated_length hs = elim (lookup content_length_name hs) [ none ↦ 0 | some v ↦ or_last (stoull v) 0 ]

unfoldable pub finish_response : Bytes → ℕ → Response × Bool → Response × Option ℕ
finish_response raw i (res, false) = (res, none)
finish_response raw i (res, true) =
    elim (take_body raw i (header_len raw i) (stated_length res.headers)) [
      | none ↦ (res, none)
      | some (body, total) ↦ (record res { body = body }, some total)
    ]

unfoldable pub parse_response : Bytes → Response → Response × Option ℕ
parse_response raw res = elim (header_end raw) [
  | none ↦ (res, none)
  | some i ↦ finish_response raw i (parse_response_headers (take i raw) res)
]
