-- ===== src/Msg.antt =====
-- src/common/stwp_msg.hpp: the messages of the protocol, printed and parsed.
pub mod Framing
pub mod Lines
pub mod Store
pub mod Head
pub mod RoundTrip
pub mod Reply
pub mod Strict
pub mod Length
mod Tests
use mathlib.Core.Option
use starweb.Base.{
  ℕ, suc, ◌+◌, ◌-◌, ◌*◌, ◌%◌, Bool, true, false, not, ◌&&◌, ◌||◌, Option, none, some, List, [], ◌∷◌,
  ◌++◌, ◌==◌, if◌then◌else◌, take, drop, length, get_elem?, ltb, leb,
}
use starweb.Base.Bytes.{
  Bytes, codes, equal, is_empty, find, find_from, find_sub, substr, lower, is_digit,
}
use starweb.Base.Bytes.Split.{split_on}
use starweb.Base.Bytes.Trim.{strip}
use starweb.Base.Decimal.{to_string, stoi, stoull, u64_mod}
use starweb.Base.Dict.{Dict, lookup, insert}
use starweb.Base.Int.{ℤ, pos, negsuc}

abbrev pub crlf : Bytes
crlf = 13 ∷ 10 ∷ []

abbrev pub stwp_version : Bytes
stwp_version = codes "STWP/1.0"

pub record Request : Type 0 where
  pub method : Bytes
  pub path : Bytes
  pub version : Bytes
  pub headers : Dict Bytes
  pub body : Bytes

pub record Response : Type 0 where
  pub version : Bytes
  pub status_code : ℤ
  pub status_text : Bytes
  pub headers : Dict Bytes
  pub body : Bytes

abbrev pub empty_request : Request
empty_request = record { method = []; path = []; version = stwp_version; headers = []; body = [] }

abbrev pub empty_response : Response
empty_response = record {
  version = stwp_version;
  status_code = pos 200;
  status_text = codes "OK";
  headers = [];
  body = [];
}

unfoldable pub header_line : Bytes → Bytes → Bytes
header_line name value = name ++ (codes ": " ++ (value ++ crlf))

unfoldable pub header_lines : Dict Bytes → Bytes
header_lines [] = []
header_lines ((name, value) ∷ hs) = header_line name value ++ header_lines hs

-- An `int` on a stream.
unfoldable pub print_int : ℤ → Bytes
print_int (pos n) = to_string n
print_int (negsuc n) = b'-' ∷ to_string (suc n)

unfoldable pub serialize_request : Request → Bytes
serialize_request r =
    r.method
    ++ (b' '
        ∷ (r.path
            ++ (b' ' ∷ (r.version ++ (crlf ++ (header_lines r.headers ++ (crlf ++ r.body)))))))

unfoldable pub serialize_response : Response → Bytes
serialize_response r =
    r.version
    ++ (b' '
        ∷ (print_int r.status_code
            ++ (b' ' ∷ (r.status_text ++ (crlf ++ (header_lines r.headers ++ (crlf ++ r.body)))))))

-- The set " \t\r\n" of `trim`.
abbrev pub is_blank : ℕ → Bool
is_blank c = c == 32 || c == 9 || c == 13 || c == 10

abbrev pub trim : Bytes → Bytes
trim = strip is_blank

-- The name in lower case and the value of one line; two empty texts where there is no colon.
unfoldable pub parse_header_line : Bytes → Bytes × Bytes
parse_header_line line = elim (find b':' line) [
  | none ↦ ([], [])
  | some colon ↦ (lower (trim (take colon line)), trim (drop (colon + 1) line))
]

-- The end of the head, and the length of the separator that stands there.
unfoldable pub header_end : Bytes → Option ℕ
header_end raw = elim (find_sub (crlf ++ crlf) raw) [
  | some i ↦ some i
  | none ↦ find_sub (10 ∷ 10 ∷ []) raw
]

unfoldable pub header_len : Bytes → ℕ → ℕ
header_len raw i = elim (get_elem? raw i) [ none ↦ 2 | some c ↦ if c == 13 then 4 else 2 ]

-- METHOD PATH VERSION. What was written before a refusal stays written.
unfoldable pub parse_request_line : Bytes → Request → Request × Bool
parse_request_line line req = elim (find b' ' line) [
  | none ↦ (req, false)
  | some i ↦ elim (find_from b' ' (i + 1) line) [
    | none ↦ (record req { method = take i line }, false)
    | some j ↦ (
      record req {
        method = take i line;
        path = substr (i + 1) (j - (i + 1)) line;
        version = drop (j + 1) line;
      },
      true,
    )
  ]
]

abbrev pub content_length_name : Bytes
content_length_name = codes "content-length"

-- The value of a Content-Length that can be read; else the last one stays.
abbrev pub or_last : Option ℕ → ℕ → ℕ
or_last none last = last
or_last (some n) last = n

-- The loop of `parse_request` over the header lines.
unfoldable pub add_headers : Dict Bytes → ℕ → List Bytes → Dict Bytes × ℕ
add_headers hs cl [] = (hs, cl)
add_headers hs cl (line ∷ lines) =
    let (name, value) = parse_header_line line in
    let skip = is_empty (trim line) || is_empty name in
    add_headers (if skip then hs else insert name value hs)
      (if skip
        then cl
        else if equal name content_length_name
        then or_last (stoull value) cl
        else cl)
      lines

-- The test on the length, which is a `size_t`, and the body.
unfoldable pub take_body : Bytes → ℕ → ℕ → ℕ → Option (Bytes × ℕ)
take_body raw i sep cl =
    let total = (i + sep + cl) % u64_mod in
    if ltb (length raw) total then none else some (substr (i + sep) cl raw, total)

unfoldable pub parse_request_lines : List Bytes → Request → Request × Option ℕ
parse_request_lines [] req = (req, none)
parse_request_lines (line ∷ lines) req =
    let (req', found) = parse_request_line (trim line) req in
    let (hs, cl) = add_headers req'.headers 0 lines in
    if found then (record req' { headers = hs }, some cl) else (req', none)

-- The request, and the number of bytes consumed where the result is true.
unfoldable pub finish_request : Bytes → ℕ → Request × Option ℕ → Request × Option ℕ
finish_request raw i (req, none) = (req, none)
finish_request raw i (req, some cl) = elim (take_body raw i (header_len raw i) cl) [
  | none ↦ (req, none)
  | some (body, total) ↦ (record req { body = body }, some total)
]

unfoldable pub parse_request : Bytes → Request → Request × Option ℕ
parse_request raw req = elim (header_end raw) [
  | none ↦ (req, none)
  | some i ↦ finish_request raw i (parse_request_lines (split_on 10 (take i raw)) req)
]
