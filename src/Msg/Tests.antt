-- ===== src/Msg/Tests.antt =====
-- Runs of the parsers of messages, at concrete buffers.
use starweb.Base.{
  ℕ, ◌+◌, ◌≤◌, ◌<◌, ◌≡◌, ◌≢◌, ◌↔◌, ◌⊎◌, refl, ap, sym, inl, none, some, [], ◌∷◌, ◌++◌, All, arith,
  ◌==◌, length, drop, take, ◌^◌, true,
}
use starweb.Base.Bytes.{Bytes, codes, find, find_if, find_sub, starts_with, equal}
use starweb.Base.Bytes.Laws.{Lacks, Avoids-find_if}
use starweb.Base.Bytes.Trim.{strip, lstrip, rstrip}
use starweb.Base.Bytes.Split.{split_on}
use starweb.Base.Decimal.{to_string, u64_mod, IsDigits, digits_value, stoull}
use starweb.Base.Dict.{lookup, insert}
use starweb.Msg.{
  Request, empty_request, is_blank, header_end, header_len, header_line, header_lines,
  serialize_request, parse_header_line, parse_request_line, add_headers, parse_request_lines,
  parse_request,
}
use starweb.Msg.Framing.{parse_request_frames, parse_request_wraps}
use starweb.Msg.Head.{IsRequest}
use starweb.Msg.Length.{
  parse_content_length, parse_content_length_exact, parse_content_length-to_string,
}
use starweb.Msg.Lines.{IsHeader}
use starweb.Msg.RoundTrip.{parse_request-serialize}
use starweb.Msg.Strict.{
  strict_lines, strict_request_line, strict_headers, differs, find_header_end,
  parse_request_headers,
}
use starweb.Msg.Strict.Agreement.{LineAgrees, later_lines, parse_request_headers_agree}
use starweb.Msg.Strict.Separator.{FirstSeparator, find_header_end_first}

abbrev request : Request
request = record {
  method = codes "GET";
  path = codes "/a";
  version = codes "STWP/1.0";
  headers = (codes "content-length", codes "2") ∷ [];
  body = codes "hi";
}

two_text : to_string 2 ≡ codes "2"
unfolding to_string
two_text = refl

lacks : (c : ℕ) (s : Bytes) → find c s ≡ none → Lacks c s
lacks c = Avoids-find_if (λ x. x == c)

request-IsHeader : IsHeader (codes "content-length") (codes "2")
unfolding find_if lstrip rstrip
request-IsHeader = record {
  name_ne_nil = λ e. cc e;
  name_lower = refl;
  name_trimmed = record { front = refl; back = refl };
  name_no_colon = lacks b':' (codes "content-length") refl;
  name_no_lf = lacks 10 (codes "content-length") refl;
  name_no_cr = lacks 13 (codes "content-length") refl;
  value_trimmed = record { front = refl; back = refl };
  value_no_lf = lacks 10 (codes "2") refl;
  value_no_cr = lacks 13 (codes "2") refl;
}

request-IsRequest : IsRequest request
unfolding find_if lookup equal
request-IsRequest = record {
  method_ne_nil = λ e. cc e;
  method_no_blank = Avoids-find_if is_blank (codes "GET") refl;
  path_no_space = lacks b' ' (codes "/a") refl;
  path_no_lf = lacks 10 (codes "/a") refl;
  path_no_cr = lacks 13 (codes "/a") refl;
  version_ne_nil = λ e. cc e;
  version_no_blank = Avoids-find_if is_blank (codes "STWP/1.0") refl;
  headers = (request-IsHeader, tt);
  distinct = (tt, tt);
  states_length = inl (ap some (sym two_text));
}

short : length (serialize_request request ++ codes "GET") < u64_mod
unfolding serialize_request header_lines header_line
short = omega arith

parse_request-serialize_example :
    parse_request (serialize_request request ++ codes "GET") empty_request
    ≡ (request, some (length (serialize_request request)))
parse_request-serialize_example =
    parse_request-serialize request (codes "GET") request-IsRequest short

parse_content_length_exact_example : (parse_content_length (codes "042") ≡ some 42) ↔ (
    (codes "042" ≢ [])
    × (length (codes "042") ≤ 18)
    × IsDigits (codes "042")
    × (42 ≡ digits_value 0 (codes "042"))
    × (42 < 10 ^ 18))
parse_content_length_exact_example = parse_content_length_exact (codes "042") 42

parse_content_length-to_string_example : parse_content_length (to_string 1048576) ≡ some 1048576
parse_content_length-to_string_example = parse_content_length-to_string 1048576 (omega arith)

abbrev two_ends : Bytes
two_ends = codes "a" ++ (10 ∷ 10 ∷ 13 ∷ 10 ∷ 13 ∷ 10 ∷ [])

find_header_end_first_example : FirstSeparator two_ends 0 (find_header_end two_ends)
find_header_end_first_example = find_header_end_first two_ends 0

abbrev strict_head : Bytes
strict_head = codes "GET / V" ++ (10 ∷ (codes "Host: a" ++ (10 ∷ codes "Content-Length: 5")))

abbrev strict_request : Request
strict_request = record empty_request {
  method = codes "GET";
  path = codes "/";
  version = codes "V";
  headers = (codes "host", codes "a") ∷ (codes "content-length", codes "5") ∷ [];
}

accepted : parse_request_headers strict_head empty_request ≡ (strict_request, true)
unfolding parse_request_headers strict_lines split_on strict_request_line strip strict_headers
    parse_header_line equal differs lookup insert
accepted = refl

parse_request_headers_agree_example :
    All (LineAgrees strict_request.headers) (later_lines strict_head)
parse_request_headers_agree_example =
    parse_request_headers_agree strict_head empty_request strict_request accepted

-- A head that states a length, its separator, and three more bytes.
abbrev head_of : Bytes → Bytes
head_of stated = codes "G / V" ++ (10 ∷ (codes "Content-Length: " ++ stated))

abbrev buffer : Bytes → Bytes
buffer stated = head_of stated ++ (10 ∷ 10 ∷ codes "abc")

abbrev read_request : Bytes → Request
read_request stated = record empty_request {
  method = codes "G";
  path = codes "/";
  version = codes "V";
  headers = (codes "content-length", stated) ∷ [];
}

ends : header_end (buffer (codes "2")) ≡ some 23
unfolding header_end find_sub starts_with
ends = refl

reads :
    parse_request_lines (split_on 10 (take 23 (buffer (codes "2")))) empty_request
    ≡ (read_request (codes "2"), some 2)
unfolding parse_request_lines split_on parse_request_line strip add_headers parse_header_line insert
    equal stoull
reads = refl

-- Three bytes stand where the body of two is.
parse_request_frames_example :
    ((length (buffer (codes "2")) < 23 + header_len (buffer (codes "2")) 23 + 2)
      × (parse_request (buffer (codes "2")) empty_request ≡ (read_request (codes "2"), none)))
    ⊎ ((body : Bytes) × (parse_request (buffer (codes "2")) empty_request ≡ (
      record (read_request (codes "2")) { body = body },
      some (23 + header_len (buffer (codes "2")) 23 + 2),
    ))
        × (length body ≡ 2)
        × (take (23 + header_len (buffer (codes "2")) 23 + 2) (buffer (codes "2"))
            ≡ take (23 + header_len (buffer (codes "2")) 23) (buffer (codes "2")) ++ body)
        × (23 + header_len (buffer (codes "2")) 23 + 2 ≤ length (buffer (codes "2"))))
unfolding header_len
parse_request_frames_example =
    parse_request_frames (buffer (codes "2")) empty_request (read_request (codes "2")) 23 2 ends
      reads (omega arith) (omega arith)

-- The length 2^64 - 1.
abbrev longest : Bytes
longest = codes "18446744073709551615"

longest_ends : header_end (buffer longest) ≡ some 42
unfolding header_end find_sub starts_with
longest_ends = refl

longest_reads :
    parse_request_lines (split_on 10 (take 42 (buffer longest))) empty_request
    ≡ (read_request longest, some 18446744073709551615)
unfolding parse_request_lines split_on parse_request_line strip add_headers parse_header_line insert
    equal stoull
longest_reads = refl

parse_request_wraps_example :
    (n : ℕ) × (parse_request (buffer longest) empty_request ≡ (
      record (read_request longest) {
        body = drop (42 + header_len (buffer longest) 42) (buffer longest);
      },
      some n,
    ))
    × (n < 42 + header_len (buffer longest) 42)
    × (length (drop (42 + header_len (buffer longest) 42) (buffer longest)) < 18446744073709551615)
unfolding header_len
parse_request_wraps_example =
    parse_request_wraps (buffer longest) empty_request (read_request longest) 42
      18446744073709551615 longest_ends longest_reads (omega arith) (omega arith) (omega arith)
