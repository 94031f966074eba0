-- ===== src/Msg/Reply/Tests.antt =====
-- A run of `parse_response` at a concrete buffer.
use starweb.Base.{
  ◌+◌, ◌≤◌, ◌<◌, ◌≡◌, ◌⊎◌, refl, true, none, some, [], ◌∷◌, ◌++◌, arith, length, take,
}
use starweb.Base.Bytes.{Bytes, codes, equal, find_sub, starts_with}
use starweb.Base.Bytes.Split.{split_on}
use starweb.Base.Bytes.Trim.{strip}
use starweb.Base.Decimal.{stoi, stoull}
use starweb.Base.Dict.{lookup, insert}
use starweb.Base.Int.{pos}
use starweb.Msg.{Response, empty_response, header_end, header_len, parse_header_line}
use starweb.Msg.Reply.{
  set_status, parse_status_line, collect_headers, parse_response_lines, parse_response_headers,
  stated_length, parse_response,
}
use starweb.Msg.Reply.Frames.{parse_response_frames}

-- Three bytes stand where the body of two is.
abbrev buffer : Bytes
buffer = codes "V 404 No" ++ (10 ∷ (codes "Content-Length: 2" ++ (10 ∷ 10 ∷ codes "abc")))

abbrev response : Response
response = record empty_response {
  version = codes "V";
  status_code = pos 404;
  status_text = codes "No";
  headers = (codes "content-length", codes "2") ∷ [];
}

response_ends : header_end buffer ≡ some 26
unfolding header_end find_sub starts_with
response_ends = refl

response_reads : parse_response_headers (take 26 buffer) empty_response ≡ (response, true)
unfolding parse_response_headers parse_response_lines split_on parse_status_line set_status strip
    stoi collect_headers parse_header_line insert
response_reads = refl

parse_response_frames_example :
    ((length buffer < 26 + header_len buffer 26 + stated_length response.headers)
      × (parse_response buffer empty_response ≡ (response, none)))
    ⊎ ((body : Bytes) × (parse_response buffer empty_response ≡ (
      record response { body = body },
      some (26 + header_len buffer 26 + stated_length response.headers),
    ))
        × (length body ≡ stated_length response.headers)
        × (take (26 + header_len buffer 26 + stated_length response.headers) buffer
            ≡ take (26 + header_len buffer 26) buffer ++ body)
        × (26 + header_len buffer 26 + stated_length response.headers ≤ length buffer))
unfolding header_len stated_length lookup equal stoull
parse_response_frames_example =
    parse_response_frames buffer empty_response response 26 response_ends response_reads
      (omega arith)
