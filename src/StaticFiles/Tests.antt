-- ===== src/StaticFiles/Tests.antt =====
-- Runs of the static file server at concrete requests.
use starweb.Base.{
  ℕ, ◌-◌, ◌≡◌, ◌⊎◌, refl, none, some, [], ◌∷◌, ◌++◌, arith, take, drop, min, Bool, true,
  if◌then◌else◌, leb, ltb, ◌==◌, ◌||◌, length-take,
}
use starweb.Base.Bytes.{Bytes, codes, find_if, find_sub, starts_with, last_or_0}
use starweb.Base.Bytes.Laws.{Avoids-find_if}
use starweb.Base.Decimal.{to_string}
use starweb.Base.Dict.{lookup}
use starweb.Msg.{Request, empty_request, empty_response}
use starweb.Base.Dict.{lookup}
use starweb.StaticFiles.{sanitize_path, content_type, octet_stream, parse_byte_range}
use starweb.StaticFiles.Path.{
  NoDots, IsSafe, IsIndex, sanitize_path-IsSafe, known_types, or_octets, content_type_of_ext,
}
use starweb.StaticFiles.Range.{InFile, range_text, parse_byte_range-InFile, parse_byte_range_forms}
use starweb.StaticFiles.Send.{
  send_part, send_inline, send_opened, described, whole_response, part_response,
}
use starweb.StaticFiles.Send.Complete.{Honest, Bounded}
use starweb.StaticFiles.Send.Serve.{
  Served, send_opened-Served_range, send_opened-Served_whole, send_part_counts,
}

abbrev index : Bytes
index = codes "index.html"

index-IsIndex : IsIndex index
unfolding find_if find_sub starts_with last_or_0
index-IsIndex = record {
  ne_nil = λ e. cc e;
  no_dots = refl;
  no_query = Avoids-find_if (λ c. c == b'?' || c == b'#') index refl;
  names_file = λ e. omega (arith, e);
}

sanitize_path-IsSafe_example :
    ((sanitize_path (codes "a/?q") index ≡ []) × (¬ NoDots (codes "a/?q")))
    ⊎ (IsSafe (sanitize_path (codes "a/?q") index) × NoDots (codes "a/?q"))
sanitize_path-IsSafe_example = sanitize_path-IsSafe (codes "a/?q") index index-IsIndex

content_type_of_ext_example :
    (content_type (codes "/a.b/c" ++ (b'.' ∷ codes "png"))
      ≡ or_octets (lookup (codes "png") known_types))
    × (content_type (codes "/a") ≡ octet_stream)
content_type_of_ext_example =
    content_type_of_ext (codes "/a.b/c") (codes "png") (codes "/a") (refl, (refl, (refl, tt)))
      (refl, (refl, tt))

abbrev header : Bytes
header = range_text (to_string 1) (to_string 2)

header_range : parse_byte_range header 4 ≡ some (1, 2)
header_range =
    (parse_byte_range_forms 1 2 1 4 (omega arith) (omega arith) (omega arith) (omega arith)).0

parse_byte_range-InFile_example : InFile 4 (1, 2)
parse_byte_range-InFile_example = parse_byte_range-InFile header 4 (1, 2) header_range

parse_byte_range_forms_example :
    (parse_byte_range (range_text (to_string 1) (to_string 9)) 4
      ≡ (if leb 1 (min 9 (4 - 1)) then some (1, min 9 (4 - 1)) else none))
    × (parse_byte_range (range_text (to_string 1) []) 4
        ≡ (if ltb 1 4 then some (1, 4 - 1) else none))
    × (parse_byte_range (range_text [] (to_string 2)) 4
        ≡ (if 2 == 0 then none else some (4 - 2, 4 - 1)))
parse_byte_range_forms_example =
    parse_byte_range_forms 1 9 2 4 (omega arith) (omega arith) (omega arith) (omega arith)

abbrev content : Bytes
content = codes "abcd"

abbrev reads : ℕ → ℕ → Bytes
reads offset n = take n (drop offset content)

abbrev always : ℕ → Bool
always k = true

reads-Honest : Honest content reads
reads-Honest offset n = refl

reads-Bounded : Bounded reads
reads-Bounded offset n = omega (arith, length-take n (drop offset content))

abbrev range_request : Request
range_request = record empty_request { headers = (codes "range", header) ∷ [] }

asked : lookup (codes "range") range_request.headers ≡ some header
unfolding lookup
asked = refl

send_opened-Served_range_example :
    Served
      (send_opened always reads (codes "/f") 4 range_request empty_response true)
      (part_response (described empty_response (codes "/f")) 1 2 4)
      true
      (codes "bc")
send_opened-Served_range_example =
    send_opened-Served_range always reads content reads-Honest (λ _. refl) true (codes "/f")
      range_request empty_response header 1 2 refl asked header_range

send_opened-Served_whole_example :
    Served
      (send_opened always reads (codes "/f") 4 empty_request empty_response true)
      (whole_response (described empty_response (codes "/f")))
      true
      content
unfolding lookup
send_opened-Served_whole_example =
    send_opened-Served_whole always reads content reads-Honest (λ _. refl) true (codes "/f")
      empty_request empty_response refl refl

sent_part : (send_part always reads empty_response 1 2 true).keep_alive ≡ true
unfolding send_part send_inline
sent_part = refl

send_part_counts_example : (send_part always reads empty_response 1 2 true).body_bytes ≡ 2
send_part_counts_example =
    send_part_counts always reads reads-Bounded empty_response 1 2 true sent_part
