-- ===== src/StaticFiles/Send.antt =====
-- src/common/static_files.hpp: `send_text` and `send_file`. What `write_all` answers to the k-th write
-- and what the file hands over when it is asked for bytes are parameters.
pub mod Complete
pub mod Serve
use starweb.Base.{
  ℕ, zero, suc, ◌+◌, ◌-◌, ◌*◌, ◌≤◌, ◌<◌, ◌≡◌, refl, ap, ◌∙◌, Bool, true, false, ◌&&◌, ◌||◌, Option,
  none, some, List, [], ◌∷◌, ◌++◌, arith, if◌then◌else◌, ◌==◌, leb, ltb, length, take, drop, min,
  Bool-cases, inl, inr, append_assoc, append-nil,
}
use starweb.Base.Bytes.{Bytes, codes, is_empty}
use starweb.Base.Decimal.{to_string}
use starweb.Base.Dict.{Dict, lookup, insert}
use starweb.Base.Int.{ℤ, pos}
use starweb.Msg.{Request, Response, serialize_response}
use starweb.StaticFiles.{sanitize_path, content_type, parse_byte_range}

abbrev pub inline_body_max : ℕ
inline_body_max = 64 * 1024

-- `Result`, and the texts that were handed to `write_all`, in order.
pub record Sent : Type 0 where
  pub status : ℤ
  pub body_bytes : ℕ
  pub keep_alive : Bool
  pub wire : List Bytes

abbrev pub connection : Bool → Bytes
connection keep_alive = if keep_alive then codes "keep-alive" else codes "close"

abbrev pub set_header : Bytes → Bytes → Response → Response
set_header name value res = record res { headers = insert name value res.headers }

-- The length of the part and what becomes of the connection.
unfoldable pub framed : Response → ℕ → Bool → Response
framed res len keep_alive =
    set_header (codes "Connection") (connection keep_alive)
      (set_header (codes "Content-Length") (to_string len) res)

unfoldable pub described : Response → Bytes → Response
described res safe =
    set_header (codes "Content-Type") (content_type safe)
      (set_header (codes "Accept-Ranges") (codes "bytes") res)

unfoldable pub range_header : ℕ → ℕ → ℕ → Bytes
range_header start end size =
    codes "bytes "
    ++ (to_string start ++ (codes "-" ++ (to_string end ++ (codes "/" ++ to_string size))))

unfoldable pub whole_response : Response → Response
whole_response res = record res { status_code = pos 200; status_text = codes "OK" }

unfoldable pub part_response : Response → ℕ → ℕ → ℕ → Response
part_response res start end size =
    set_header (codes "Content-Range") (range_header start end size)
      (record res { status_code = pos 206; status_text = codes "Partial Content" })

-- `write_all` answers the k-th write, and `reads offset n` is what the file gives of n bytes.
module _ (writes : ℕ → Bool) (reads : ℕ → ℕ → Bytes) where
  unfoldable pub send_text : Response → ℤ → Bytes → Bytes → Bool → Sent
  send_text res code text body keep_alive =
      let res' = set_header (codes "Connection") (connection keep_alive) (
        set_header (codes "Content-Length") (to_string (length body)) (
          set_header (codes "Content-Type") (codes "text/plain")
            (record res { status_code = code; status_text = text; body = body }))) in
      record {
        status = code;
        body_bytes = length body;
        keep_alive = writes 0 && keep_alive;
        wire = serialize_response res' ∷ [];
      }

  -- The rounds of the loop: `k` writes are done, `remaining` bytes are left, `out` is the result so far.
  unfoldable pub stream : ℕ → ℕ → ℕ → ℕ → Sent → Bool → Sent
  stream zero k offset remaining out keep_alive = record out { keep_alive = false }
  stream (suc fuel) k offset remaining out keep_alive =
      let piece = reads offset (min inline_body_max remaining) in
      let got = length piece in
      let out' = record out { wire = out.wire ++ piece ∷ [] } in
      let rest =
        stream fuel (k + 1) (offset + got) (remaining - got)
          (record out' { body_bytes = out.body_bytes + got }) keep_alive in
      if remaining == 0
      then record out { keep_alive = keep_alive }
      else if is_empty piece
      then record out { keep_alive = false }
      else if writes k
      then rest
      else out'

  unfoldable pub send_inline : Response → ℕ → ℕ → Bool → Sent
  send_inline res offset len keep_alive =
      let body = reads offset len in
      if length body == len
      then record {
        status = res.status_code;
        body_bytes = len;
        keep_alive = writes 0 && keep_alive;
        wire = serialize_response (record res { body = body }) ∷ [];
      }
      else record { status = res.status_code; body_bytes = 0; keep_alive = false; wire = [] }

  unfoldable pub send_streamed : Response → ℕ → ℕ → Bool → Sent
  send_streamed res offset len keep_alive =
      let head = serialize_response res in
      let start : Sent = record {
        status = res.status_code;
        body_bytes = 0;
        keep_alive = false;
        wire = head ∷ [];
      } in
      if writes 0 then stream (suc len) 1 offset len start keep_alive else start

  -- The part of the file that is sent, the headers being set.
  unfoldable pub send_part : Response → ℕ → ℕ → Bool → Sent
  send_part res offset len keep_alive =
      if leb len inline_body_max
      then send_inline (framed res len keep_alive) offset len keep_alive
      else send_streamed (framed res len keep_alive) offset len keep_alive

  unfoldable pub send_opened : Bytes → ℕ → Request → Response → Bool → Sent
  send_opened safe size req res keep_alive = elim (lookup (codes "range") req.headers) [
    | none ↦ send_part (whole_response (described res safe)) 0 size keep_alive
    | some header ↦ elim (parse_byte_range header size) [
      | none ↦
          send_text
            (set_header (codes "Content-Range") (codes "bytes */" ++ to_string size)
              (described res safe))
            (pos 416) (codes "Range Not Satisfiable") [] keep_alive
      | some (start, end) ↦
          send_part (part_response (described res safe) start end size) start (end - start + 1)
            keep_alive
    ]
  ]

  -- `size` is the size of the file under the path, where it is regular and opens.
  unfoldable pub send_file :
      (Bytes → Option ℕ) → Bytes → Bytes → Bytes → Request → Response → Bool → Sent
  send_file size root request_path index req res keep_alive =
      let safe = sanitize_path request_path index in
      if is_empty safe
      then send_text res (pos 403) (codes "Forbidden") (codes "Access Denied.") keep_alive
      else elim (size (root ++ safe)) [
        | none ↦
            send_text res (pos 404) (codes "Not Found") (codes "File not found: " ++ safe)
              keep_alive
        | some n ↦ send_opened safe n req res keep_alive
      ]
