-- ===== src/Msg/Lines.antt =====
-- The head of a printed message, as the parser cuts it into lines.
use starweb.Base.{
  ◌≡◌, refl, ap, ◌∙◌, true, List, [], ◌∷◌, ◌++◌, append_assoc, append-nil, All, take-append,
  drop-append_suc,
}
use starweb.Base.Bytes.{Bytes, lower}
use starweb.Base.Bytes.Laws.{Lacks, Avoids-append, find-append}
use starweb.Base.Bytes.Split.{split_on, split_on_one, split_on-append}
use starweb.Base.Bytes.Trim.{IsTrimmed, strip-append, strip-IsTrimmed_id}
use starweb.Base.Dict.{Dict}
use starweb.Msg.{header_line, header_lines, is_blank, parse_header_line}

-- A header as `parse_header_line` gives it back: a name in lower case, neither part with a line
-- break or with blanks at its ends, no colon in the name.
pub record IsHeader (name value : Bytes) : Type 0 where
  pub name_ne_nil : ¬ (name ≡ [])
  pub name_lower : lower name ≡ name
  pub name_trimmed : IsTrimmed is_blank name
  pub name_no_colon : Lacks b':' name
  pub name_no_lf : Lacks 10 name
  pub name_no_cr : Lacks 13 name
  pub value_trimmed : IsTrimmed is_blank value
  pub value_no_lf : Lacks 10 value
  pub value_no_cr : Lacks 13 value

abbrev pub IsHeaders : Dict Bytes → Type 0
IsHeaders [] = Unit
IsHeaders ((name, value) ∷ hs) = IsHeader name value × IsHeaders hs

abbrev pub wire_line : Bytes → Bytes → Bytes
wire_line name value = name ++ (b':' ∷ b' ' ∷ value)

module _ (name value : Bytes) (h : IsHeader name value) where
  -- blanks behind the value, such as the carriage return, are cut
  pub parse_header_line-wire_line :
      (end : Bytes)
      → All (λ x. is_blank x ≡ true) end
      → parse_header_line (wire_line name value ++ end) ≡ (name, value)
  unfolding parse_header_line
  parse_header_line-wire_line end blank = rw (append_assoc name (b':' ∷ b' ' ∷ value) end) (
      rw (find-append name b':' (b' ' ∷ (value ++ end)) h.name_no_colon, parse_header_line)
        (rw
          (
            take-append name (b':' ∷ b' ' ∷ (value ++ end)),
            drop-append_suc name b':' (b' ' ∷ (value ++ end)),
          )
          (rw (
            strip-IsTrimmed_id is_blank name h.name_trimmed,
            h.name_lower,
            strip-append is_blank (b' ' ∷ []) value end (refl, tt) h.value_trimmed blank,
          ))))

  pub Lacks-wire_line : Lacks 10 (wire_line name value)
  Lacks-wire_line =
      Avoids-append _ name (b':' ∷ b' ' ∷ value) h.name_no_lf (refl, (refl, h.value_no_lf))

-- The headers with the line break in front of each.
abbrev pub tail_lines : Dict Bytes → Bytes
tail_lines [] = []
tail_lines ((name, value) ∷ hs) = 13 ∷ 10 ∷ (wire_line name value ++ tail_lines hs)

pub header_lines-tail_lines :
    (hs : Dict Bytes) (rest : Bytes)
    → 13 ∷ 10 ∷ (header_lines hs ++ rest) ≡ tail_lines hs ++ (13 ∷ 10 ∷ rest)
unfolding header_lines header_line
header_lines-tail_lines [] rest = refl
header_lines-tail_lines ((name, value) ∷ hs) rest =
    simp (append_assoc, header_lines-tail_lines hs rest)

-- The lines of a head whose first line is `l`: all but the last end in a carriage return.
abbrev pub lines_of : Bytes → Dict Bytes → List Bytes
lines_of l [] = l ∷ []
lines_of l ((name, value) ∷ hs) = (l ++ (13 ∷ [])) ∷ lines_of (wire_line name value) hs

pub split_on-lines_of :
    (l : Bytes) (hs : Dict Bytes)
    → Lacks 10 l
    → IsHeaders hs
    → split_on 10 (l ++ tail_lines hs) ≡ lines_of l hs
split_on-lines_of l [] n v = rw (append-nil l) (split_on_one 10 l n)
split_on-lines_of l ((name, value) ∷ hs) n v =
    rw (← append_assoc l (13 ∷ []) (10 ∷ (wire_line name value ++ tail_lines hs))) (
      split_on-append 10 (l ++ (13 ∷ [])) _ (Avoids-append _ l _ n (refl, tt))
      ∙ ap (◌∷◌ (l ++ (13 ∷ [])))
          (split_on-lines_of (wire_line name value) hs (Lacks-wire_line name value v.0) v.1))
