-- ===== src/Proxy/Conf/Lexer.antt =====
-- src/proxy/config.cpp: `tokenize` and `quote`. The loop of `tokenize` is a machine that takes a byte at each
-- step; its inner loops are modes of the machine.
pub mod Quote
use starweb.Base.{
  ℕ, suc, ◌+◌, Bool, true, false, not, ◌||◌, ◌&&◌, List, [], ◌∷◌, ◌++◌, ◌==◌, if◌then◌else◌,
}
use starweb.Base.Bytes.{Bytes, codes, is_space}
use starweb.Base.Decimal.{to_string}
use starweb.Proxy.Conf.{Result, ok, error, ◌>>=◌}

pub data Kind : Type 0 where
  word : Kind
  open_brace : Kind
  close_brace : Kind
  semi : Kind

pub record Token : Type 0 where
  pub kind : Kind
  pub text : Bytes
  pub line : ℕ

-- The prefix of a message.
unfoldable pub at : Bytes → ℕ → Bytes
at file line = file ++ (codes ":" ++ (to_string line ++ codes ": "))

-- The text of a mode is what has been read, the last byte first.
pub data Mode : Type 0 where
  plain : Mode
  comment : Mode
  in_word : (text : Bytes) → Mode
  quoted : (quote : ℕ) (start : ℕ) (text : Bytes) → Mode
  escaped : (quote : ℕ) (start : ℕ) (text : Bytes) → Mode

pub record Step : Type 0 where
  pub emitted : List Token
  pub mode : Mode
  pub line : ℕ

abbrev pub token : Kind → Bytes → ℕ → Token
token kind text line = record { kind = kind; text = text; line = line }

abbrev pub quiet : Mode → ℕ → Step
quiet mode line = record { emitted = []; mode = mode; line = line }

abbrev sign : Kind → ℕ → ℕ → Step
sign kind c line = record { emitted = token kind (c ∷ []) line ∷ []; mode = plain; line = line }

-- The first byte of what is not in a word, a comment or quotes.
unfoldable pub step_plain : ℕ → ℕ → Step
step_plain line c =
    if c == 10
    then quiet plain (line + 1)
    else if is_space c
    then quiet plain line
    else if c == b'#'
    then quiet comment line
    else if c == b'{'
    then sign open_brace c line
    else if c == b'}'
    then sign close_brace c line
    else if c == b';'
    then sign semi c line
    else if c == b'"' || c == 39
    then quiet (quoted c line []) line
    else quiet (in_word (c ∷ [])) line

abbrev pub ends_word : ℕ → Bool
ends_word c = is_space c || c == b'{' || c == b'}' || c == b';'

abbrev pub rev_onto : Bytes → Bytes → Bytes
rev_onto [] out = out
rev_onto (c ∷ text) out = rev_onto text (c ∷ out)

abbrev pub in_order : Bytes → Bytes
in_order text = rev_onto text []

abbrev pub unescape : ℕ → ℕ
unescape c = if c == b'n' then 10 else if c == b't' then 9 else c

unfoldable pub step : Mode → ℕ → ℕ → Step
step plain line c = step_plain line c
step comment line c = if c == 10 then quiet plain (line + 1) else quiet comment line
step (in_word text) line c =
    let next = step_plain line c in
    if ends_word c
    then record next { emitted = token word (in_order text) line ∷ next.emitted }
    else quiet (in_word (c ∷ text)) line
step (quoted q start text) line c =
    if c == q
    then record { emitted = token word (in_order text) start ∷ []; mode = plain; line = line }
    else if c == 92
    then quiet (escaped q start text) line
    else quiet (quoted q start (c ∷ text)) (if c == 10 then line + 1 else line)
step (escaped q start text) line c = quiet (quoted q start (unescape c ∷ text)) line

-- The end of the text.
abbrev pub finish : Bytes → Mode → ℕ → Result (List Token)
finish file plain line = ok []
finish file comment line = ok []
finish file (in_word text) line = ok (token word (in_order text) line ∷ [])
finish file (quoted q start text) line = error (at file start ++ codes "unterminated string")
finish file (escaped q start text) line = error (at file start ++ codes "unterminated string")

abbrev pub prepend : List Token → Result (List Token) → Result (List Token)
prepend ts (ok us) = ok (ts ++ us)
prepend ts (error e) = error e

unfoldable pub run : Bytes → Mode → ℕ → Bytes → Result (List Token)
run file mode line [] = finish file mode line
run file mode line (c ∷ s) =
    prepend (step mode line c).emitted (run file (step mode line c).mode (step mode line c).line s)

unfoldable pub tokenize : Bytes → Bytes → Result (List Token)
tokenize file src = run file plain 1 src

-- A byte that makes `quote` put the text into quotes.
abbrev pub is_special : ℕ → Bool
is_special c =
    is_space c
    || c == b';'
    || c == b'{'
    || c == b'}'
    || c == b'#'
    || c == b'"'
    || c == 39
    || c == 92

unfoldable pub all_plain : Bytes → Bool
all_plain [] = true
all_plain (c ∷ s) = not (is_special c) && all_plain s

abbrev pub escape : ℕ → Bytes
escape c = if c == b'"' || c == 92 then 92 ∷ c ∷ [] else if c == 10 then codes "\\n" else c ∷ []

unfoldable pub escape_all : Bytes → Bytes
escape_all [] = []
escape_all (c ∷ s) = escape c ++ escape_all s

unfoldable pub quote : Bytes → Bytes
quote [] = codes "\"\""
quote (c ∷ s) = if all_plain (c ∷ s) then c ∷ s else b'"' ∷ (escape_all (c ∷ s) ++ codes "\"")
