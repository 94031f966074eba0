-- ===== src/Proxy/Conf/Tree.antt =====
-- src/proxy/config.cpp: `Parser`, the tree of directives. The standard library's paths and files are parameters,
-- and what the file system answers.
pub mod Fuel
use starweb.Base.{
  ℕ, zero, suc, ◌+◌, Bool, true, false, not, ◌||◌, ◌&&◌, Option, none, some, List, [], ◌∷◌, ◌++◌,
  ◌==◌, if◌then◌else◌, length, ltb,
}
use starweb.Base.Bytes.{Bytes, codes, equal, find_if}
use starweb.Proxy.Conf.{Result, ok, error, ◌>>=◌, each}
use starweb.Proxy.Conf.Glob.{wildmatch}
use starweb.Proxy.Conf.Lexer.{Kind, word, open_brace, close_brace, semi, Token, at, tokenize}

-- A directive and the directives in its block.
mutual
  pub data Node : Type 0 where
    node :
        (name : Bytes) (args : List Bytes) (children : Nodes) (block : Bool) (file : Bytes)
        (line : ℕ)
        → Node

  pub data Nodes : Type 0 where
    no_nodes : Nodes
    one_node : Node → Nodes → Nodes

abbrev pub name_of : Node → Bytes
name_of (node name args children block file line) = name

abbrev pub args_of : Node → List Bytes
args_of (node name args children block file line) = args

abbrev pub is_block : Node → Bool
is_block (node name args children block file line) = block

abbrev pub file_of : Node → Bytes
file_of (node name args children block file line) = file

abbrev pub line_of : Node → ℕ
line_of (node name args children block file line) = line

abbrev pub to_list : Nodes → List Node
to_list no_nodes = []
to_list (one_node n ns) = n ∷ to_list ns

abbrev pub from_list : List Node → Nodes
from_list [] = no_nodes
from_list (n ∷ ns) = one_node n (from_list ns)

abbrev pub children_of : Node → List Node
children_of (node name args children block file line) = to_list children

-- The words behind a directive's name, and the rest.
unfoldable pub take_args : List Token → List Bytes × List Token
take_args [] = ([], [])
take_args (t ∷ toks) =
    let rest = take_args toks in
    elim t.kind [ word ↦ (t.text ∷ rest.0, rest.1) | _ ↦ ([], t ∷ toks) ]

-- What a call of `parse_block` ends with: the directives and the tokens left, a message, or no fuel.
pub data Parsed : Type 0 where
  parsed : List Node → List Token → Parsed
  refused : Bytes → Parsed
  no_fuel : Parsed

-- The directives of the rest of the block, behind those that are there.
abbrev pub behind : List Node → Parsed → Parsed
behind before (parsed ns toks) = parsed (before ++ ns) toks
behind before (refused e) = refused e
behind before no_fuel = no_fuel

-- What a directive that is complete puts into its block, and the rest of the block.
abbrev pub go_on : Result (List Node) → Parsed → Parsed
go_on (ok ns) rest = behind ns rest
go_on (error e) rest = refused e

-- Goes on behind a block that ends.
abbrev pub and_then : Parsed → (List Node → List Token → Parsed) → Parsed
and_then (parsed ns after) k = k ns after
and_then (refused e) k = refused e
and_then no_fuel k = no_fuel

abbrev pub unexpected : Bytes → Token → Bytes
unexpected file t = at file t.line ++ (codes "unexpected \"" ++ (t.text ++ codes "\""))

abbrev pub bad_include : Node → Bytes
bad_include n =
    at (file_of n) (line_of n) ++ codes "invalid number of arguments in \"include\" directive"

-- `included` gives the directives of the files of an `include`.
module _ (included : Node → Result (List Node)) (file : Bytes) (last : ℕ) where
  -- What a directive puts into its block.
  unfoldable pub emit : Node → Result (List Node)
  emit n =
      if equal (name_of n) (codes "include") && not (is_block n)
      then (if length (args_of n) == 1 then included n else error (bad_include n))
      else ok (n ∷ [])

  -- What ends the directive `t` with these arguments; `rest_of` parses the rest of a block.
  abbrev pub directive :
      (rest_of : List Token → Bool → Parsed) (t : Token) (args : List Bytes) (in_block : Bool)
      → List Token
      → Parsed
  directive rest_of t args in_block [] =
      refused (at file t.line ++ codes "unexpected end of file, expecting \";\" or \"{\"")
  directive rest_of t args in_block (next ∷ rest) = elim next.kind [
    | semi ↦ go_on (emit (node t.text args no_nodes false file t.line)) (rest_of rest in_block)
    | open_brace ↦ and_then (rest_of rest true) (λ ns after.
        go_on (emit (node t.text args (from_list ns) true file t.line)) (rest_of after in_block))
    | _ ↦ refused (
        at file t.line
        ++ (codes "directive \"" ++ (t.text ++ codes "\" is not terminated by \";\"")))
  ]

  -- The fuel is that of the rounds and of the nested calls.
  unfoldable pub parse_block : ℕ → List Token → Bool → Parsed
  parse_block zero toks in_block = no_fuel
  parse_block (suc fuel) [] in_block =
      if in_block
      then refused (at file last ++ codes "unexpected end of file, expecting \"}\"")
      else parsed [] []
  parse_block (suc fuel) (t ∷ toks) in_block = elim t.kind [
    | close_brace ↦
        if in_block then parsed [] toks else refused (at file t.line ++ codes "unexpected \"}\"")
    | word ↦ directive (parse_block fuel) t (take_args toks).0 in_block (take_args toks).1
    | _ ↦ refused (unexpected file t)
  ]

-- The line of the last token.
abbrev pub last_line : List Token → ℕ
last_line [] = 1
last_line (t ∷ []) = t.line
last_line (t ∷ u ∷ toks) = last_line (u ∷ toks)

-- What the code relies on of std::filesystem and of the files that are there.
pub record Files : Type 0 where
  pub is_relative : Bytes → Bool
  pub parent_path : Bytes → Bytes
  pub filename : Bytes → Bytes
  pub join : Bytes → Bytes → Bytes
  pub is_regular_file : Bytes → Bool
  -- the paths in a directory
  pub directory : Bytes → List Bytes
  pub content : Bytes → Option Bytes
  -- std::sort on texts
  pub sort : List Bytes → List Bytes

abbrev is_wild : ℕ → Bool
is_wild c = c == b'*' || c == b'?'

abbrev has_wildcard : Bytes → Bool
has_wildcard s = elim (find_if is_wild s) [ none ↦ false | some i ↦ true ]

abbrev first_arg : Node → Bytes
first_arg n = elim (args_of n) [ [] ↦ [] | a ∷ args ↦ a ]

module _ (fs : Files) where
  abbrev pattern_of : Node → Bytes
  pattern_of n =
      if fs.is_relative (first_arg n)
      then fs.join (fs.parent_path (file_of n)) (first_arg n)
      else first_arg n

  abbrev here_if_empty : Bytes → Bytes
  here_if_empty [] = codes "."
  here_if_empty (c ∷ dir) = c ∷ dir

  unfoldable pub matching : Bytes → List Bytes → List Bytes
  matching name [] = []
  matching name (path ∷ paths) =
      let rest = matching name paths in
      if fs.is_regular_file path && wildmatch name (fs.filename path) then path ∷ rest else rest

  unfoldable pub expand_include : Node → Result (List Bytes)
  expand_include n =
      let pattern_path = pattern_of n in
      let name = fs.filename pattern_path in
      let dir = fs.parent_path pattern_path in
      if has_wildcard dir
      then error (
          at (file_of n) (line_of n)
          ++ codes "wildcards are only allowed in the file name of \"include\"")
      else if has_wildcard name
      then ok (fs.sort (matching name (fs.directory (here_if_empty dir))))
      else if fs.is_regular_file pattern_path
      then ok (pattern_path ∷ [])
      else error (
          at (file_of n) (line_of n)
          ++ (codes "include file \"" ++ (pattern_path ++ codes "\" not found")))

  abbrev pub no_tree : Parsed → Result (List Node)
  no_tree (parsed ns toks) = ok ns
  no_tree (refused e) = error e
  no_tree no_fuel = error []

  -- The files of an `include`, one behind the other.
  unfoldable pub all_files : (Bytes → Result (List Node)) → List Bytes → Result (List Node)
  all_files load [] = ok []
  all_files load (path ∷ paths) = load path >>= λ ns. all_files load paths >>= λ ms. ok (ns ++ ms)

  -- Seventeen files can be open at once: the depths are 0 to kMaxIncludeDepth.
  unfoldable pub parse_file : ℕ → Bytes → Result (List Node)
  parse_file zero path = error (path ++ codes ": includes nested too deeply")
  parse_file (suc depth) path = elim (fs.content path) [
    | none ↦ error (codes "cannot open " ++ path)
    | some text ↦ tokenize path text >>= λ toks. no_tree (
        parse_block (λ n. expand_include n >>= all_files (parse_file depth)) path (last_line toks)
          (suc (length toks)) toks false)
  ]
