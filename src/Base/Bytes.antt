-- ===== src/Base/Bytes.antt =====
-- `std::string` and `std::string_view` as lists of byte values, with the members the program uses.
-- `npos` is `none`; `substr` clamps its length as the standard says.
pub mod Laws
pub mod Trim
pub mod Split
use Prim.Native.Char.{code}
use Prim.Native.String.{String}
use mathlib.Core.Option
use starweb.Base.{
  ℕ, suc, ◌+◌, ◌-◌, Bool, true, false, not, ◌&&◌, ◌||◌, Option, none, some, List, [], ◌∷◌, map,
  reverse, leb, ◌==◌, if◌then◌else◌, take, drop, length,
}

abbrev pub Bytes : Type 0
Bytes = List ℕ

-- The bytes of a literal; every literal of the development is ASCII.
abbrev pub codes : String → Bytes
codes String.[] = []
codes (String.◌∷◌ c s) = code c ∷ codes s

unfoldable pub equal : Bytes → Bytes → Bool
equal [] [] = true
equal [] (y ∷ b) = false
equal (x ∷ a) [] = false
equal (x ∷ a) (y ∷ b) = x == y && equal a b

abbrev pub is_empty : Bytes → Bool
is_empty [] = true
is_empty (_ ∷ _) = false

-- The first place whose byte passes the test: `find_first_of`, `find_first_not_of`.
unfoldable pub find_if : (ℕ → Bool) → Bytes → Option ℕ
find_if p [] = none
find_if p (x ∷ s) = let rest = find_if p s in if p x then some 0 else Option.map suc rest

-- The last such place: `find_last_of`, `find_last_not_of`, `rfind(char)`.
unfoldable pub find_last_if : (ℕ → Bool) → Bytes → Option ℕ
find_last_if p [] = none
find_last_if p (x ∷ s) = elim (find_last_if p s) [
  | some i ↦ some (suc i)
  | none ↦ if p x then some 0 else none
]

abbrev pub find : ℕ → Bytes → Option ℕ
find c = find_if (λ x. x == c)

abbrev pub rfind : ℕ → Bytes → Option ℕ
rfind c = find_last_if (λ x. x == c)

-- s.find(c, start)
abbrev pub find_from : ℕ → ℕ → Bytes → Option ℕ
find_from c start s = Option.map (λ i. start + i) (find c (drop start s))

unfoldable pub starts_with : Bytes → Bytes → Bool
starts_with [] s = true
starts_with (p ∷ ps) [] = false
starts_with (p ∷ ps) (x ∷ s) = p == x && starts_with ps s

-- s.find(text)
unfoldable pub find_sub : Bytes → Bytes → Option ℕ
unfolding starts_with
find_sub p [] = if starts_with p [] then some 0 else none
find_sub p (x ∷ s) =
    let rest = find_sub p s in if starts_with p (x ∷ s) then some 0 else Option.map suc rest

abbrev pub substr : ℕ → ℕ → Bytes → Bytes
substr start len s = take len (drop start s)

-- s.back(), with 0 on an empty text
unfoldable pub last_or_0 : Bytes → ℕ
last_or_0 [] = 0
last_or_0 (x ∷ []) = x
last_or_0 (x ∷ y ∷ s) = last_or_0 (y ∷ s)

-- s.pop_back()
unfoldable pub pop_back : Bytes → Bytes
pop_back [] = []
pop_back (x ∷ []) = []
pop_back (x ∷ y ∷ s) = x ∷ pop_back (y ∷ s)

abbrev pub ends_with : Bytes → Bytes → Bool
ends_with p s = starts_with (reverse p) (reverse s)

-- std::tolower, std::isdigit and std::isspace of the "C" locale.
abbrev pub to_lower : ℕ → ℕ
to_lower c = if leb b'A' c && leb c b'Z' then c + 32 else c

abbrev pub lower : Bytes → Bytes
lower = map to_lower

abbrev pub is_digit : ℕ → Bool
is_digit c = leb b'0' c && leb c b'9'

abbrev pub is_space : ℕ → Bool
is_space c = c == 32 || (leb 9 c && leb c 13)
