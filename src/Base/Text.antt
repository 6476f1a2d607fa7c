-- ===== src/Base/Text.antt =====
-- What the program uses of package `strings`, on the code points of a text.
use Prim.Native.Nat.{ℕ, ◌+◌}
use Prim.Native.Char.{code}
use Prim.Native.String.{String}
use mathlib.Core.Bool.{Bool, true, false, ◌&&◌, ◌||◌}
use mathlib.Core.List.{List, [], ◌∷◌, map, reverse}
use signalmesh.Base.Tests.{leb, ◌==◌, if◌then◌else◌}

-- `String` has its own `[]` and `∷`.
abbrev pub codes : String → List ℕ
codes String.[] = []
codes (String.◌∷◌ c s) = code c ∷ codes s

-- The white space of Unicode, as `unicode.IsSpace` has it.
unfoldable pub is_space : ℕ → Bool
is_space c =
    (leb 0x9 c && leb c 0xd)
    || c == 0x20
    || c == 0x85
    || c == 0xa0
    || c == 0x1680
    || (leb 0x2000 c && leb c 0x200a)
    || c == 0x2028
    || c == 0x2029
    || c == 0x202f
    || c == 0x205f
    || c == 0x3000

unfoldable pub trim_left : List ℕ → List ℕ
unfolding is_space
trim_left [] = []
trim_left (c ∷ cs) = let rest = trim_left cs in if is_space c then rest else c ∷ cs

-- `strings.TrimSpace`.
unfoldable pub trim_space : List ℕ → List ℕ
unfolding trim_left
trim_space cs = reverse (trim_left (reverse (trim_left cs)))

-- `unicode.ToLower` where the result is an ASCII letter: A to Z, the Kelvin sign and the dotted
-- capital I. The other letters beyond ASCII are left alone: their lower case is no ASCII letter
-- either, and the program compares results only with ASCII words.
unfoldable pub to_lower_code : ℕ → ℕ
to_lower_code c =
    if leb b'A' c && leb c b'Z'
    then c + 32
    else if c == 0x212a
    then b'k'
    else if c == 0x130
    then b'i'
    else c

-- `strings.ToLower`.
unfoldable pub to_lower : List ℕ → List ℕ
unfolding to_lower_code
to_lower = map to_lower_code

-- `a == b` on texts given by their code points.
unfoldable pub codes_eq : List ℕ → List ℕ → Bool
codes_eq [] [] = true
codes_eq (a ∷ as') (b ∷ bs) = a == b && codes_eq as' bs
codes_eq _ _ = false

unfoldable pub has_prefix : List ℕ → List ℕ → Bool
has_prefix [] cs = true
has_prefix (p ∷ ps) [] = false
has_prefix (p ∷ ps) (c ∷ cs) = p == c && has_prefix ps cs

-- `strings.Contains(cs, word)`.
unfoldable pub contains : List ℕ → List ℕ → Bool
unfolding has_prefix
contains [] word = has_prefix word []
contains (c ∷ cs) word = has_prefix word (c ∷ cs) || contains cs word

-- The loop `for _, word := range words { if strings.Contains(cs, word) { return true } }`.
unfoldable pub contains_any : List ℕ → List String → Bool
unfolding contains
contains_any cs [] = false
contains_any cs (w ∷ ws) = contains cs (codes w) || contains_any cs ws

-- `len` of a text: the bytes of its UTF-8 encoding.
unfoldable pub byte_length : List ℕ → ℕ
byte_length [] = 0
byte_length (c ∷ cs) =
    (if leb c 0x7f then 1 else if leb c 0x7ff then 2 else if leb c 0xffff then 3 else 4)
    + byte_length cs

-- `strings.Split` at commas: the parts before the last comma, and what comes after it.
unfoldable pub split_commas : List ℕ → List ℕ → List (List ℕ)
split_commas part [] = reverse part ∷ []
split_commas part (c ∷ cs) =
    let next = split_commas [] cs in
    let more = split_commas (c ∷ part) cs in if c == b',' then reverse part ∷ next else more

-- The parts that are not blank, trimmed.
unfoldable pub trimmed_parts : List (List ℕ) → List (List ℕ)
unfolding trim_space codes_eq
trimmed_parts [] = []
trimmed_parts (raw ∷ raws) =
    let rest = trimmed_parts raws in
    let part = trim_space raw in if codes_eq part [] then rest else part ∷ rest
