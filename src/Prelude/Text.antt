-- ===== src/Prelude/Text.antt =====
-- The text and path operations of the standard library that the program uses. `str.lower` is
-- modelled on ASCII letters: no other letter's lower case is one that an accepted extension has.
use Prim.Native.Nat.{ℕ, zero, suc, ◌+◌, ◌/◌, ◌%◌}
use Prim.Native.Char.{code}
use Prim.Native.String.{String, ◌++◌ as str_append}
use mathlib.Core.Path.{◌≡◌, refl}
use mathlib.Core.Bool.{Bool, true, false, ◌&&◌, ◌||◌, not}
use mathlib.Core.List.{List, [], ◌∷◌, ◌++◌, map, reverse}
use slidelens.Prelude.Tests.{leb, ◌==◌, if◌then◌else◌}

-- The code points of a text. `String` has its own `[]` and `∷`.
abbrev pub codes : String → List ℕ
codes String.[] = []
codes (String.◌∷◌ c s) = code c ∷ codes s

infixr 65 ◌<>◌
abbrev pub ◌<>◌ : String → String → String
◌<>◌ = str_append

abbrev digit : ℕ → String
digit n =
    if n == 0
    then "0"
    else if n == 1
    then "1"
    else if n == 2
    then "2"
    else if n == 3
    then "3"
    else if n == 4
    then "4"
    else if n == 5
    then "5"
    else if n == 6
    then "6"
    else if n == 7
    then "7"
    else if n == 8
    then "8"
    else "9"

show_digits : ℕ → ℕ → String → String
show_digits zero n tail = tail
show_digits (suc fuel) n tail =
    let rest = show_digits fuel (n / 10) (str_append (digit (n % 10)) tail) in
    if n == 0 then tail else rest

-- `str(n)` for a natural number; it has at most `n + 1` digits.
unfoldable pub show : ℕ → String
unfolding show_digits
show n = if n == 0 then "0" else show_digits (n + 1) n ""

-- The same characters.
unfoldable pub same_codes : List ℕ → List ℕ → Bool
same_codes [] [] = true
same_codes (a ∷ as') (b ∷ bs) = a == b && same_codes as' bs
same_codes _ _ = false

-- `w in words`
unfoldable pub one_of : List ℕ → List (List ℕ) → Bool
unfolding same_codes
one_of w [] = false
one_of w (v ∷ vs) = same_codes w v || one_of w vs

unfoldable pub lower : ℕ → ℕ
lower c = if leb b'A' c && leb c b'Z' then c + 32 else c

slash : ℕ
slash = b'/'

-- `""` and `.` are no parts of a path.
is_part : List ℕ → Bool
is_part [] = false
is_part (c ∷ []) = not (c == b'.')
is_part (c ∷ d ∷ s) = true

-- The last part that was met, or else the part before.
last_part : List ℕ → List ℕ → List ℕ
unfolding is_part
last_part before part = if is_part part then part else before

final_part : List ℕ → List ℕ → List ℕ → List ℕ
unfolding last_part slash
final_part before part [] = last_part before (reverse part)
final_part before part (c ∷ s) =
    final_part (if c == slash then last_part before (reverse part) else before)
      (if c == slash then [] else c ∷ part) s

-- `Path(name).name`
unfoldable pub path_name : List ℕ → List ℕ
unfolding final_part
path_name name = final_part [] [] name

-- The last dot counts as a suffix's if a character stands on each side of it.
suffix_rev : List ℕ → List ℕ → List ℕ
suffix_rev acc [] = []
suffix_rev acc (c ∷ []) = []
suffix_rev [] (c ∷ d ∷ s) = let rest = suffix_rev (c ∷ []) (d ∷ s) in if c == b'.' then [] else rest
suffix_rev (a ∷ acc) (c ∷ d ∷ s) =
    let rest = suffix_rev (c ∷ a ∷ acc) (d ∷ s) in if c == b'.' then c ∷ a ∷ acc else rest

-- `Path(name).suffix.lower()`
unfoldable pub extension_of : List ℕ → List ℕ
unfolding path_name suffix_rev lower
extension_of name = map lower (suffix_rev [] (reverse (path_name name)))

-- `str.startswith`
unfoldable pub starts_with : List ℕ → List ℕ → Bool
starts_with s [] = true
starts_with [] (d ∷ t) = false
starts_with (c ∷ s) (d ∷ t) = c == d && starts_with s t

split_from : List ℕ → List ℕ → List (List ℕ)
split_from part [] = reverse part ∷ []
split_from part (c ∷ s) =
    let ended = reverse part ∷ split_from [] s in
    let longer = split_from (c ∷ part) s in if c == b'/' then ended else longer

-- The parts of a path between its slashes.
unfoldable pub split_parts : List ℕ → List (List ℕ)
unfolding split_from
split_parts path = split_from [] path

-- An absolute path of the parts.
unfoldable pub join_parts : List (List ℕ) → List ℕ
join_parts [] = []
join_parts (part ∷ parts) = (b'/' ∷ part) ++ join_parts parts

abbrev deck_name : List ℕ
deck_name = codes "uploads/./My.Deck.PPTX/"

extension_of-deck_name : same_codes (extension_of deck_name) (codes ".pptx") ≡ true
unfolding extension_of same_codes
extension_of-deck_name = refl

-- `str.isspace` of one character
is_space : ℕ → Bool
is_space c =
    (leb 9 c && leb c 13)
    || (leb 28 c && leb c 32)
    || c == 133
    || c == 160
    || c == 5760
    || (leb 8192 c && leb c 8202)
    || c == 8232
    || c == 8233
    || c == 8239
    || c == 8287
    || c == 12288

lstrip : List ℕ → List ℕ
unfolding is_space
lstrip [] = []
lstrip (c ∷ s) = let rest = lstrip s in if is_space c then rest else c ∷ s

-- `str.strip`
unfoldable pub strip : List ℕ → List ℕ
unfolding lstrip
strip s = reverse (lstrip (reverse (lstrip s)))

drop_length : List ℕ → List ℕ → List ℕ
drop_length [] s = s
drop_length (_ ∷ t) [] = []
drop_length (_ ∷ t) (c ∷ s) = drop_length t s

-- `Path(name).stem`
unfoldable pub stem_of : List ℕ → List ℕ
unfolding drop_length
stem_of name = reverse (drop_length (extension_of name) (reverse (path_name name)))
