-- ===== src/Tools/Protogen/Text.antt =====
-- What tools/protogen/main.go uses of the packages strings and strconv, and `snakeCase`.
use gno_ibc.Prelude.Eq.{bytes_beq}
use gno_ibc.Prelude.{
  ℕ, ◌+◌, ◌-◌, ◌*◌, ◌^◌, ◌&&◌, ◌||◌, Bool, true, false, Option, none, some, List, [], ◌∷◌, ◌++◌,
  Bytes, length, drop, eqb, leb, ltb, if◌then◌else◌,
}

-- `unicode.IsSpace` of ASCII text
abbrev pub is_space : ℕ → Bool
is_space c = (leb 9 c && leb c 13) || eqb c 32

-- `strings.TrimSpace`
unfoldable pub trim_left : Bytes → Bytes
trim_left [] = []
trim_left (c ∷ cs) = let rest = trim_left cs in if is_space c then rest else c ∷ cs

abbrev is_nil : Bytes → Bool
is_nil [] = true
is_nil (c ∷ cs) = false

unfoldable pub trim_right : Bytes → Bytes
trim_right [] = []
trim_right (c ∷ cs) = let rest = trim_right cs in if is_space c && is_nil rest then [] else c ∷ rest

unfoldable pub trim_space : Bytes → Bytes
unfolding trim_left trim_right
trim_space s = trim_right (trim_left s)

-- `strings.Split` at one character
abbrev pub cons_first : ℕ → List Bytes → List Bytes
cons_first c [] = (c ∷ []) ∷ []
cons_first c (part ∷ parts) = (c ∷ part) ∷ parts

unfoldable pub split : ℕ → Bytes → List Bytes
split sep [] = [] ∷ []
split sep (c ∷ cs) = let rest = split sep cs in if eqb c sep then [] ∷ rest else cons_first c rest

-- `strings.Cut` at one character
abbrev pub cons_key : ℕ → Option (Bytes × Bytes) → Option (Bytes × Bytes)
cons_key c none = none
cons_key c (some (before, after)) = some (c ∷ before, after)

unfoldable pub cut : ℕ → Bytes → Option (Bytes × Bytes)
cut sep [] = none
cut sep (c ∷ cs) = let rest = cut sep cs in if eqb c sep then some ([], cs) else cons_key c rest

-- `strconv.Atoi`: whether the number is negative, and its size, in the range of an int64.
unfoldable pub digits : ℕ → Bytes → Option ℕ
digits n [] = some n
digits n (c ∷ cs) =
    let rest = digits (n * 10 + (c - 48)) cs in if leb 48 c && leb c 57 then rest else none

abbrev pub in_range : Bool → Option ℕ → Option (Bool × ℕ)
in_range negative none = none
in_range true (some n) = if leb n (2 ^ 63) then some (true, n) else none
in_range false (some n) = if ltb n (2 ^ 63) then some (false, n) else none

unfoldable pub some_digits : Bytes → Option ℕ
unfolding digits
some_digits [] = none
some_digits (c ∷ cs) = digits 0 (c ∷ cs)

unfoldable pub atoi : Bytes → Option (Bool × ℕ)
unfolding some_digits
atoi [] = none
atoi (c ∷ cs) =
    if eqb c 45
    then in_range true (some_digits cs)
    else if eqb c 43
    then in_range false (some_digits cs)
    else in_range false (some_digits (c ∷ cs))

-- `strings.HasSuffix`
unfoldable pub has_suffix : Bytes → Bytes → Bool
has_suffix s suffix =
    leb (length suffix) (length s) && bytes_beq (drop (length s - length suffix) s) suffix

-- `strings.ReplaceAll(s, "_", " ")`
unfoldable pub spaces_for_underscores : Bytes → Bytes
spaces_for_underscores [] = []
spaces_for_underscores (c ∷ cs) = (if eqb c 95 then 32 else c) ∷ spaces_for_underscores cs

-- `snakeCase`, from an index on
abbrev pub is_upper : ℕ → Bool
is_upper c = leb 65 c && leb c 90

unfoldable pub snake_case_from : ℕ → Bytes → Bytes
snake_case_from i [] = []
snake_case_from i (c ∷ cs) =
    (if ltb 0 i && is_upper c then 95 ∷ [] else [])
    ++ ((if is_upper c then c + 32 else c) ∷ snake_case_from (i + 1) cs)

unfoldable pub snake_case : Bytes → Bytes
unfolding snake_case_from
snake_case s = snake_case_from 0 s
