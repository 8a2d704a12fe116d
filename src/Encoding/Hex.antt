-- ===== src/Encoding/Hex.antt =====
-- Text as the list of its code points, and package encoding/hex of the Go library.
use gno_ibc.Prelude.{
  ℕ, ◌+◌, ◌-◌, ◌*◌, ◌/◌, ◌%◌, ◌<◌, ◌≡◌, refl, ◌&&◌, Option, none, some, [], ◌∷◌, Bytes, ltb, leb,
  arith, if◌then◌else◌,
}
use Prim.Native.Char.{code}
use Prim.Native.String.{String}

-- The code points of a literal, which are its bytes where the literal is ASCII.
abbrev pub codes : String → Bytes
codes String.[] = []
codes (String.◌∷◌ c rest) = code c ∷ codes rest

-- `hex.EncodeToString`: two lowercase digits for each byte.
abbrev pub hex_digit : ℕ → ℕ
hex_digit n = if ltb n 10 then n + 48 else n + 87

unfoldable pub hex_encode : Bytes → Bytes
hex_encode [] = []
hex_encode (b ∷ bs) = hex_digit (b / 16) ∷ hex_digit (b % 16) ∷ hex_encode bs

-- `fromHexChar`: a digit in either case
abbrev pub hex_value : ℕ → Option ℕ
hex_value c =
    if leb 48 c && leb c 57
    then some (c - 48)
    else if leb 97 c && leb c 102
    then some (c - 87)
    else if leb 65 c && leb c 70
    then some (c - 55)
    else none

abbrev join_digits : Option ℕ → Option ℕ → Option Bytes → Option Bytes
join_digits (some high) (some low) (some rest) = some ((high * 16 + low) ∷ rest)
join_digits _ _ _ = none

-- `hex.DecodeString`; every error is `none`.
unfoldable pub hex_decode : Bytes → Option Bytes
hex_decode [] = some []
hex_decode (c ∷ []) = none
hex_decode (c ∷ d ∷ rest) = join_digits (hex_value c) (hex_value d) (hex_decode rest)

-- `strings.ToUpper` and `strings.ToLower` of ASCII text
unfoldable pub to_upper : Bytes → Bytes
to_upper [] = []
to_upper (c ∷ cs) = (if leb 97 c && leb c 122 then c - 32 else c) ∷ to_upper cs

unfoldable pub to_lower : Bytes → Bytes
to_lower [] = []
to_lower (c ∷ cs) = (if leb 65 c && leb c 90 then c + 32 else c) ∷ to_lower cs

-- Numbers below 256.
abbrev pub IsBytes : Bytes → Type 0
IsBytes [] = Unit
IsBytes (b ∷ bs) = (b < 256) × IsBytes bs

-- A byte's two digits read back, in either case.
digit_value : (n : ℕ) → n < 16 → hex_value (hex_digit n) ≡ some n
digit_value n h = ground arith

pub hex_decode-hex_encode : (b : Bytes) → IsBytes b → hex_decode (hex_encode b) ≡ some b
unfolding hex_decode hex_encode
hex_decode-hex_encode [] ok = refl
hex_decode-hex_encode (b ∷ bs) (small, rest) =
    rw
      (
        digit_value (b / 16) (omega arith),
        digit_value (b % 16) (omega arith),
        hex_decode-hex_encode bs rest,
      )
      (ground arith)

-- Lowering the case gives the digits that were raised back.
pub to_lower-to_upper-hex_encode :
    (b : Bytes) → IsBytes b → to_lower (to_upper (hex_encode b)) ≡ hex_encode b
unfolding to_lower to_upper hex_encode
to_lower-to_upper-hex_encode [] ok = refl
to_lower-to_upper-hex_encode (b ∷ bs) (small, rest) =
    ground (arith, to_lower-to_upper-hex_encode bs rest)
