-- ===== src/Tools/Protogen/Words.antt =====
-- Words of a tag: how they are trimmed and split, and numbers among them.
use gno_ibc.Prelude.{
  ◌&&◌, ℕ, zero, suc, ◌+◌, ◌*◌, ◌/◌, ◌%◌, ◌-◌, ◌^◌, ◌<◌, ◌≤◌, ◌≡◌, ◌≢◌, refl, ap, ◌∙◌, false,
  Bool-cases, inl, inr, some, [], ◌∷◌, ◌++◌, Bytes, eqb, leb, ltb, arith,
}
use gno_ibc.Prelude.Result.{ok}
use gno_ibc.Tools.Protogen.Parse.{parse_number}
use gno_ibc.Encoding.Decimal.{decimal, decimal_rounds}
use gno_ibc.Tools.Protogen.Text.{
  is_space, trim_space, trim_left, trim_right, split, digits, some_digits, atoi,
}

-- A text without spaces and commas.
abbrev pub IsWord : Bytes → Type 0
IsWord [] = Unit
IsWord (c ∷ cs) = (is_space c ≡ false) × (eqb c 44 ≡ false) × IsWord cs

trim_left-IsWord : (s : Bytes) → IsWord s → trim_left s ≡ s
unfolding trim_left
trim_left-IsWord [] w = refl
trim_left-IsWord (c ∷ cs) (here, _, rest) = rw here refl

trim_right-IsWord : (s : Bytes) → IsWord s → trim_right s ≡ s
unfolding trim_right
trim_right-IsWord [] w = refl
trim_right-IsWord (c ∷ cs) (here, _, rest) = rw (here, trim_right-IsWord cs rest) refl

pub trim_space-IsWord : (s : Bytes) → IsWord s → trim_space s ≡ s
unfolding trim_space
trim_space-IsWord s w = rw (trim_left-IsWord s w) (trim_right-IsWord s w)

pub split-IsWord : (s : Bytes) → IsWord s → split 44 s ≡ s ∷ []
unfolding split
split-IsWord [] w = refl
split-IsWord (c ∷ cs) (_, here, rest) = rw (here, split-IsWord cs rest) refl

pub split-append : (s rest : Bytes) → IsWord s → split 44 (s ++ 44 ∷ rest) ≡ s ∷ split 44 rest
unfolding split
split-append [] rest w = refl
split-append (c ∷ cs) rest (_, here, more) = rw (here, split-append cs rest more) refl

-- The number that `rounds` digits do not reach.
bound : ℕ → ℕ
bound zero = 1
bound (suc rounds) = 10 * bound rounds

digits-snoc :
    (acc : ℕ) (s : Bytes) (d : ℕ) {v : ℕ}
    → d < 10
    → digits acc s ≡ some v
    → digits acc (s ++ (d + 48) ∷ []) ≡ some (v * 10 + d)
unfolding digits
digits-snoc acc [] d small e = ground arith
digits-snoc acc (c ∷ cs) d small e = elim (Bool-cases (leb 48 c && leb c 57)) [
  | inl digit ↦ rw digit (digits-snoc (acc * 10 + (c - 48)) cs d small (rw digit at e))
  | inr other ↦ absurd (ground (arith, other, e))
]

digits-decimal_rounds :
    (rounds n : ℕ) → n < bound rounds → digits 0 (decimal_rounds rounds n) ≡ some n
unfolding decimal_rounds bound
digits-decimal_rounds zero n small = unfold digits in ground arith
digits-decimal_rounds (suc rounds) n small = elim (Bool-cases (ltb n 10)) [
  | inl one ↦ rw one (unfold digits in ground (arith, one))
  | inr more ↦ rw more (
      digits-snoc 0 (decimal_rounds rounds (n / 10)) (n % 10) (omega arith)
        (digits-decimal_rounds rounds (n / 10) (omega arith))
      ∙ ap some (omega arith))
]

-- A decimal number starts with a digit, and is a word.
IsWord-append : (xs ys : Bytes) → IsWord xs → IsWord ys → IsWord (xs ++ ys)
IsWord-append [] ys p q = q
IsWord-append (x ∷ xs) ys (a, b, p) q = (a, b, IsWord-append xs ys p q)

decimal_rounds-IsWord : (rounds n : ℕ) → IsWord (decimal_rounds rounds n)
unfolding decimal_rounds
decimal_rounds-IsWord zero n = tt
decimal_rounds-IsWord (suc rounds) n = elim (Bool-cases (ltb n 10)) [
  | inl one ↦ rw one (ground (arith, one), ground (arith, one), tt)
  | inr more ↦ rw more (
      IsWord-append (decimal_rounds rounds (n / 10)) ((n % 10 + 48) ∷ [])
        (decimal_rounds-IsWord rounds (n / 10)) (ground arith, ground arith, tt))
]

-- No sign in front: the first character, where there is one, is a digit.
abbrev IsUnsigned : Bytes → Type 0
IsUnsigned [] = Unit
IsUnsigned (c ∷ cs) = (48 ≤ c)

IsUnsigned-append : (s : Bytes) (d : ℕ) → IsUnsigned s → IsUnsigned (s ++ (d + 48) ∷ [])
IsUnsigned-append [] d u = omega arith
IsUnsigned-append (c ∷ cs) d u = u

decimal_rounds-IsUnsigned : (rounds n : ℕ) → IsUnsigned (decimal_rounds rounds n)
unfolding decimal_rounds
decimal_rounds-IsUnsigned zero n = tt
decimal_rounds-IsUnsigned (suc rounds) n = elim (Bool-cases (ltb n 10)) [
  | inl one ↦ rw one (omega arith)
  | inr more ↦ rw more (
      IsUnsigned-append (decimal_rounds rounds (n / 10)) (n % 10)
        (decimal_rounds-IsUnsigned rounds (n / 10)))
]

atoi-unsigned :
    (s : Bytes) {n : ℕ}
    → IsUnsigned s
    → s ≢ []
    → digits 0 s ≡ some n
    → n < 2 ^ 63
    → atoi s ≡ some (false, n)
unfolding atoi some_digits
atoi-unsigned [] unsigned nonempty e small = absurd (nonempty refl)
atoi-unsigned (c ∷ cs) unsigned nonempty e small = ground arith

nonempty-snoc : (s : Bytes) (d : ℕ) → s ++ d ∷ [] ≢ []
nonempty-snoc [] d e = cc
nonempty-snoc (c ∷ cs) d e = cc

decimal-nonempty : (n : ℕ) → decimal n ≢ []
unfolding decimal decimal_rounds
decimal-nonempty n e = elim (Bool-cases (ltb n 10)) [
  | inl one ↦ absurd (ground (arith, one, e))
  | inr more ↦ nonempty-snoc _ (n % 10 + 48) (rw more at e)
]

pub decimal-IsWord : (n : ℕ) → IsWord (decimal n)
unfolding decimal
decimal-IsWord n = decimal_rounds-IsWord 20 n

pub parse_number-decimal : (n : ℕ) → 0 < n → n < 2 ^ 63 → parse_number (decimal n) ≡ ok n
unfolding parse_number
parse_number-decimal n positive small =
    let read : atoi (decimal n) ≡ some (false, n) =
      atoi-unsigned (decimal n) (unfold decimal in decimal_rounds-IsUnsigned 20 n)
        (decimal-nonempty n) (unfold decimal bound in digits-decimal_rounds 20 n (omega arith))
        small in
    rw (parse_number, trim_space-IsWord (decimal n) (decimal-IsWord n), read) (ground arith)
