-- ===== src/Encoding/Decimal.antt =====
-- Package fmt's verb `%d`, and strconv.Itoa, of a number that is not negative.
use gno_ibc.Prelude.{ℕ, zero, suc, ◌+◌, ◌/◌, ◌%◌, [], ◌∷◌, ◌++◌, Bytes, ltb, if◌then◌else◌}

-- The digits of a number, for a number of rounds.
unfoldable pub decimal_rounds : ℕ → ℕ → Bytes
decimal_rounds zero n = []
decimal_rounds (suc rounds) n =
    let more = decimal_rounds rounds (n / 10) ++ (n % 10 + 48) ∷ [] in
    if ltb n 10 then (n + 48) ∷ [] else more

-- Twenty digits are enough for a uint64.
unfoldable pub decimal : ℕ → Bytes
unfolding decimal_rounds
decimal n = decimal_rounds 20 n
