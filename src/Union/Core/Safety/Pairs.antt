-- ===== src/Union/Core/Safety/Pairs.antt =====
-- The packets that a loop over packets and messages reaches: it stops at the shorter list.
use gno_ibc.Prelude.{List, ◌∷◌, Bytes}
use gno_ibc.Union.Types.{Packet}

pub data Paired (p : Packet) : List Packet → List Bytes → Type 0 where
  first : {m : Bytes} {ps : List Packet} {ms : List Bytes} → Paired p (p ∷ ps) (m ∷ ms)
  later :
      {q : Packet} {m : Bytes} {ps : List Packet} {ms : List Bytes}
      → Paired p ps ms
      → Paired p (q ∷ ps) (m ∷ ms)
