-- ===== src/Union/Core/Packets/First.antt =====
-- The first packet of a message.
use gno_ibc.Prelude.{Option, none, some, List, [], ◌∷◌}
use gno_ibc.Union.Types.{Packet}

-- `msg.Packets[0]`, after the test that there is one
abbrev pub first_packet : List Packet → Option Packet
first_packet [] = none
first_packet (p ∷ ps) = some p
