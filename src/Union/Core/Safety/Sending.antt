-- ===== src/Union/Core/Safety/Sending.antt =====
-- A packet is sent at most once.
use gno_ibc.Prelude.{ℕ, ◌≡◌, refl, Bytes, arith}
use gno_ibc.Prelude.Result.{ok}
use gno_ibc.Union.Types.{Packet}
use gno_ibc.Union.Commitment.{commitment_magic}
use gno_ibc.Union.Commitment.Injective.{SamePacket, packet_hash}
use gno_ibc.Union.Core.World.{World, Env, Context}
use gno_ibc.Union.Core.Packets.{send_packet}
use gno_ibc.Union.Core.Calls.{History}
use gno_ibc.Union.Core.Protocol.{AppsReach}
use gno_ibc.Union.Core.Protocol.Commitments.{commitment_path, lookup-insert-same, Reach-present}
use gno_ibc.Union.Core.Handlers.Packets.{send_packet_lem}
use gno_ibc.Union.Core.Handlers.Refinement.{History-Reach}

-- Packets that agree in what is committed have one hash.
same_hash :
    (keccak : _) (p q : Packet) → SamePacket p q → packet_hash keccak p ≡ packet_hash keccak q
unfolding packet_hash
same_hash keccak p q same = rw (same.source, same.destination, same.payload, same.timeout) refl

module _ {T F : Type 0} (E : Env T F) where
  -- Where the apps' callbacks follow the protocol: a packet that was sent is not sent again, that is,
  -- a later send that succeeds gives a packet of another channel, payload or timeout.
  pub no_second_send :
      AppsReach E
      → (c d : Context) (source timeout source' timeout' : ℕ) (payload payload' : Bytes)
        (p q : Packet) (w u v v' : World T F)
      → send_packet E c source timeout payload w ≡ ok (p, u)
      → History E u v
      → send_packet E d source' timeout' payload' v ≡ ok (q, v')
      → ¬ SamePacket p q
  no_second_send apps c d source timeout source' timeout' payload payload' p q w u v v' done between
        again same =
      let (_, sent) = send_packet_lem E c w u source timeout payload p done in
      let (fresh, _) = send_packet_lem E d v v' source' timeout' payload' q again in
      Reach-present E (commitment_path E p) (History-Reach E apps between)
        (λ gone. ground (
          arith,
          gone,
          sent,
          lookup-insert-same (commitment_path E p) commitment_magic w.store.commitments,
        ))
        (ground (arith, fresh, same_hash E.keccak p q same))
