-- ===== src/Union/Core/Handlers/Settle.antt =====
-- Sending and settling packets follow the protocol: SendPacket, PacketAcknowledgement and PacketTimeout.
use gno_ibc.Prelude.{ℕ, ap, Option, List, [], ◌∷◌, Bytes}
use gno_ibc.Union.Types.{Channel, Connection, Packet}
use gno_ibc.Union.Msgs.{MsgPacketAcknowledgement, MsgPacketTimeout}
use gno_ibc.Union.Commitment.Injective.{packet_commitment_path-ok}
use gno_ibc.Union.Core.World.{World, Env, Context}
use gno_ibc.Union.Core.Packets.{
  send_packet, mark_packet_acknowledged, ack_loop, packet_acknowledgement, packet_timeout,
}
use gno_ibc.Union.Core.Protocol.{send, retire, AppsReach}
use gno_ibc.Union.Core.Protocol.Run.{Follows, Follows-step}
use gno_ibc.Union.Core.Handlers.Leaves.{follows_rules}
use gno_ibc.Union.Core.Handlers.Channels.{Follows-call_app}
use gno_ibc.Union.Core.Handlers.Packets.{send_packet_lem, mark_packet_acknowledged_lem}

module _ {T F : Type 0} (E : Env T F) (c : Context) where
  pub Follows-send_packet :
      (source timeout : ℕ) (payload : Bytes) (w : World T F)
      → Follows E (send_packet E c source timeout payload) w
  Follows-send_packet source timeout payload w = Follows-step E _ w λ p w' done.
      let (fresh, same) = send_packet_lem E c w w' source timeout payload p done in
      rw same (send p _ (packet_commitment_path-ok E.keccak p) fresh)

  pub Follows-mark_packet_acknowledged :
      (p : Packet) (w : World T F) → Follows E (mark_packet_acknowledged E c p) w
  Follows-mark_packet_acknowledged p w = Follows-step E _ w λ a w' done.
      let (sent, settled) = mark_packet_acknowledged_lem E c w w' p done in
      let same = ap (λ (u : World T F). u.store) settled in
      rw same (retire p _ (packet_commitment_path-ok E.keccak p) sent)

  module _ (apps : AppsReach E) where
    pub Follows-ack_loop :
        (app : Option ℕ) (source : ℕ) (ch : Channel) (conn : Connection) (ps : List Packet)
        (acks : List Bytes) (w : World T F)
        → Follows E (ack_loop E c app source ch conn ps acks) w
    unfolding ack_loop
    Follows-ack_loop app source ch conn ps [] w = search follows_rules
    Follows-ack_loop app source ch conn [] (ack ∷ acks) w = search follows_rules
    Follows-ack_loop app source ch conn (p ∷ ps) (ack ∷ acks) w =
        search
          (
            follows_rules,
            Follows-mark_packet_acknowledged,
            Follows-call_app,
            Follows-ack_loop app source ch conn ps acks,
          )
          depth 20

    pub Follows-packet_acknowledgement :
        (msg : MsgPacketAcknowledgement) (w : World T F)
        → Follows E (packet_acknowledgement E c msg) w
    unfolding packet_acknowledgement
    Follows-packet_acknowledgement msg w = search (follows_rules, Follows-ack_loop) depth 20

    pub Follows-packet_timeout :
        (msg : MsgPacketTimeout) (w : World T F) → Follows E (packet_timeout E c msg) w
    unfolding packet_timeout
    Follows-packet_timeout msg w =
        search (follows_rules, Follows-mark_packet_acknowledged, Follows-call_app) depth 30
