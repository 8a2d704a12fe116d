-- ===== src/Union/Core/Safety/Settling.antt =====
-- A packet is settled at most once: by a timeout or by an acknowledgement.
use gno_ibc.Prelude.{ap, ℕ, ◌≡◌, ◌≢◌, Option, some, List, [], ◌∷◌, Bytes, arith}
use gno_ibc.Prelude.Result.{ok}
use gno_ibc.Union.Types.{Channel, Connection, Packet}
use gno_ibc.Union.Msgs.{MsgPacketAcknowledgement, MsgPacketTimeout}
use gno_ibc.Union.Commitment.{commitment_magic, commitment_magic_ack}
use gno_ibc.Union.Commitment.Injective.{CollisionFree}
use gno_ibc.Union.Core.World.{World, Store, Env, Context}
use gno_ibc.Union.Core.Exec.{Exec, ◌>>=◌}
use gno_ibc.Union.Core.Packets.{
  mark_packet_acknowledged, ack_loop, packet_acknowledgement, packet_timeout,
}
use gno_ibc.Union.Core.Calls.{Call, run, History}
use gno_ibc.Union.Core.Protocol.{Reach, Reach-trans, here, put_commitment, AppsReach}
use gno_ibc.Union.Core.Protocol.Commitments.{
  commitment_path, commitment_at, lookup-insert-same, Reach-retired,
}
use gno_ibc.Union.Core.Protocol.Run.{Follows, bind-eq-ok}
use gno_ibc.Union.Core.Handlers.Leaves.{follows_rules}
use gno_ibc.Union.Core.Handlers.Channels.{Follows-call_app}
use gno_ibc.Union.Core.Handlers.Packets.{mark_packet_acknowledged_lem}
use gno_ibc.Union.Core.Handlers.Settle.{Follows-mark_packet_acknowledged, Follows-ack_loop}
use gno_ibc.Union.Core.Handlers.Refinement.{History-Reach}
use gno_ibc.Union.Core.Safety.Pairs.{Paired, first, later}

-- The calls that settle a packet: its timeout, and an acknowledgement of it.
pub data Settles (p : Packet) : Call → Type 0 where
  by_timeout : (msg : MsgPacketTimeout) → msg.packet ≡ p → Settles p (Call.packet_timeout msg)
  by_acknowledgement :
      (msg : MsgPacketAcknowledgement)
      → Paired p msg.packets msg.acknowledgements
      → Settles p (Call.packet_acknowledgement msg)

module _ {T F : Type 0} (E : Env T F) where
  -- Where `m` returns, the packet was committed at some moment of the call, and was retired then.
  record Retires (p : Packet) {A : Type 0} (m : Exec T F A) (w : World T F) : Type 0 where
    at :
        (a : A) (w' : World T F)
        → m w ≡ ok (a, w')
        → (s : Store T) × Reach E w.store s
          × (commitment_at E (commitment_path E p) s ≡ some commitment_magic)
          × Reach E (put_commitment E (commitment_path E p) commitment_magic_ack s) w'.store

  module _ (p : Packet) {A B : Type 0} (m : Exec T F A) (f : A → Exec T F B) (w : World T F) where
    Retires-first :
        Retires p m w
        → ((a : A) (w' : World T F) → m w ≡ ok (a, w') → Follows E (f a) w')
        → Retires p (m >>= f) w
    Retires-first now rest = record {
      at = λ b u done.
          let (a, w', head, tail) = bind-eq-ok m f w u b done in
          let (s, before, sent, after) = now.at a w' head in
          (s, before, sent, Reach-trans E after ((rest a w' head).at b u tail));
    }

    Retires-rest :
        Follows E m w
        → ((a : A) (w' : World T F) → m w ≡ ok (a, w') → Retires p (f a) w')
        → Retires p (m >>= f) w
    Retires-rest now rest = record {
      at = λ b u done.
          let (a, w', head, tail) = bind-eq-ok m f w u b done in
          let (s, before, sent, after) = (rest a w' head).at b u tail in
          (s, Reach-trans E (now.at a w' head) before, sent, after);
    }

  module _ (apps : AppsReach E) (c : Context) where
    Retires-mark : (p : Packet) (w : World T F) → Retires p (mark_packet_acknowledged E c p) w
    Retires-mark p w = record {
      at = λ a w' done.
          let (sent, settled) = mark_packet_acknowledged_lem E c w w' p done in
          let same = ap (λ (u : World T F). u.store) settled in (w.store, here, sent, rw same here);
    }

    Retires-ack_loop :
        (app : Option ℕ) (source : ℕ) (ch : Channel) (conn : Connection) (p : Packet)
        (ps : List Packet) (acks : List Bytes) (w : World T F)
        → Paired p ps acks
        → Retires p (ack_loop E c app source ch conn ps acks) w
    unfolding ack_loop
    Retires-ack_loop app source ch conn p [] acks w paired = elim paired [ ]
    Retires-ack_loop app source ch conn p (q ∷ ps) [] w paired = elim paired [ ]
    Retires-ack_loop app source ch conn p (_ ∷ ps) (ack ∷ acks) w first =
        Retires-rest p _ _ w (search follows_rules) λ _ w1 _.
          Retires-first p _ _ w1 (Retires-mark p w1) λ _ w2 _.
            search
              (
                follows_rules,
                Follows-call_app E apps c,
                Follows-ack_loop E c apps app source ch conn ps acks,
              )
              depth 20
    Retires-ack_loop app source ch conn p (q ∷ ps) (ack ∷ acks) w (later in_rest) =
        search
          (
            Retires-rest,
            follows_rules,
            Follows-mark_packet_acknowledged,
            Follows-call_app,
            Retires-ack_loop app source ch conn p ps acks,
            in_rest,
          )
          depth 20

    Retires-packet_acknowledgement :
        (msg : MsgPacketAcknowledgement) (p : Packet) (w : World T F)
        → Paired p msg.packets msg.acknowledgements
        → Retires p (packet_acknowledgement E c msg) w
    unfolding packet_acknowledgement
    Retires-packet_acknowledgement msg p w paired =
        search (Retires-rest, follows_rules, Retires-ack_loop, paired) depth 20

    Retires-packet_timeout :
        (msg : MsgPacketTimeout) (w : World T F) → Retires msg.packet (packet_timeout E c msg) w
    unfolding packet_timeout
    Retires-packet_timeout msg w =
        search (Retires-first, Retires-rest, Retires-mark, follows_rules, Follows-call_app) depth 30

    run-Retires : (p : Packet) (k : Call) (w : World T F) → Settles p k → Retires p (run E c k) w
    unfolding run
    run-Retires p _ w (by_timeout msg same) = rw (← same) (Retires-packet_timeout msg w)
    run-Retires p _ w (by_acknowledgement msg paired) =
        Retires-packet_acknowledgement msg p w paired

  -- Where the hash has no collision and the apps' callbacks follow the protocol: after a call that
  -- settled a packet, by its timeout or its acknowledgement, no call that settles the same packet
  -- returns, whatever calls succeeded in between. So no packet is both timed out and acknowledged,
  -- and none twice.
  pub no_second_settlement :
      AppsReach E
      → CollisionFree E.keccak
      → (p : Packet) (k j : Call) (c d : Context) (w u v v' : World T F) → Settles p k
      → Settles p j
      → run E c k w ≡ ok (tt, u)
      → History E u v
      → run E d j v ≢ ok (tt, v')
  no_second_settlement apps free p k j c d w u v v' settles again done between twice =
      let (s, _, _, after) = (run-Retires apps c p k w settles).at tt u done in
      let (r, before, sent, _) = (run-Retires apps d p j v again).at tt v' twice in
      let retired =
        Reach-retired E free p
          (Reach-trans E after (Reach-trans E (History-Reach E apps between) before))
          (lookup-insert-same (commitment_path E p) commitment_magic_ack s.commitments) in
      acknowledged_is_not_sent (ground (arith, retired, sent))
    where
      acknowledged_is_not_sent : some commitment_magic_ack ≢ some commitment_magic
      acknowledged_is_not_sent same = ground (arith, same)
