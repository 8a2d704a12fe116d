-- ===== src/Union/Core/Safety/Receiving.antt =====
-- A packet is delivered at most once, and receiving a batch again changes nothing.
use gno_ibc.Prelude.{
  ℕ, ◌≡◌, ◌≢◌, ◌∙◌, Bool, true, false, none, List, [], ◌∷◌, Bytes, arith, if◌then◌else◌, ap, sym,
  refl, inl, inr, ◌⊎◌,
}
use gno_ibc.Prelude.Result.{ok, err, Result-cases}
use gno_ibc.Union.Types.{Channel, Connection, Packet}
use gno_ibc.Union.Msgs.{MsgPacketRecv, MsgIntentPacketRecv}
use gno_ibc.Union.Commitment.{commitment_magic}
use gno_ibc.Union.Core.World.{World, Env, Context, Event, Error, RecvCall}
use gno_ibc.Union.Core.Exec.{Exec, ◌>>=◌, ◌>>◌, pure, emit}
use gno_ibc.Union.Core.Packets.{
  accept_recv_packet, recv_one, recv_loop, packet_recv, intent_packet_recv, call_recv,
  commit_sync_ack,
}
use gno_ibc.Union.Core.Calls.{Call, run, History}
use gno_ibc.Union.Core.Protocol.{AppsReach}
use gno_ibc.Union.Core.Protocol.Commitments.{
  receipt_path, commitment_at, lookup-insert-same, Reach-present,
}
use gno_ibc.Union.Core.Protocol.Run.{Follows, bind-eq-ok}
use gno_ibc.Union.Core.Handlers.Leaves.{follows_rules}
use gno_ibc.Union.Core.Handlers.Packets.{accept_recv_packet-false, accept_recv_packet-true}
use gno_ibc.Union.Core.Handlers.Receive.{Follows-recv_loop, deliver-Follows}
use gno_ibc.Union.Core.Handlers.Refinement.{History-Reach}
use gno_ibc.Union.Core.Safety.Pairs.{Paired, first, later}

-- The calls that bring a packet to its app.
pub data Delivers (p : Packet) : Call → Type 0 where
  by_relayer :
      (msg : MsgPacketRecv)
      → Paired p msg.packets msg.relayer_msgs
      → Delivers p (Call.packet_recv msg)
  by_market_maker :
      (msg : MsgIntentPacketRecv)
      → Paired p msg.packets msg.market_maker_messages
      → Delivers p (Call.intent_packet_recv msg)

module _ {T F : Type 0} (E : Env T F) where
  pure_same : (w w' : World T F) → pure tt w ≡ ok (tt, w') → w' ≡ w
  unfolding ◌>>=◌
  pure_same w w' done = ground (arith, done)

  module _ {A B : Type 0} (m : Exec T F A) (f : A → Exec T F B) (w : World T F) where
    bind-ok : {a : A} {u : World T F} → m w ≡ ok (a, u) → (m >>= f) w ≡ f a u
    unfolding ◌>>=◌
    bind-ok done = rw (done, ◌>>=◌) refl

    bind-err : {e : Error} → m w ≡ err e → (m >>= f) w ≡ err e
    unfolding ◌>>=◌
    bind-err failed = rw (failed, ◌>>=◌) refl

  abbrev pub Received : Packet → World T F → Type 0
  Received p w = commitment_at E (receipt_path E p) w.store ≢ none

  -- Where `m` returns, the packet has its receipt.
  pub record Receives (p : Packet) {A : Type 0} (m : Exec T F A) (w : World T F) : Type 0 where
    pub at : (a : A) (w' : World T F) → m w ≡ ok (a, w') → Received p w'

  module _ (p : Packet) {A B : Type 0} (m : Exec T F A) (f : A → Exec T F B) (w : World T F) where
    Receives-first :
        Receives p m w
        → ((a : A) (w' : World T F) → m w ≡ ok (a, w') → Follows E (f a) w')
        → Receives p (m >>= f) w
    Receives-first now rest = record {
      at = λ b u done.
          let (a, w', head, tail) = bind-eq-ok m f w u b done in
          Reach-present E (receipt_path E p) ((rest a w' head).at b u tail) (now.at a w' head);
    }

    Receives-rest :
        ((a : A) (w' : World T F) → m w ≡ ok (a, w') → Receives p (f a) w') → Receives p (m >>= f) w
    Receives-rest rest = record {
      at = λ b u done.
          let (a, w', head, tail) = bind-eq-ok m f w u b done in (rest a w' head).at b u tail;
    }

  Receives-accept :
      (c : Context) (p : Packet) (batch now : ℕ) (w : World T F)
      → Receives p (accept_recv_packet E c p batch now) w
  Receives-accept c p batch now w = record { at = go }
    where
      go :
          (skip : Bool) (w' : World T F)
          → accept_recv_packet E c p batch now w ≡ ok (skip, w')
          → Received p w'
      go true w' done =
          let (there, same) = accept_recv_packet-true E c w w' p batch now done in rw same there
      go false w' done =
          let (_, same) = accept_recv_packet-false E c w w' p batch now done in
          λ gone. ground (
            arith,
            gone,
            same,
            lookup-insert-same (receipt_path E p) commitment_magic w.store.commitments,
          )

  module _ (apps : AppsReach E) (c : Context) where
    module _ (app : ℕ) (call : Packet → Bytes → RecvCall) (event : Packet → Bytes → Event)
        (batch : ℕ) (ch : Channel) (conn : Connection) where
      Receives-recv_one :
          (p : Packet) (m : Bytes) (w : World T F)
          → Receives p (recv_one E c app call event batch ch conn p m) w
      unfolding recv_one
      Receives-recv_one p m w = Receives-first p _ _ w (Receives-accept c p batch c.unix_nano w) go
        where
          go :
              (skip : Bool) (w' : World T F)
              → accept_recv_packet E c p batch c.unix_nano w ≡ ok (skip, w')
              → Follows E
                  (if skip
                    then pure tt
                    else (call_recv E c app (call p m) >>= λ res.
                        commit_sync_ack E c p ch conn res >> emit E c (event p m)))
                  w'
          go true w' done = search follows_rules
          go false w' done =
              deliver-Follows E c apps app call event batch ch conn p m w'
                ((Receives-accept c p batch c.unix_nano w).at false w' done)

      Receives-recv_loop :
          (p : Packet) (ps : List Packet) (ms : List Bytes) (w : World T F)
          → Paired p ps ms
          → Receives p (recv_loop E (recv_one E c app call event batch ch conn) ps ms) w
      unfolding recv_loop
      Receives-recv_loop p [] ms w paired = elim paired [ ]
      Receives-recv_loop p (q ∷ ps) [] w paired = elim paired [ ]
      Receives-recv_loop p (_ ∷ ps) (m ∷ ms) w first =
          Receives-first p _ _ w (Receives-recv_one p m w)
            λ _ w' _. Follows-recv_loop E c apps app call event batch ch conn ps ms w'
      Receives-recv_loop p (q ∷ ps) (m ∷ ms) w (later in_rest) =
          Receives-rest p _ _ w λ _ w' _. Receives-recv_loop p ps ms w' in_rest

    Receives-packet_recv :
        (msg : MsgPacketRecv) (p : Packet) (w : World T F)
        → Paired p msg.packets msg.relayer_msgs
        → Receives p (packet_recv E c msg) w
    unfolding packet_recv
    Receives-packet_recv msg p w paired =
        search (Receives-rest, Receives-recv_loop, paired) depth 20

    Receives-intent_packet_recv :
        (msg : MsgIntentPacketRecv) (p : Packet) (w : World T F)
        → Paired p msg.packets msg.market_maker_messages
        → Receives p (intent_packet_recv E c msg) w
    unfolding intent_packet_recv
    Receives-intent_packet_recv msg p w paired =
        search (Receives-rest, Receives-recv_loop, paired) depth 20

    pub run-Receives :
        (p : Packet) (k : Call) (w : World T F) → Delivers p k → Receives p (run E c k) w
    unfolding run
    run-Receives p _ w (by_relayer msg paired) = Receives-packet_recv msg p w paired
    run-Receives p _ w (by_market_maker msg paired) = Receives-intent_packet_recv msg p w paired

  -- `acceptRecvPacket` panics, or reports a packet to skip and leaves the world as it is.
  abbrev pub Skips : Context → Packet → ℕ → World T F → Type 0
  Skips c p batch w =
      ((e : Error) × (accept_recv_packet E c p batch c.unix_nano w ≡ err e))
      ⊎ (accept_recv_packet E c p batch c.unix_nano w ≡ ok (true, w))

  module _ (c : Context) (app : ℕ) (call : Packet → Bytes → RecvCall)
      (event : Packet → Bytes → Event) (batch : ℕ) (ch : Channel) (conn : Connection) where
    -- The body of the loop does no more than ask for the packet, which it is told to skip.
    skip_one :
        (p : Packet) (m : Bytes) (w : World T F)
        → Received p w
        → (recv_one E c app call event batch ch conn p m w
            ≡ (accept_recv_packet E c p batch c.unix_nano >>= λ _. pure tt) w)
          × Skips c p batch w
    unfolding recv_one
    skip_one p m w there = elim (Result-cases (accept_recv_packet E c p batch c.unix_nano w)) [
      | inr (e, failed) ↦ (bind-err _ _ w failed ∙ sym (bind-err _ _ w failed), inl (e, failed))
      | inl ((true, u), skips) ↦ (
        bind-ok _ _ w skips ∙ sym (bind-ok _ _ w skips),
        inr (
            skips
            ∙ ap (λ v. ok (true, v)) (accept_recv_packet-true E c w u p batch c.unix_nano skips).1),
      )
      | inl ((false, u), lets) ↦
          absurd (there (accept_recv_packet-false E c w u p batch c.unix_nano lets).0)
    ]

    -- A packet with its receipt is skipped.
    replay_one :
        (p : Packet) (m : Bytes) (w w' : World T F)
        → Received p w
        → recv_one E c app call event batch ch conn p m w ≡ ok (tt, w')
        → w' ≡ w
    unfolding recv_one
    replay_one p m w w' there done =
        let (skip, u, accepted, rest) = bind-eq-ok _ _ w w' tt done in go skip u accepted rest
      where
        go :
            (skip : Bool) (u : World T F)
            → accept_recv_packet E c p batch c.unix_nano w ≡ ok (skip, u)
            → (if skip
                  then pure tt
                  else (call_recv E c app (call p m) >>= λ res.
                      commit_sync_ack E c p ch conn res >> emit E c (event p m)))
                u
              ≡ ok (tt, w')
            → w' ≡ w
        go true u e h = pure_same u w' h ∙ (accept_recv_packet-true E c w u p batch c.unix_nano e).1
        go false u e h = absurd (there (accept_recv_packet-false E c w u p batch c.unix_nano e).0)

    -- Where every packet of the loop has its receipt, the loop changes nothing.
    pub replay_loop :
        (ps : List Packet) (ms : List Bytes) (w w' : World T F)
        → ((p : Packet) → Paired p ps ms → Received p w)
        → recv_loop E (recv_one E c app call event batch ch conn) ps ms w ≡ ok (tt, w')
        → w' ≡ w
    unfolding recv_loop
    replay_loop [] ms w w' there done = pure_same w w' done
    replay_loop (p ∷ ps) [] w w' there done = pure_same w w' done
    replay_loop (p ∷ ps) (m ∷ ms) w w' there done =
        let (_, u, one, rest) = bind-eq-ok _ _ w w' tt done in
        let same = replay_one p m w u (there p first) one in
        replay_loop ps ms u w' (λ q paired. rw same (there q (later paired))) rest ∙ same

  -- Where the apps' callbacks follow the protocol: once a call that delivers a packet has returned,
  -- whatever calls succeeded in between, the body of the loops of PacketRecv and IntentPacketRecv does
  -- for the same packet what `acceptRecvPacket` alone does: it calls no app, writes no acknowledgement
  -- and emits no event, whatever app, message and event it is given. And `acceptRecvPacket` panics or
  -- reports a packet to skip, and leaves the world as it is.
  pub no_second_delivery :
      AppsReach E
      → (p : Packet) (k : Call) (c d : Context) (w u v : World T F) → Delivers p k
      → run E c k w ≡ ok (tt, u)
      → History E u v
      → (app : ℕ) (call : Packet → Bytes → RecvCall) (event : Packet → Bytes → Event) (batch : ℕ)
        (ch : Channel) (conn : Connection) (m : Bytes)
      → (recv_one E d app call event batch ch conn p m v
          ≡ (accept_recv_packet E d p batch d.unix_nano >>= λ _. pure tt) v)
        × Skips d p batch v
  no_second_delivery apps p k c d w u v delivers done between app call event batch ch conn m =
      skip_one d app call event batch ch conn p m v (
        Reach-present E (receipt_path E p) (History-Reach E apps between)
          ((run-Receives apps c p k w delivers).at tt u done))
