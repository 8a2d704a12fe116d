-- ===== src/Union/Core/Safety/Replay.antt =====
-- Receiving a batch again: where every packet of it was received, nothing happens but its verification.
use gno_ibc.Prelude.{ℕ, ◌≡◌, refl, Bool, Option, List, Bytes, arith}
use gno_ibc.Prelude.Result.{Result, ok}
use gno_ibc.Encoding.Abi.{AbiError}
use gno_ibc.Union.Types.{Channel, Connection, Packet, Height}
use gno_ibc.Union.Msgs.{MsgPacketRecv}
use gno_ibc.Union.Core.World.{World, Env, Context, Error, Event, RecvCall}
use gno_ibc.Union.Core.Exec.{Exec, ◌>>=◌, or_panic, panic_if, must_encode}
use gno_ibc.Union.Core.Clients.{verify_membership}
use gno_ibc.Union.Core.Connections.{ensure_connection_state}
use gno_ibc.Union.Core.Channels.{must_get_channel, get_app_at_port, owner_or_nil}
use gno_ibc.Union.Core.Packets.{recv_one, recv_loop, packet_recv}
use gno_ibc.Union.Core.Calls.{Call, run, History}
use gno_ibc.Union.Core.Protocol.{AppsReach}
use gno_ibc.Union.Core.Protocol.Commitments.{receipt_path, Reach-present}
use gno_ibc.Union.Core.Protocol.Run.{bind-eq-ok}
use gno_ibc.Union.Core.Handlers.Refinement.{History-Reach}
use gno_ibc.Union.Core.Safety.Pairs.{Paired}
use gno_ibc.Union.Core.Safety.Receiving.{Received, Delivers, run-Receives, replay_loop}

module _ {T F : Type 0} (E : Env T F) (base : World T F) where
  -- The world differs from `base` in the state of light clients and apps at most.
  abbrev pub Same : World T F → Type 0
  Same w = w ≡ record base { foreign_state = w.foreign_state }

  -- Code that, where it returns, keeps that.
  record Quiet {A : Type 0} (m : Exec T F A) : Type 0 where
    at : (w : World T F) (a : A) (w' : World T F) → Same w → m w ≡ ok (a, w') → Same w'

  Quiet-bind :
      {A B : Type 0} (m : Exec T F A) (f : A → Exec T F B)
      → Quiet m
      → ((a : A) → Quiet (f a))
      → Quiet (m >>= f)
  Quiet-bind m f first rest = record {
    at = λ w b u same done.
        let (a, w', head, tail) = bind-eq-ok m f w u b done in
        (rest a).at w' b u (first.at w a w' same head) tail;
  }

  module _ {A : Type 0} where
    Quiet-or_panic : (o : Option A) (x : Error) → Quiet (or_panic o x)
    unfolding ◌>>=◌
    Quiet-or_panic o x = record { at = λ w a w' same done. ground (arith, same, done) }

    Quiet-must_encode : (r : Result AbiError A) → Quiet (must_encode r)
    unfolding ◌>>=◌
    Quiet-must_encode r = record { at = λ w a w' same done. ground (arith, same, done) }

  Quiet-panic_if : (b : Bool) (x : Error) → Quiet (panic_if b x)
  unfolding ◌>>=◌
  Quiet-panic_if b x = record { at = λ w a w' same done. ground (arith, same, done) }

  Quiet-must_get_channel : (id : ℕ) → Quiet (must_get_channel E id)
  unfolding must_get_channel ◌>>=◌
  Quiet-must_get_channel id = record { at = λ w a w' same done. ground (arith, same, done) }

  Quiet-ensure_connection_state : (id : ℕ) → Quiet (ensure_connection_state E id)
  unfolding ensure_connection_state ◌>>=◌
  Quiet-ensure_connection_state id = record { at = λ w a w' same done. ground (arith, same, done) }

  Quiet-owner_or_nil : (id : ℕ) → Quiet (owner_or_nil E id)
  unfolding owner_or_nil ◌>>=◌
  Quiet-owner_or_nil id = record { at = λ w a w' same done. ground (arith, same, done) }

  Quiet-get_app_at_port : (port : Bytes) → Quiet (get_app_at_port E port)
  unfolding get_app_at_port ◌>>=◌
  Quiet-get_app_at_port port = record { at = λ w a w' same done. ground (arith, same, done) }

  Quiet-verify_membership :
      (id : ℕ) (h : Height) (proof key value : Bytes)
      → Quiet (verify_membership E id h proof key value)
  unfolding verify_membership ◌>>=◌
  Quiet-verify_membership id h proof key value = record {
    at = λ w a w' same done. ground (arith, same, done);
  }

  Quiet-recv_loop :
      (c : Context) (app : ℕ) (call : Packet → Bytes → RecvCall) (event : Packet → Bytes → Event)
      (batch : ℕ) (ch : Channel) (conn : Connection) (ps : List Packet) (ms : List Bytes)
      → ((p : Packet) → Paired p ps ms → Received E p base)
      → Quiet (recv_loop E (recv_one E c app call event batch ch conn) ps ms)
  Quiet-recv_loop c app call event batch ch conn ps ms there = record {
    at = λ w a w' same done.
        let known : (p : Packet) → Paired p ps ms → Received E p w =
          λ p paired gone. there p paired (ground (arith, gone, same)) in
        let unchanged = replay_loop E c app call event batch ch conn ps ms w w' known done in
        ground (arith, unchanged, same);
  }

  Quiet-packet_recv :
      (c : Context) (msg : MsgPacketRecv)
      → ((p : Packet) → Paired p msg.packets msg.relayer_msgs → Received E p base)
      → Quiet (packet_recv E c msg)
  unfolding packet_recv
  Quiet-packet_recv c msg there =
      search
        (
          Quiet-bind, Quiet-or_panic, Quiet-must_encode, Quiet-panic_if, Quiet-must_get_channel,
          Quiet-ensure_connection_state, Quiet-owner_or_nil, Quiet-get_app_at_port,
          Quiet-verify_membership, Quiet-recv_loop, there,
        )
        depth 20

module _ {T F : Type 0} (E : Env T F) where
  -- Where the apps' callbacks follow the protocol: once a call that delivers packets has returned, a
  -- later PacketRecv of no other packets that returns, whatever calls succeeded in between, has
  -- changed nothing but the state of light clients and apps: no commitment, no event and no parameter
  -- of the chain changes.
  pub replay_changes_nothing :
      AppsReach E
      → (k : Call) (msg : MsgPacketRecv) (c d : Context) (w u v v' : World T F)
      → ((p : Packet) → Paired p msg.packets msg.relayer_msgs → Delivers p k)
      → run E c k w ≡ ok (tt, u)
      → History E u v
      → packet_recv E d msg v ≡ ok (tt, v')
      → v' ≡ record v { foreign_state = v'.foreign_state }
  replay_changes_nothing apps k msg c d w u v v' delivers done between again =
      (Quiet-packet_recv E v d msg (λ p paired.
          Reach-present E (receipt_path E p) (History-Reach E apps between)
            ((run-Receives E apps c p k w (delivers p paired)).at tt u done))).at
        v tt v' refl again
