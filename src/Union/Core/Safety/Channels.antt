-- ===== src/Union/Core/Safety/Channels.antt =====
-- A channel over any history of calls.
use gno_ibc.Prelude.{ℕ, ◌^◌, ◌<◌, ◌≡◌, some, arith}
use gno_ibc.Union.Types.{ChannelState}
use gno_ibc.Union.Core.World.{World, Env, ChannelEntry, TreeValue}
use gno_ibc.Union.Core.Calls.{History}
use gno_ibc.Union.Core.Protocol.{find_channel, AppsReach}
use gno_ibc.Union.Core.Protocol.Channels.{
  TreeLaws, SeqLaws, Allocated, Reach-life, Moves-closed, Moves-identity,
}
use gno_ibc.Union.Core.Handlers.Refinement.{History-Reach}

module _ {T F : Type 0} (E : Env T F) where
  -- Where trees, id sequences and apps behave as documented, where every channel's id had been
  -- allocated at the start, and while fewer than 2 ^ 32 channels are allocated: over any history of
  -- successful calls a channel stays there, and it keeps the port that owns it, its connection and its
  -- counterparty's port.
  pub channel_identity :
      TreeLaws E
      → SeqLaws E
      → AppsReach E
      → (w v : World T F) (id : ℕ) (e : ChannelEntry) → Allocated E w.store
      → v.store.channel_seq < 2 ^ 32
      → History E w v
      → find_channel E w.store id ≡ some (TreeValue.channel_value e)
      → (e' : ChannelEntry) × (find_channel E v.store id ≡ some (TreeValue.channel_value e'))
        × (e'.port_id ≡ e.port_id)
        × (e'.channel.connection_id ≡ e.channel.connection_id)
        × (e'.channel.counterparty_port_id ≡ e.channel.counterparty_port_id)
  channel_identity trees seqs apps w v id e all small between found =
      let (e', now, owner, moves) =
        Reach-life E trees seqs id e (History-Reach E apps between) small all found in
      let (connection, port) = Moves-identity moves in (e', now, owner, connection, port)

  -- Where trees, id sequences and apps behave as documented, where every channel's id had been
  -- allocated at the start, and while fewer than 2 ^ 32 channels are allocated: over any history of
  -- successful calls the entry of a closed channel is never changed.
  pub closed_is_final :
      TreeLaws E
      → SeqLaws E
      → AppsReach E
      → (w v : World T F) (id : ℕ) (e : ChannelEntry) → Allocated E w.store
      → v.store.channel_seq < 2 ^ 32
      → History E w v
      → find_channel E w.store id ≡ some (TreeValue.channel_value e)
      → e.channel.state ≡ ChannelState.closed
      → find_channel E v.store id ≡ some (TreeValue.channel_value e)
  closed_is_final trees seqs apps w v id e all small between found closed =
      let (e', now, owner, moves) =
        Reach-life E trees seqs id e (History-Reach E apps between) small all found in
      let same = Moves-closed moves closed in ground (arith, now, owner, same)
