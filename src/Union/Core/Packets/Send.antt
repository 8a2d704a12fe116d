-- ===== src/Union/Core/Packets/Send.antt =====
-- core/v1/packet.gno: sending a packet.
use gno_ibc.Prelude.{ℕ, not, Bytes, eqb}
use gno_ibc.Prelude.Eq.{◌==◌, nat_eq, bytes_eq}
use gno_ibc.Union.Types.{ChannelState, Packet, channel_state_eq}
use gno_ibc.Union.Core.World.{Env, Context, Error, Event, is_valid_packet_data_size}
use gno_ibc.Union.Core.Exec.{
  Exec, ◌>>=◌, ◌>>◌, pure, gets, or_panic, panic_if, assert_is_rlm_current, emit,
}
use gno_ibc.Union.Core.Store.{has_packet_commitment, commit_packet, get_channel_owner}
use gno_ibc.Union.Core.Connections.{ensure_connection_state}
use gno_ibc.Union.Core.Channels.{must_get_channel}

module _ {T F : Type 0} (E : Env T F) where
  -- `SendPacket`
  unfoldable pub send_packet : Context → ℕ → ℕ → Bytes → Exec T F Packet
  unfolding get_channel_owner must_get_channel ensure_connection_state has_packet_commitment
      commit_packet emit
  send_packet c source timeout payload = do
    assert_is_rlm_current c
    config ← gets (λ w. w.event_config)
    panic_if (not (is_valid_packet_data_size config payload)) Error.packet_combined_data_too_large
    panic_if (eqb timeout 0) Error.timeout_must_be_set
    owner ← get_channel_owner E source
    port ← or_panic owner Error.channel_not_found
    panic_if (not (port == c.previous_pkg_path)) Error.unauthorized_packet_sender
    channel ← must_get_channel E source
    panic_if (not (channel_state_eq channel.state ChannelState.opened)) Error.invalid_channel_state
    connection ← ensure_connection_state E channel.connection_id
    let packet : Packet = record {
      source_channel_id = source;
      destination_channel_id = channel.counterparty_channel_id;
      payload = payload;
      timeout_height = 0;
      timeout_timestamp = timeout;
    }
    sent ← has_packet_commitment E packet
    panic_if sent Error.packet_commitment_already_exists
    commit_packet E c packet
    emit E c (Event.packet_send packet channel connection)
    pure packet
