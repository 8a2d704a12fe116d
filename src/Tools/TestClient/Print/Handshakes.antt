-- ===== src/Tools/TestClient/Print/Handshakes.antt =====
-- tools/gen-ibc-test-client/main.go: the `print…` functions of the connection and channel handshakes.
use gno_ibc.Prelude.{[], ◌∷◌, Bytes}
use gno_ibc.Encoding.Hex.{codes}
use gno_ibc.Encoding.Decimal.{decimal}
use gno_ibc.Tools.TestClient.{
  Connection, Channel, encode_connection, encode_channel, connection_path, channel_path,
}
use gno_ibc.Tools.TestClient.Vars.{
  Vars, client_id, counterparty_client_id, connection_id, channel_id, counterparty_port_id, version,
}
use gno_ibc.Tools.TestClient.Args.{
  connection_open_try_args, connection_open_ack_args, connection_open_confirm_args,
  channel_open_init_args, channel_open_try_args, channel_open_ack_args, channel_open_confirm_args,
}
use gno_ibc.Tools.TestClient.Print.{printf, print_section, print_commit}

module _ (keccak : Bytes → Bytes) where
  -- `printConnectionOpenInit`
  unfoldable pub print_connection_open_init : Bytes
  print_connection_open_init =
      let c : Connection = record {
        state = 1;
        client_id = client_id;
        counterparty_client_id = counterparty_client_id;
        counterparty_connection_id = 0;
      } in
      printf (
        print_section (codes "3") (codes "ConnectionOpenInit")
          (codes "connectionOpenInitArgs, encodeConnection, connectionPath")
        ∷ codes "CLIENT_ID="
        ∷ decimal client_id
        ∷ codes "\nCOUNTERPARTY_CLIENT_ID="
        ∷ decimal counterparty_client_id
        ∷ codes "\n"
        ∷ print_commit (codes "connection init") (connection_path keccak connection_id)
            (keccak (encode_connection c))
        ∷ [])

  -- `printConnectionOpenTry`
  unfoldable pub print_connection_open_try : Vars → Bytes
  print_connection_open_try vars =
      let args = connection_open_try_args vars in
      let c : Connection = record {
        state = 2;
        client_id = client_id;
        counterparty_client_id = counterparty_client_id;
        counterparty_connection_id = args.counterparty_connection_id;
      } in
      printf (
        print_section (codes "4") (codes "ConnectionOpenTry") (
          codes "connectionOpenTryArgs, z35ConnectionTryProofHex, encodeConnection, connectionPath")
        ∷ codes "CLIENT_ID="
        ∷ decimal args.client_id
        ∷ codes "\nCOUNTERPARTY_CLIENT_ID="
        ∷ decimal args.counterparty_client_id
        ∷ codes "\nCOUNTERPARTY_CONNECTION_ID="
        ∷ decimal args.counterparty_connection_id
        ∷ codes "\nPROOF_INIT_HEX="
        ∷ args.proof_hex
        ∷ codes "\nPROOF_HEIGHT="
        ∷ decimal args.proof_height
        ∷ codes "\n"
        ∷ print_commit (codes "connection try") (connection_path keccak 2)
            (keccak (encode_connection c))
        ∷ [])

  -- `printConnectionOpenAck`
  unfoldable pub print_connection_open_ack : Vars → Bytes
  print_connection_open_ack vars =
      let args = connection_open_ack_args vars in
      let c : Connection = record {
        state = 3;
        client_id = client_id;
        counterparty_client_id = counterparty_client_id;
        counterparty_connection_id = args.counterparty_connection_id;
      } in
      printf (
        print_section (codes "5") (codes "ConnectionOpenAck") (
          codes "connectionOpenAckArgs, z35ConnectionTryProofHex, encodeConnection, connectionPath")
        ∷ codes "CONNECTION_ID="
        ∷ decimal args.connection_id
        ∷ codes "\nCOUNTERPARTY_CONNECTION_ID="
        ∷ decimal args.counterparty_connection_id
        ∷ codes "\nPROOF_TRY_HEX="
        ∷ args.proof_hex
        ∷ codes "\nPROOF_HEIGHT="
        ∷ decimal args.proof_height
        ∷ codes "\n"
        ∷ print_commit (codes "connection open") (connection_path keccak connection_id)
            (keccak (encode_connection c))
        ∷ [])

  -- `printConnectionOpenConfirm`
  unfoldable pub print_connection_open_confirm : Bytes
  print_connection_open_confirm =
      let args = connection_open_confirm_args in
      let c : Connection = record {
        state = 3;
        client_id = client_id;
        counterparty_client_id = counterparty_client_id;
        counterparty_connection_id = connection_id;
      } in
      printf (
        print_section (codes "6") (codes "ConnectionOpenConfirm")
          (codes "connectionOpenConfirmArgs, encodeConnection, connectionPath")
        ∷ codes "CONNECTION_ID="
        ∷ decimal args.connection_id
        ∷ codes "\nPROOF_ACK_HEX="
        ∷ args.proof_hex
        ∷ codes "\nPROOF_HEIGHT="
        ∷ decimal args.proof_height
        ∷ codes "\n"
        ∷ print_commit (codes "connection confirm/open") (connection_path keccak 2)
            (keccak (encode_connection c))
        ∷ [])

  -- `printChannelOpenInit`
  unfoldable pub print_channel_open_init : Bytes
  print_channel_open_init =
      let args = channel_open_init_args in
      let ch : Channel = record {
        state = 1;
        connection_id = args.connection_id;
        counterparty_channel_id = 0;
        counterparty_port_id = args.counterparty_port_id;
        version = args.version;
      } in
      printf (
        print_section (codes "7") (codes "ChannelOpenInit")
          (codes "channelOpenInitArgs, encodeChannel, channelPath")
        ∷ codes "PORT_ID="
        ∷ args.port_id
        ∷ codes "\nCOUNTERPARTY_PORT_ID="
        ∷ args.counterparty_port_id
        ∷ codes "\nCONNECTION_ID="
        ∷ decimal args.connection_id
        ∷ codes "\nVERSION="
        ∷ args.version
        ∷ codes "\n"
        ∷ print_commit (codes "channel init") (channel_path keccak channel_id)
            (keccak (encode_channel ch))
        ∷ [])

  -- `printChannelOpenTry`
  unfoldable pub print_channel_open_try : Vars → Bytes
  print_channel_open_try vars =
      let args = channel_open_try_args vars in
      let ch : Channel = record {
        state = 2;
        connection_id = args.connection_id;
        counterparty_channel_id = args.counterparty_channel_id;
        counterparty_port_id = args.counterparty_port_id;
        version = args.version;
      } in
      printf (
        print_section (codes "8") (codes "ChannelOpenTry")
          (codes "channelOpenTryArgs, z35ChannelTryProofHex, encodeChannel, channelPath")
        ∷ codes "PORT_ID="
        ∷ args.port_id
        ∷ codes "\nCONNECTION_ID="
        ∷ decimal args.connection_id
        ∷ codes "\nCOUNTERPARTY_PORT_ID="
        ∷ args.counterparty_port_id
        ∷ codes "\nCOUNTERPARTY_CHANNEL_ID="
        ∷ decimal args.counterparty_channel_id
        ∷ codes "\nVERSION="
        ∷ args.version
        ∷ codes "\nCOUNTERPARTY_VERSION="
        ∷ args.counterparty_version
        ∷ codes "\nPROOF_INIT_HEX="
        ∷ args.proof_hex
        ∷ codes "\nPROOF_HEIGHT="
        ∷ decimal args.proof_height
        ∷ codes "\n"
        ∷ print_commit (codes "channel try") (channel_path keccak 2) (keccak (encode_channel ch))
        ∷ [])

  -- `printChannelOpenAck`
  unfoldable pub print_channel_open_ack : Vars → Bytes
  print_channel_open_ack vars =
      let args = channel_open_ack_args vars in
      let ch : Channel = record {
        state = 3;
        connection_id = connection_id;
        counterparty_channel_id = args.counterparty_channel_id;
        counterparty_port_id = counterparty_port_id;
        version = args.counterparty_version;
      } in
      printf (
        print_section (codes "9") (codes "ChannelOpenAck")
          (codes "channelOpenAckArgs, z35ChannelTryProofHex, encodeChannel, channelPath")
        ∷ codes "CHANNEL_ID="
        ∷ decimal args.channel_id
        ∷ codes "\nCOUNTERPARTY_VERSION="
        ∷ args.counterparty_version
        ∷ codes "\nCOUNTERPARTY_CHANNEL_ID="
        ∷ decimal args.counterparty_channel_id
        ∷ codes "\nPROOF_TRY_HEX="
        ∷ args.proof_hex
        ∷ codes "\nPROOF_HEIGHT="
        ∷ decimal args.proof_height
        ∷ codes "\n"
        ∷ print_commit (codes "channel open") (channel_path keccak channel_id)
            (keccak (encode_channel ch))
        ∷ [])

  -- `printChannelOpenConfirm`
  unfoldable pub print_channel_open_confirm : Bytes
  print_channel_open_confirm =
      let args = channel_open_confirm_args in
      let ch : Channel = record {
        state = 3;
        connection_id = connection_id;
        counterparty_channel_id = channel_id;
        counterparty_port_id = counterparty_port_id;
        version = version;
      } in
      printf (
        print_section (codes "10") (codes "ChannelOpenConfirm")
          (codes "channelOpenConfirmArgs, encodeChannel, channelPath")
        ∷ codes "CHANNEL_ID="
        ∷ decimal args.channel_id
        ∷ codes "\nPROOF_ACK_HEX="
        ∷ args.proof_hex
        ∷ codes "\nPROOF_HEIGHT="
        ∷ decimal args.proof_height
        ∷ codes "\n"
        ∷ print_commit (codes "channel confirm/open") (channel_path keccak 2)
            (keccak (encode_channel ch))
        ∷ [])
