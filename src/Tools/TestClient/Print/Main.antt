-- ===== src/Tools/TestClient/Print/Main.antt =====
-- tools/gen-ibc-test-client/main.go: `main`, which stops at the first panic.
use gno_ibc.Prelude.{[], ◌∷◌, Bytes}
use gno_ibc.Prelude.Result.{Result, ok, ◌>>=◌}
use gno_ibc.Tools.TestClient.{Panic}
use gno_ibc.Tools.TestClient.Vars.{init_vars}
use gno_ibc.Tools.TestClient.Print.{printf, print_header, print_create_client, print_update_client}
use gno_ibc.Tools.TestClient.Print.Handshakes.{
  print_connection_open_init, print_connection_open_try, print_connection_open_ack,
  print_connection_open_confirm, print_channel_open_init, print_channel_open_try,
  print_channel_open_ack, print_channel_open_confirm,
}

module _ (keccak : Bytes → Bytes) (quote : Bytes → Bytes) where
  -- `main`, with the initialisation of the package variables, as what it prints
  unfoldable pub run : Result Panic Bytes
  run = do
    vars ← init_vars
    created ← print_create_client keccak vars
    updated ← print_update_client keccak vars
    ok (
        printf (
          print_header quote
          ∷ created
          ∷ updated
          ∷ print_connection_open_init keccak
          ∷ print_connection_open_try keccak vars
          ∷ print_connection_open_ack keccak vars
          ∷ print_connection_open_confirm keccak
          ∷ print_channel_open_init keccak
          ∷ print_channel_open_try keccak vars
          ∷ print_channel_open_ack keccak vars
          ∷ print_channel_open_confirm keccak
          ∷ []))
