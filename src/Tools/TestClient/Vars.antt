-- ===== src/Tools/TestClient/Vars.antt =====
-- tools/gen-ibc-test-client/main.go: its constants and its package variables. A variable whose literal
-- does not decode would stop the program before `main`.
use gno_ibc.Prelude.{ℕ, ◌-◌, ◌*◌, Bytes}
use gno_ibc.Prelude.Result.{Result, ok, ◌>>=◌}
use gno_ibc.Encoding.Hex.{codes}
use gno_ibc.Tools.TestClient.{Panic, must_hex}

-- The constants that name the realm, and those of the client, the connection and the channel.
abbrev pub realm_path : Bytes
realm_path = codes "gno.land/r/onbloc/unionibc/v1/core"

abbrev pub devnet_chain_id : Bytes
devnet_chain_id = codes "union-devnet-1337"

abbrev pub devnet_height : ℕ
devnet_height = 3405691582

abbrev pub devnet_time_seconds : ℕ
devnet_time_seconds = 1732205251

abbrev pub devnet_time_nanos : ℕ
devnet_time_nanos = 998131342

abbrev pub proof_height : ℕ
proof_height = devnet_height - 1

abbrev pub client_id : ℕ
client_id = 1

abbrev pub counterparty_client_id : ℕ
counterparty_client_id = 99

abbrev pub connection_id : ℕ
connection_id = 1

abbrev pub counterparty_connection_id : ℕ
counterparty_connection_id = 77

abbrev pub channel_id : ℕ
channel_id = 1

abbrev pub counterparty_channel_id : ℕ
counterparty_channel_id = 2

abbrev pub port_id : Bytes
port_id = codes "gno.land/r/onbloc/unionibc/v1/apps/zkgm"

abbrev pub counterparty_port_id : Bytes
counterparty_port_id = codes "gno.land/r/onbloc/unionibc/v1/apps/zkgm"

abbrev pub version : Bytes
version = codes "ucs03-zkgm-0"

abbrev pub client_type : Bytes
client_type = codes "cometbls"

abbrev pub trusting_period : ℕ
trusting_period = 10 * 365 * 24 * 3600 * 1000000000

abbrev pub updated_trust_period : ℕ
updated_trust_period = trusting_period

abbrev pub max_clock_drift : ℕ
max_clock_drift = 10 * 1000000000

abbrev pub frozen_height : ℕ
frozen_height = 0

-- The package variables.
pub record Vars : Type 0 where
  pub app_hash : Bytes
  pub validators_hash : Bytes
  pub contract_address : Bytes
  pub z35_root : Bytes
  pub z35_connection_try_proof : Bytes
  pub z35_channel_try_proof : Bytes
  pub zkp : Bytes

abbrev app_hash_literal : Bytes
app_hash_literal = codes "EE7E3E58F98AC95D63CE93B270981DF3EE54CA367F8D521ED1F444717595CD36"

abbrev validators_hash_literal : Bytes
validators_hash_literal = codes "20DDFE7A0F75C65D876316091ECCD494A54A2BB324C872015F73E528D53CB9C4"

abbrev contract_address_literal : Bytes
contract_address_literal = codes "0cf2ffe8f45a20514018173d3007644817a9767dc0fbdb246696fd9c261ce3bc"

abbrev z35_root_literal : Bytes
z35_root_literal = codes "e86ffd094be9dde9459f6c88333e663785f4f88adc7f3f91a55e166a3cfa89d1"

abbrev z35_connection_try_proof_literal : Bytes
z35_connection_try_proof_literal =
    codes
      "0add010ada010a2005f3c8eef62e74b10b7ee910fcc73c8358000f692d9ce2341a989e008e45b35d1220ff4fb67348c16e70c898c7cf43c460a684bc900d2b41e5a24ef6dcb2945860341a0d08011000180120012a03000202222b08011204020402201a212075fa5fd43f02dfcbcb0d9d1091ef50e8878f62e295bc58e670579fff822312c7222b08011204040802201a21208d76df01234dbce513db8913f231e2ad27b505ea2641f38079cd7d4e79136417222b08011204061002201a212023a5b9a52805603bebfa4b8d9153918f6bb74d8c190a95fb17651f3c228e15070a360a340a0369626312203b0e2fd01a894dc222e13ce7f5cfb397176764abe6376a7b7e63b2dfb9952a981a0b08011000180120012a0100"

abbrev z35_channel_try_proof_literal : Bytes
z35_channel_try_proof_literal =
    codes
      "0ad9010ad6010a2088601476d11616a71c5be67555bd1dff4b1cbf21533d2669b768b61518cfe1c31220fa3c11d224a164cd0beca2b6756128dc1531714a75813e9c2b5840bd8f2a83471a0d08011000180120012a0300020222290801122502040220fc911eec9c73d4884020ebb7d0173bfb0739579e4e64c63585a1e61466f11fc120222908011225040802209581d4d357f7e8f0d772870c181754178423903f17e5a481ecf11eb2688ff79e20222b08011204061002201a212023a5b9a52805603bebfa4b8d9153918f6bb74d8c190a95fb17651f3c228e15070a360a340a0369626312203b0e2fd01a894dc222e13ce7f5cfb397176764abe6376a7b7e63b2dfb9952a981a0b08011000180120012a0100"

abbrev zkp_literal : Bytes
zkp_literal =
    codes
      "03CF56142A1E03D2445A82100FEAF70C1CD95A731ED85792AFFF5792EC0BDD2108991BB56F9043A269F88903DE616A9AB99A3C5AB778E566744B060456C5616C06BCE7F1930421768C2CBD79F88D08EC3A52D7C9A867064E973064385E9C945E02951190DD7CE1662546733DD540188C96E608CA750FEF36B39E2577833634C70AE6F1A6D00DC6C21446AAF285EF35D944E8782B131300574F9A889C7E708A2325E9A78013BBE869D38B19C602DAF69644C77D177E99ED76398BCEE13C61FDBF2E178A5BA028A36033E54D1D9A0071E82E04079A5305347EBAC6D66F6EBFA48B1DA1BF9DC5A51EFA292E1DC7B85D26F18422EB386C48CA75434039764448BB96268DDC2CF683DDCA4BD83DF21C5631CF784375EEBE77EABC2DE77886BF1D48392C9C52E063B4A7131EAB9ABBA12A9F26888BC37366D41AC7D4BAC0BF6755ACB009BF9F36F380B6D0EEAABF066503A1B6E01DCC965D968D7694E01B1755E6BDD21C7A80B41682748F9B7151714BE34AA79AAD48BBB2A84525F6CDF812658C6E4F"

unfoldable pub init_vars : Result Panic Vars
unfolding must_hex
init_vars = do
  app_hash ← must_hex app_hash_literal
  validators_hash ← must_hex validators_hash_literal
  contract_address ← must_hex contract_address_literal
  z35_root ← must_hex z35_root_literal
  z35_connection_try_proof ← must_hex z35_connection_try_proof_literal
  z35_channel_try_proof ← must_hex z35_channel_try_proof_literal
  zkp ← must_hex zkp_literal
  ok (record {
    app_hash = app_hash;
    validators_hash = validators_hash;
    contract_address = contract_address;
    z35_root = z35_root;
    z35_connection_try_proof = z35_connection_try_proof;
    z35_channel_try_proof = z35_channel_try_proof;
    zkp = zkp;
  })
