-- ===== src/Union/Core/Handlers/Leaves.antt =====
-- The parts of handlers that leave the host's store alone, as rules for `search`.
use gno_ibc.Prelude.{ℕ, Bool, Option, Bytes, arith}
use gno_ibc.Prelude.Result.{Result}
use gno_ibc.Encoding.Abi.{AbiError}
use gno_ibc.Union.Types.{Height}
use gno_ibc.Union.Core.World.{World, Env, Context, Error, Event}
use gno_ibc.Union.Core.Exec.{
  ◌>>=◌, pure, panic, gets, or_panic, panic_if, must_encode, on_foreign, emit,
}
use gno_ibc.Union.Core.Store.{get_connection}
use gno_ibc.Union.Core.Clients.{get_client, verify_membership, verify_non_membership}
use gno_ibc.Union.Core.Connections.{ensure_connection_state}
use gno_ibc.Union.Core.Channels.{must_get_channel, get_app_at_port, owner_or_nil}
use gno_ibc.Union.Core.Packets.{read_timestamp}
use gno_ibc.Union.Core.Protocol.Run.{Follows, Follows-same, Follows-bind}

module _ {T F : Type 0} (E : Env T F) where
  module _ {A : Type 0} where
    pub Follows-pure : (a : A) (w : World T F) → Follows E (pure a) w
    unfolding ◌>>=◌
    Follows-pure a w = Follows-same E _ w (λ b w' e. ground arith)

    pub Follows-panic : (x : Error) (w : World T F) → Follows E (panic {A = A} x) w
    unfolding ◌>>=◌
    Follows-panic x w = Follows-same E _ w (λ b w' e. cc)

    pub Follows-gets : (f : World T F → A) (w : World T F) → Follows E (gets f) w
    unfolding ◌>>=◌
    Follows-gets f w = Follows-same E _ w (λ b w' e. ground arith)

    pub Follows-or_panic : (o : Option A) (x : Error) (w : World T F) → Follows E (or_panic o x) w
    unfolding ◌>>=◌
    Follows-or_panic o x w = Follows-same E _ w (λ b w' e. ground arith)

    pub Follows-must_encode : (r : Result AbiError A) (w : World T F) → Follows E (must_encode r) w
    unfolding ◌>>=◌
    Follows-must_encode r w = Follows-same E _ w (λ b w' e. ground arith)

    pub Follows-on_foreign :
        (m : F → Result Error (A × F)) (w : World T F) → Follows E (on_foreign m) w
    unfolding ◌>>=◌
    Follows-on_foreign m w = Follows-same E _ w (λ b w' e. ground arith)

  pub Follows-panic_if : (b : Bool) (x : Error) (w : World T F) → Follows E (panic_if b x) w
  unfolding ◌>>=◌
  Follows-panic_if b x w = Follows-same E _ w (λ a w' e. ground arith)

  pub Follows-emit : (c : Context) (ev : Event) (w : World T F) → Follows E (emit E c ev) w
  unfolding emit ◌>>=◌
  Follows-emit c ev w = Follows-same E _ w (λ a w' e. ground arith)

  pub Follows-get_connection : (id : ℕ) (w : World T F) → Follows E (get_connection E id) w
  unfolding get_connection
  Follows-get_connection id w = Follows-same E _ w (λ a w' e. ground arith)

  pub Follows-ensure_connection_state :
      (id : ℕ) (w : World T F) → Follows E (ensure_connection_state E id) w
  unfolding ensure_connection_state ◌>>=◌
  Follows-ensure_connection_state id w = Follows-same E _ w (λ a w' e. ground arith)

  pub Follows-must_get_channel : (id : ℕ) (w : World T F) → Follows E (must_get_channel E id) w
  unfolding must_get_channel ◌>>=◌
  Follows-must_get_channel id w = Follows-same E _ w (λ a w' e. ground arith)

  pub Follows-owner_or_nil : (id : ℕ) (w : World T F) → Follows E (owner_or_nil E id) w
  unfolding owner_or_nil ◌>>=◌
  Follows-owner_or_nil id w = Follows-same E _ w (λ a w' e. ground arith)

  pub Follows-get_app_at_port :
      (port : Bytes) (w : World T F) → Follows E (get_app_at_port E port) w
  unfolding get_app_at_port ◌>>=◌
  Follows-get_app_at_port port w = Follows-same E _ w (λ a w' e. ground arith)

  pub Follows-get_client : (id : ℕ) (w : World T F) → Follows E (get_client E id) w
  unfolding get_client ◌>>=◌
  Follows-get_client id w = Follows-same E _ w (λ a w' e. ground arith)

  pub Follows-read_timestamp :
      (lc height : ℕ) (w : World T F) → Follows E (read_timestamp E lc height) w
  unfolding read_timestamp
  Follows-read_timestamp lc height w = Follows-same E _ w (λ a w' e. ground arith)

  pub Follows-verify_membership :
      (id : ℕ) (h : Height) (proof key value : Bytes) (w : World T F)
      → Follows E (verify_membership E id h proof key value) w
  unfolding verify_membership ◌>>=◌
  Follows-verify_membership id h proof key value w = Follows-same E _ w (λ a w' e. ground arith)

  pub Follows-verify_non_membership :
      (id : ℕ) (h : Height) (proof key : Bytes) (w : World T F)
      → Follows E (verify_non_membership E id h proof key) w
  unfolding verify_non_membership ◌>>=◌
  Follows-verify_non_membership id h proof key w = Follows-same E _ w (λ a w' e. ground arith)

pub ruleset follows_rules = (
  Follows-bind, Follows-pure, Follows-panic, Follows-gets, Follows-or_panic, Follows-must_encode,
  Follows-on_foreign, Follows-panic_if, Follows-emit, Follows-get_connection,
  Follows-ensure_connection_state, Follows-must_get_channel, Follows-owner_or_nil,
  Follows-get_app_at_port, Follows-get_client, Follows-read_timestamp, Follows-verify_membership,
  Follows-verify_non_membership,
)
