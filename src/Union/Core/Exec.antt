-- ===== src/Union/Core/Exec.antt =====
-- A call of the host: it changes the world and returns, or it panics, and then the transaction is
-- reverted, so that an error has no world.
use gno_ibc.Prelude.{◌++◌, [], ◌∷◌, Bool, true, false, not, Option, none, some}
use gno_ibc.Prelude.Eq.{◌==◌, bytes_eq}
use gno_ibc.Prelude.Result.{Result, ok, err}
use gno_ibc.Encoding.Abi.{AbiError}
use gno_ibc.Union.Core.World.{
  World, Error, Event, Context, Env, Store, spoofed_realm, not_proxy_realm,
  packet_combined_data_too_large, is_valid_event,
}

abbrev pub Exec : Type 0 → Type 0 → Type 0 → Type 0
Exec T F A = World T F → Result Error (A × World T F)

module _ {T F : Type 0} where
  module _ {A : Type 0} where
    pub pure : A → Exec T F A
    pure a w = ok (a, w)

    pub panic : Error → Exec T F A
    panic e w = err e

    pub gets : (World T F → A) → Exec T F A
    gets f w = ok (f w, w)

    -- `v, ok := …; if !ok { panic(e) }`
    pub or_panic : Option A → Error → Exec T F A
    or_panic none e w = err e
    or_panic (some a) e w = ok (a, w)

    -- A pure encoder, whose error core turns into a panic.
    pub must_encode : Result AbiError A → Exec T F A
    must_encode (ok a) w = ok (a, w)
    must_encode (err e) w = err (Error.abi e)

    -- A light client's method on the foreign state.
    pub on_foreign : (F → Result Error (A × F)) → Exec T F A
    on_foreign m w = elim (m w.foreign_state) [
      | ok (a, s) ↦ ok (a, record w { foreign_state = s })
      | err e ↦ err e
    ]

  pub panic_if : Bool → Error → Exec T F (Unit {0})
  panic_if true e w = err e
  panic_if false e w = ok (tt, w)

  pub modify : (World T F → World T F) → Exec T F (Unit {0})
  modify f w = ok (tt, f w)

  pub modify_store : (Store T → Store T) → Exec T F (Unit {0})
  modify_store f w = ok (tt, record w { store = f w.store })

  infixl 5 ◌>>=◌ ◌>>◌
  -- To open this is to open all of the above.
  unfoldable pub ◌>>=◌ : {A B : Type 0} → Exec T F A → (A → Exec T F B) → Exec T F B
  unfolding pure panic gets or_panic must_encode on_foreign panic_if modify modify_store
  ◌>>=◌ m f w = elim (m w) [ ok (a, w') ↦ f a w' | err e ↦ err e ]

  abbrev pub ◌>>◌ : {A B : Type 0} → Exec T F A → Exec T F B → Exec T F B
  m >> k = m >>= λ _. k

-- `assertIsRlmCurrent`
abbrev pub assert_is_rlm_current : {T F : Type 0} → Context → Exec T F (Unit {0})
assert_is_rlm_current c = panic_if (not c.is_current) spoofed_realm

-- The Emit functions of emit.gno: the two assertions, the check of the size, then the event.
module _ {T F : Type 0} (E : Env T F) where
  unfoldable pub emit : Context → Event → Exec T F (Unit {0})
  unfolding is_valid_event
  emit c ev = do
    assert_is_rlm_current c
    panic_if (not (c.pkg_path == E.proxy_pkg_path)) not_proxy_realm
    config ← gets (λ w. w.event_config)
    panic_if (not (is_valid_event config ev)) packet_combined_data_too_large
    modify (λ w. record w { events = w.events ++ ev ∷ [] })
