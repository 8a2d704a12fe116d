-- ===== src/Union/Core/Protocol/Run.antt =====
-- Rules for code that changes the store by protocol steps, one for each way to build a call.
use gno_ibc.Prelude.{◌≡◌, refl}
use gno_ibc.Prelude.Result.{Result, ok, err}
use gno_ibc.Union.Core.World.{World, Env, Error}
use gno_ibc.Union.Core.Exec.{Exec, ◌>>=◌}
use gno_ibc.Union.Core.Protocol.{Step, Reach, Reach-trans, here, next}

-- A sequence that returns has parts that return.
pub bind-eq-ok :
    {T F A B : Type 0} (m : Exec T F A) (f : A → Exec T F B) (w u : World T F) (b : B)
    → (m >>= f) w ≡ ok (b, u)
    → (a : A) × (w' : World T F) × (m w ≡ ok (a, w')) × (f a w' ≡ ok (b, u))
unfolding ◌>>=◌
bind-eq-ok {T} {F} {A} {B} m f w u b = go (m w) refl
  where
    go :
        (r : Result Error (A × World T F))
        → m w ≡ r
        → elim r [ ok (a, w') ↦ f a w' | err e ↦ err e ] ≡ ok (b, u)
        → (a : A) × (w' : World T F) × (m w ≡ ok (a, w')) × (f a w' ≡ ok (b, u))
    go (ok (a, w')) e h = (a, w', e, h)
    go (err x) e h = cc

module _ {T F : Type 0} (E : Env T F) where
  -- Where `m` returns from the world `w`, it has changed the store by protocol steps.
  pub record Follows {A : Type 0} (m : Exec T F A) (w : World T F) : Type 0 where
    pub at : (a : A) (w' : World T F) → m w ≡ ok (a, w') → Reach E w.store w'.store

  module _ {A : Type 0} where
    -- Code that leaves the store alone.
    pub Follows-same :
        (m : Exec T F A) (w : World T F)
        → ((a : A) (w' : World T F) → m w ≡ ok (a, w') → w'.store ≡ w.store)
        → Follows m w
    Follows-same m w same = record { at = λ a w' e. rw (same a w' e) here }

    -- Code that makes one step.
    pub Follows-step :
        (m : Exec T F A) (w : World T F)
        → ((a : A) (w' : World T F) → m w ≡ ok (a, w') → Step E w.store w'.store)
        → Follows m w
    Follows-step m w step = record { at = λ a w' e. next here (step a w' e) }

  pub Follows-bind :
      {A B : Type 0} (m : Exec T F A) (f : A → Exec T F B) (w : World T F)
      → Follows m w
      → ((a : A) (w' : World T F) → m w ≡ ok (a, w') → Follows (f a) w')
      → Follows (m >>= f) w
  Follows-bind m f w first rest = record {
    at = λ b u done.
        let (a, w', now, later) = bind-eq-ok m f w u b done in
        Reach-trans E (first.at a w' now) ((rest a w' now).at b u later);
  }
