-- ===== src/Channel.antt =====
-- `useFeedChannel` of app/frontend/hooks/useFeedChannel.js over the consumer of app/frontend/cable.js.
-- The consumer is ActionCable's, which is given by what its documentation promises.
pub mod Live
use emp_apps.Base.{
  ℕ, ◌≡◌, Bool, true, false, not, List, [], ◌∷◌, ◌++◌, map, Option, none, some, Eq, ◌==◌, option_eq,
  filter, contains, if◌then◌else◌,
}
use emp_apps.Base.Text.{Text, js}

-- A subscription that is alive: its channel and the callback `onMessage` behind its `received`.
pub record Entry (Sub : Type 0) (Callback : Type 0) : Type 0 where
  pub sub : Sub
  pub channel : Text
  pub callback : Option Callback

pub record Consumer (Callback : Type 0) : Type 1 where
  pub State : Type 0
  pub Sub : Type 0
  pub sub_eq : Eq Sub
  pub live : State → List (Entry Sub Callback)
  pub create : Text → Option Callback → State → State × Sub
  pub unsubscribe : Sub → State → State
  -- A new subscription differs from those that are alive, and is alive from then on.
  pub create_fresh :
      (c : Text) (f : Option Callback) (s : State)
      → contains ⦃e = sub_eq⦄ (map (λ x. x.sub) (live s)) (create c f s).1 ≡ false
  pub live-create :
      (c : Text) (f : Option Callback) (s : State)
      → live (create c f s).0
        ≡ live s ++ record { sub = (create c f s).1; channel = c; callback = f } ∷ []
  -- `unsubscribe` ends that subscription alone.
  pub live-unsubscribe :
      (x : Sub) (s : State)
      → live (unsubscribe x s) ≡ filter (λ y. not (sub_eq.same y.sub x)) (live s)

-- `received(data)`: the call of `onMessage`, if there is one.
unfoldable pub received {ℓ κ} :
    {Callback : Type ℓ} {Message : Type κ} → Option Callback → Message → Option (Callback × Message)
received none message = none
received (some f) message = some (f, message)

module _ {Callback : Type 0} ⦃e : Eq Callback⦄ (c : Consumer Callback) where
  -- The hook of a mounted component: the callback of its last effect, and the subscription `sub` that
  -- the effect's clean-up closes over.
  pub record Mounted : Type 0 where
    pub on_message : Option Callback
    pub sub : c.Sub

  -- The effect.
  unfoldable pub subscribe : Option Callback → c.State → c.State × Mounted
  subscribe f s =
      let r = c.create (js "FeedChannel") f s in (r.0, record { on_message = f; sub = r.1 })

  -- The function that the effect returns.
  unfoldable pub clean_up : Mounted → c.State → c.State
  clean_up m s = c.unsubscribe m.sub s

  -- A later render: the effect runs again, behind its clean-up, if `onMessage` is another.
  unfoldable pub render : Option Callback → c.State × Mounted → c.State × Mounted
  unfolding subscribe clean_up
  render f (s, m) = if f == m.on_message then (s, m) else subscribe f (clean_up m s)

  -- A component's renders: the first, and the later ones.
  unfoldable pub renders : List (Option Callback) → c.State × Mounted → c.State × Mounted
  unfolding render
  renders [] x = x
  renders (f ∷ fs) x = renders fs (render f x)
