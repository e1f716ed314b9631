-- ===== src/Channel/Live.antt =====
-- The subscriptions of a component over its life.
use emp_apps.Base.{
  ◌≡◌, refl, sym, subst, ap, ◌∙◌, true, false, not, List, [], ◌∷◌, ◌++◌, map, Option, Eq, ◌==◌,
  ==_refl, option_eq, filter, filter-append, filter-All, All, contains, arith, inl, inr, Bool-cases,
  append-nil,
}
use emp_apps.Base.Text.{js}
use emp_apps.Channel.{Entry, Consumer, Mounted, subscribe, clean_up, render, renders}

abbrev last_of {ℓ} : {A : Type ℓ} → A → List A → A
last_of a [] = a
last_of a (b ∷ bs) = last_of b bs

module _ {Callback : Type 0} ⦃e : Eq Callback⦄ (c : Consumer Callback) where
  -- Beside the subscriptions `before` there is one, which is the hook's and has its callback.
  pub record IsSubscribed (before : List (Entry c.Sub Callback)) (x : c.State × Mounted c)
      : Type 0 where
    pub live :
        c.live x.0
        ≡ before
          ++ record { sub = x.1.sub; channel = js "FeedChannel"; callback = x.1.on_message } ∷ []
    pub fresh : contains ⦃e = c.sub_eq⦄ (map (λ y. y.sub) before) x.1.sub ≡ false

  subscribe-IsSubscribed :
      (f : Option Callback) (s : c.State) → IsSubscribed (c.live s) (subscribe c f s)
  unfolding subscribe
  subscribe-IsSubscribed f s = record {
    live = c.live-create (js "FeedChannel") f s;
    fresh = c.create_fresh (js "FeedChannel") f s;
  }

  keeps_others :
      (before : List (Entry c.Sub Callback)) (x : c.Sub)
      → contains ⦃e = c.sub_eq⦄ (map (λ y. y.sub) before) x ≡ false
      → All (λ y. not (c.sub_eq.same y.sub x) ≡ true) before
  keeps_others [] x h = tt
  keeps_others (y ∷ ys) x h = (ground arith, keeps_others ys x (ground arith))

  -- The clean-up leaves the subscriptions that were there before the hook's.
  clean_up-live :
      (before : List (Entry c.Sub Callback)) (x : c.State × Mounted c)
      → IsSubscribed before x
      → c.live (clean_up c x.1 x.0) ≡ before
  unfolding clean_up
  clean_up-live before x h =
      c.live-unsubscribe x.1.sub x.0
      ∙ ap (filter (λ y. not (c.sub_eq.same y.sub x.1.sub))) h.live
      ∙ filter-append (λ y. not (c.sub_eq.same y.sub x.1.sub)) before _
      ∙ rw (==_refl ⦃e = c.sub_eq⦄ x.1.sub)
          (append-nil _ ∙ filter-All _ before (keeps_others before x.1.sub h.fresh))

  render-IsSubscribed :
      (before : List (Entry c.Sub Callback)) (f : Option Callback) (x : c.State × Mounted c)
      → IsSubscribed before x
      → IsSubscribed before (render c f x) × ((render c f x).1.on_message ≡ f)
  unfolding render
  render-IsSubscribed before f x h = elim (Bool-cases (f == x.1.on_message)) [
    | inl same ↦ rw same (h, sym ((option_eq.same_iff f x.1.on_message).0 same))
    | inr new ↦ rw new (
      subst (λ b. IsSubscribed b (subscribe c f (clean_up c x.1 x.0))) (clean_up-live before x h)
          (subscribe-IsSubscribed f (clean_up c x.1 x.0)),
      refl,
    )
  ]

  renders-IsSubscribed :
      (before : List (Entry c.Sub Callback)) (f : Option Callback) (fs : List (Option Callback))
      (x : c.State × Mounted c)
      → IsSubscribed before x
      → x.1.on_message ≡ f
      → IsSubscribed before (renders c fs x) × ((renders c fs x).1.on_message ≡ last_of f fs)
  unfolding renders
  renders-IsSubscribed before f [] x h e = (h, e)
  renders-IsSubscribed before f (g ∷ fs) x h e =
      let (k, d) = render-IsSubscribed before g x h in
      renders-IsSubscribed before g fs (render c g x) k d

  abbrev pub mounted : Option Callback → List (Option Callback) → c.State → c.State × Mounted c
  mounted f fs s = renders c fs (subscribe c f s)

  -- However often the component renders, and with whatever callbacks, it has one subscription, which
  -- calls the callback of its last render; all others stay; and once it is unmounted the consumer's
  -- subscriptions are those from before.
  pub renders_lem :
      (f : Option Callback) (fs : List (Option Callback)) (s : c.State)
      → (c.live (mounted f fs s).0
          ≡ c.live s
            ++ record {
              sub = (mounted f fs s).1.sub;
              channel = js "FeedChannel";
              callback = last_of f fs;
            }
              ∷ [])
        × (c.live (clean_up c (mounted f fs s).1 (mounted f fs s).0) ≡ c.live s)
  renders_lem f fs s =
      let first = subscribe-IsSubscribed f s in
      let (h, e) =
        renders-IsSubscribed (c.live s) f fs (subscribe c f s) first (first_callback f s) in
      (
        subst
            (λ g.
              c.live (mounted f fs s).0
              ≡ c.live s
                ++ record { sub = (mounted f fs s).1.sub; channel = js "FeedChannel"; callback = g }
                  ∷ [])
            e h.live,
        clean_up-live (c.live s) (mounted f fs s) h,
      )
    where
      first_callback : (f : Option Callback) (s : c.State) → (subscribe c f s).1.on_message ≡ f
      first_callback f s = unfold subscribe in refl
