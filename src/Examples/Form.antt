-- ===== src/Examples/Form.antt =====
-- The two forms, and the channel's hook.
use emp_apps.LoginForm
use emp_apps.Base.{
  Bool, ◌&&◌, if◌then◌else◌, ℕ, suc, ◌+◌, ◌<◌, ◌≤◌, ◌≡◌, refl, true, false, not, List, [], ◌∷◌,
  ◌++◌, map, none, some, arith, length, nat_beq, All, err, nat_eq, contains, filter,
}
use emp_apps.Base.Text.{Text, js, truthy, trim, is_space}
use emp_apps.Channel.{Entry, Consumer, clean_up}
use emp_apps.Channel.Live.{mounted, renders_lem}
use emp_apps.FeedForm
use emp_apps.FeedForm.{
  fields_from, is_valid, press, handle_url_change, add_field, remove_field, active_urls,
  handle_submit, is_submit_disabled, change, add, remove, run,
}
use emp_apps.FeedForm.Fields.{run-pos}
use emp_apps.FeedForm.Submit.{IsTidy, handle_submit_lem, hold_urls, press-view}
use emp_apps.LoginForm.{settle, submit, view}
use emp_apps.LoginForm.Attempts.{Session, Reach, here, next, send, start, Reach-view, settle-submit}

abbrev two : List Text
two = (32 ∷ 97 ∷ 32 ∷ []) ∷ (32 ∷ []) ∷ []

sent_two : handle_submit two ≡ some ((97 ∷ []) ∷ [])
unfolding handle_submit trim is_space
sent_two = refl

run-pos_example : 0 < length (run FeedForm.initial (add ∷ remove 0 ∷ remove 0 ∷ []))
run-pos_example = run-pos FeedForm.initial (add ∷ remove 0 ∷ remove 0 ∷ []) (omega arith)

-- A browser that takes every text but the blank ones for a URL.
abbrev lenient : Text → Bool
lenient u = truthy (trim u)

-- A form whose second field is left empty is not sent, although one URL is given.
press-view_example : press lenient false ((97 ∷ []) ∷ [] ∷ []) ≡ (
    if not false && hold_urls lenient ((97 ∷ []) ∷ [] ∷ [])
    then some (map trim ((97 ∷ []) ∷ [] ∷ []))
    else none)
press-view_example = press-view lenient (λ u h. h) false ((97 ∷ []) ∷ [] ∷ []) (omega arith)

-- With both fields filled both are sent, trimmed.
two_sent : press lenient false ((97 ∷ []) ∷ (32 ∷ 98 ∷ []) ∷ []) ≡ some ((97 ∷ []) ∷ (98 ∷ []) ∷ [])
unfolding press FeedForm.view fields_from is_valid is_submit_disabled handle_submit active_urls trim
    is_space js
two_sent = refl

handle_submit_lem_example :
    (0 < 1) × All IsTidy ((97 ∷ []) ∷ []) × (handle_submit ((97 ∷ []) ∷ []) ≡ some ((97 ∷ []) ∷ []))
handle_submit_lem_example = handle_submit_lem two ((97 ∷ []) ∷ []) sent_two

abbrev waiting : Session
waiting = record { form = (submit start.form).0; outstanding = 1 }

waiting-Reach : Reach start waiting
unfolding view
waiting-Reach = next here (send refl refl)

Reach-view_example :
    (waiting.outstanding ≡ (if (LoginForm.view waiting.form).spinner then 1 else 0))
    × ((LoginForm.view waiting.form).disabled ≡ (LoginForm.view waiting.form).spinner)
Reach-view_example = Reach-view waiting waiting-Reach

settle-submit_example :
    let after = settle (err []) (submit start.form).0 in
    (after.loading ≡ false)
    × (after.email ≡ [])
    × (after.password ≡ [])
    × ((view after).banner
        ≡ some (record { message = js "Invalid email or password"; closable = true }))
settle-submit_example = settle-submit start.form (err [])

-- A consumer that numbers its subscriptions, a new one above all that are alive.
abbrev Entries : Type 0
Entries = List (Entry ℕ ℕ)

abbrev above : Entries → ℕ
above [] = 0
above (x ∷ xs) = x.sub + suc (above xs)

above_fresh : (n : ℕ) (xs : Entries) → above xs ≤ n → contains (map (λ x. x.sub) xs) n ≡ false
above_fresh n [] h = refl
above_fresh n (x ∷ xs) h = ground (arith, above_fresh n xs)

abbrev counting : Consumer ℕ
counting = record {
  State = Entries;
  Sub = ℕ;
  sub_eq = nat_eq;
  live = λ xs. xs;
  create = λ c f xs. (xs ++ record { sub = above xs; channel = c; callback = f } ∷ [], above xs);
  unsubscribe = λ n xs. filter (λ y. not (nat_beq y.sub n)) xs;
  create_fresh = λ c f xs. above_fresh (above xs) xs (omega arith);
  live-create = λ c f xs. refl;
  live-unsubscribe = λ n xs. refl;
}

renders_lem_example :
    (counting.live (mounted counting (some 1) (some 1 ∷ some 2 ∷ []) []).0
      ≡ record {
        sub = (mounted counting (some 1) (some 1 ∷ some 2 ∷ []) []).1.sub;
        channel = js "FeedChannel";
        callback = some 2;
      }
        ∷ [])
    × (counting.live (
          clean_up counting
            (mounted counting (some 1) (some 1 ∷ some 2 ∷ []) []).1
            (mounted counting (some 1) (some 1 ∷ some 2 ∷ []) []).0)
        ≡ [])
renders_lem_example = renders_lem counting (some 1) (some 1 ∷ some 2 ∷ []) []
