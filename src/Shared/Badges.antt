-- ===== src/Shared/Badges.antt =====
-- The badges of the four states of a request.
use mathlib.Core.Bool.{false≢true}
use emp_apps.Base.{◌≡◌, refl, Option, list_eq, nat_eq}
use emp_apps.Base.Text.{Text, js}
use emp_apps.Shared.{status_badge}

-- The values of `FeedRequest::STATUSES`.
pub data Status : Type 0 where
  pending processing done failed : Status

unfoldable pub name : Status → Text
name pending = js "pending"
name processing = js "processing"
name done = js "done"
name failed = js "failed"

-- The four states are told apart by the colour of the badge, whatever objects inherit.
pub status_badge-injective :
    (inherited : Text → Option Text) (s t : Status)
    → (status_badge inherited (name s)).class_name ≡ (status_badge inherited (name t)).class_name
    → s ≡ t
unfolding status_badge name js
status_badge-injective inherited pending pending e = refl
status_badge-injective inherited processing processing e = refl
status_badge-injective inherited done done e = refl
status_badge-injective inherited failed failed e = refl
status_badge-injective inherited s t e = absurd (false≢true ((list_eq.same_iff _ _).1 e))
