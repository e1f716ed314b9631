-- ===== src/Shared.antt =====
-- `StatusBadge` and `ErrorBanner` of app/frontend/components/shared/.
pub mod Badges
use emp_apps.Base.{Bool, Option, none, some, ◌==◌, list_eq, nat_eq, if◌then◌else◌}
use emp_apps.Base.Text.{Text, js, truthy}

-- `STATUS_CLASS[status]`: a property of the table itself, or one that every object inherits.
unfoldable pub status_class : (Text → Option Text) → Text → Option Text
status_class inherited status =
    if status == js "pending"
    then some (js "bg-warning text-dark")
    else if status == js "processing"
    then some (js "bg-info text-dark")
    else if status == js "done"
    then some (js "bg-success text-white")
    else if status == js "failed"
    then some (js "bg-danger text-white")
    else inherited status

abbrev or_secondary : Option Text → Text
or_secondary none = js "bg-secondary text-white"
or_secondary (some c) = c

pub record BadgeView : Type 0 where
  pub class_name : Text
  pub status : Text

unfoldable pub status_badge : (Text → Option Text) → Text → BadgeView
unfolding status_class
status_badge inherited status = record {
  class_name = or_secondary (status_class inherited status);
  status = status;
}

pub record BannerView : Type 0 where
  pub message : Text
  pub closable : Bool

-- Nothing is shown for an empty message; the button is there if `onClose` is.
unfoldable pub error_banner : Text → Bool → Option BannerView
error_banner message has_on_close =
    if truthy message then some (record { message = message; closable = has_on_close }) else none
