-- ===== src/Tests/Entities.antt =====
-- The targets of an alert with labels and no hints.
use sherlock.Prelude.{◌≡◌, String, [], ◌∷◌, length, refl}
use sherlock.Contracts.{Attributes, NormalizedAlert}
use sherlock.Resolver.{infer_from_labels, resolve, first_label}
use sherlock.Resolver.Targets.{IsDistinct, find_target, named_targets, resolve-find}
use sherlock.Tests.{alert, ten}

abbrev cart_labels : Attributes
cart_labels = ("app", "cart") ∷ ("namespace", "shop") ∷ ("pod", "cart-1") ∷ []

abbrev labelled_alert : NormalizedAlert
labelled_alert = record alert { labels = cart_labels }

two_targets : length (infer_from_labels cart_labels) ≡ 2
unfolding infer_from_labels first_label
two_targets = refl

resolve-find_example :
    IsDistinct (resolve ten labelled_alert).targets
    × ((k : String)
        → find_target k (resolve ten labelled_alert).targets
          ≡ find_target k (named_targets labelled_alert))
resolve-find_example = resolve-find ten labelled_alert
