-- ===== src/Tests/Labels.antt =====
-- Labels and their text on small inputs.
use dns_sync.Base.{◌≡◌, true, refl, none, [], ◌∷◌, codes, lookup, str_eq, if◌then◌else◌, ◌==◌}
use dns_sync.Endpoint.{Labels}
use dns_sync.Labels.{serialize_plain, new_labels_from_string_plain, txt_encryption_nonce}
use dns_sync.Labels.RoundTrip.{IsPlainLabels, new_labels_from_string_plain-serialize_plain}

abbrev sample_labels : Labels
sample_labels = (codes "o", codes "x") ∷ (codes "m", codes "y") ∷ []

sample_labels-IsPlainLabels : IsPlainLabels sample_labels
sample_labels-IsPlainLabels = (
  (((refl, tt), (refl, tt), (refl, tt)), ((refl, tt), (refl, tt), (refl, tt))),
  ((((refl, tt), (refl, tt), (refl, tt)), ((refl, tt), (refl, tt), (refl, tt))), tt),
)

new_labels_from_string_plain-serialize_plain_example :
    lookup (codes "o") (new_labels_from_string_plain (serialize_plain true sample_labels))
    ≡ (if codes "o" == txt_encryption_nonce then none else lookup (codes "o") sample_labels)
new_labels_from_string_plain-serialize_plain_example =
    new_labels_from_string_plain-serialize_plain true sample_labels (codes "o")
      sample_labels-IsPlainLabels
