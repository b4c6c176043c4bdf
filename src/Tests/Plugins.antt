-- ===== src/Tests/Plugins.antt =====
-- The size plugin at a pull request that has grown.
use cicd_operator.Base.{
  nat_eq, In, Str, str, str_eq, ◌≡◌, refl, ◌↔◌, ◌⊎◌, Bool, false, List, [], ◌∷◌,
}
use cicd_operator.SizePlugin.{
  Limits, determine_proper_size_label, is_size_label, LabelRequest, total, label_size,
}
use cicd_operator.SizePlugin.Labels.{IsSize, apply_all, label_size_labels}

abbrev limits : Limits
limits = record { s = 10; m = 30; l = 100; xl = 500; xxl = 1000 }

abbrev labels : List Str
labels = str "size/XS" ∷ str "bug" ∷ []

abbrev accept_all : LabelRequest → Bool
accept_all r = false

label_size_labels_example :
    ((label_size accept_all limits (20 ∷ 5 ∷ []) labels).1 ≡ false)
    × (In (str "bug") (apply_all (label_size accept_all limits (20 ∷ 5 ∷ []) labels).0 labels) ↔ (
        (str "bug" ≡ determine_proper_size_label limits (total (20 ∷ 5 ∷ [])))
        ⊎ (In (str "bug") labels × (is_size_label (str "bug") ≡ false))))
    × IsSize limits (total (20 ∷ 5 ∷ [])) (determine_proper_size_label limits (total (20 ∷ 5 ∷ [])))
label_size_labels_example =
    label_size_labels accept_all (λ r. refl) limits (20 ∷ 5 ∷ []) labels (str "bug")
