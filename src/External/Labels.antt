-- ===== src/External/Labels.antt =====
-- Label selectors and the labels of objects and namespaces (apimachinery and the core client).
use integrity_shield.Base.{Str, Result, List, Bool}

pub record Labels (Cluster : Type 0) (Object : Type 0) : Type 1 where
  -- `metav1.LabelSelector`
  pub LabelSelector : Type 0
  -- `labels.Selector`
  pub Selector : Type 0
  -- `metav1.LabelSelectorAsSelector`
  pub as_selector : LabelSelector → Result Selector
  pub matches : Selector → List (Str × Str) → Bool
  -- `GetLabels`
  pub object_labels : Object → List (Str × Str)
  -- the labels of a namespace that the API server gives
  pub namespace_labels : Cluster → Str → Result (List (Str × Str))
  -- the names and labels of all namespaces
  pub list_namespaces : Cluster → Result (List (Str × List (Str × Str)))
