-- ===== src/Operator/Resources/Compare/Fields.antt =====
-- The tests of integrity-shield-operator/resources/deploy.go on the fields of two objects.
use integrity_shield.Base.{
  ◌==◌, ==_iff, byte_eq_iff, Bool, true, List, [], ◌∷◌, none, some, ◌&&◌, ◌≡◌, ◌↔◌, refl, sym, ap,
  arith, Bool-cases, inl, inr,
}
use integrity_shield.Operator.Resources.Compare.{
  same_list, same_option, same_bool, same_entry, same_mount, same_port, same_env, equal_labels,
  equal_annotations,
}

-- A test that tells whether two values are equal.
abbrev pub Tests : {A : Type 0} → (A → A → Bool) → Type 0
Tests {A} same = (x y : A) → (same x y ≡ true) ↔ (x ≡ y)

both : {b c : Bool} → (b && c) ≡ true → (b ≡ true) × (c ≡ true)
both {b} {c} h = elim (Bool-cases b) [ inl p ↦ (p, ground arith) | inr p ↦ ground arith ]

module _ {A : Type 0} (same : A → A → Bool) (tests : Tests same) where
  cons-head : {x y : A} {xs ys : List A} → x ∷ xs ≡ y ∷ ys → x ≡ y
  cons-head p = cc

  cons-tail : {x y : A} {xs ys : List A} → x ∷ xs ≡ y ∷ ys → xs ≡ ys
  cons-tail p = cc

  nil-ne-cons : {x : A} {xs : List A} → [] ≡ x ∷ xs → ⊥
  nil-ne-cons p = cc

  pub same_list-Tests : Tests (same_list same)
  unfolding same_list
  same_list-Tests [] [] = (λ _. refl, λ _. refl)
  same_list-Tests [] (y ∷ ys) = (λ h. ground arith, λ p. absurd (nil-ne-cons p))
  same_list-Tests (x ∷ xs) [] = (λ h. ground arith, λ p. absurd (nil-ne-cons (sym p)))
  same_list-Tests (x ∷ xs) (y ∷ ys) = (
    λ h. let (p, q) = both h in λ i. (tests x y).0 p i ∷ (same_list-Tests xs ys).0 q i,
    λ p. ground (arith, (tests x y).1 (cons-head p), (same_list-Tests xs ys).1 (cons-tail p)),
  )

  some-injective : {x y : A} → some x ≡ some y → x ≡ y
  some-injective p = cc

  none-ne-some : {x : A} → none ≡ some x → ⊥
  none-ne-some p = cc

  pub same_option-Tests : Tests (same_option same)
  unfolding same_option
  same_option-Tests none none = (λ _. refl, λ _. refl)
  same_option-Tests none (some y) = (λ h. ground arith, λ p. absurd (none-ne-some p))
  same_option-Tests (some x) none = (λ h. ground arith, λ p. absurd (none-ne-some (sym p)))
  same_option-Tests (some x) (some y) =
      (λ h. ap some ((tests x y).0 h), λ p. (tests x y).1 (some-injective p))

same_bool_iff : (b c : Bool) → (same_bool b c ≡ true) ↔ (b ≡ c)
same_bool_iff b c = ground arith

same_entry-Tests : Tests same_entry
unfolding same_entry
same_entry-Tests a b = (
  λ h. let (p, q) = both h in λ i. ((==_iff a.0 b.0).0 p i, (==_iff a.1 b.1).0 q i),
  λ p. ground (arith, (==_iff a.0 b.0).1 (λ i. (p i).0), (==_iff a.1 b.1).1 (λ i. (p i).1)),
)

same_text : Tests (same_option ◌==◌)
same_text = same_option-Tests ◌==◌ ==_iff

pub same_mount-Tests : Tests same_mount
unfolding same_mount
same_mount-Tests a b = (
  λ h.
      let (mount_path_same, h0) = both h in
      let (name_same, h1) = both h0 in
      let (read_only_same, h2) = both h1 in
      let (sub_path_same, h3) = both h2 in
      let (sub_path_expr_same, h4) = both h3 in
      λ i. record {
        mount_path = (==_iff a.mount_path b.mount_path).0 mount_path_same i;
        name = (==_iff a.name b.name).0 name_same i;
        read_only = (same_bool_iff a.read_only b.read_only).0 read_only_same i;
        sub_path = (==_iff a.sub_path b.sub_path).0 sub_path_same i;
        sub_path_expr = (==_iff a.sub_path_expr b.sub_path_expr).0 sub_path_expr_same i;
        mount_propagation = (same_text a.mount_propagation b.mount_propagation).0 h4 i;
      },
  λ p. ground (
    arith,
    (==_iff a.mount_path b.mount_path).1 (λ i. (p i).mount_path),
    (==_iff a.name b.name).1 (λ i. (p i).name),
    (same_bool_iff a.read_only b.read_only).1 (λ i. (p i).read_only),
    (==_iff a.sub_path b.sub_path).1 (λ i. (p i).sub_path),
    (==_iff a.sub_path_expr b.sub_path_expr).1 (λ i. (p i).sub_path_expr),
    (same_text a.mount_propagation b.mount_propagation).1 (λ i. (p i).mount_propagation),
  ),
)

pub same_port-Tests : Tests same_port
unfolding same_port
same_port-Tests a b = (
  λ h.
      let (name_same, h0) = both h in
      let (container_port_same, h1) = both h0 in
      let (protocol_same, h2) = both h1 in
      let (host_port_same, h3) = both h2 in
      λ i. record {
        name = (==_iff a.name b.name).0 name_same i;
        container_port = (byte_eq_iff a.container_port b.container_port).0 container_port_same i;
        protocol = (==_iff a.protocol b.protocol).0 protocol_same i;
        host_port = (byte_eq_iff a.host_port b.host_port).0 host_port_same i;
        host_ip = (==_iff a.host_ip b.host_ip).0 h3 i;
      },
  λ p. ground (
    arith,
    (==_iff a.name b.name).1 (λ i. (p i).name),
    (byte_eq_iff a.container_port b.container_port).1 (λ i. (p i).container_port),
    (==_iff a.protocol b.protocol).1 (λ i. (p i).protocol),
    (byte_eq_iff a.host_port b.host_port).1 (λ i. (p i).host_port),
    (==_iff a.host_ip b.host_ip).1 (λ i. (p i).host_ip),
  ),
)

pub same_env-Tests : Tests same_env
unfolding same_env
same_env-Tests a b = (
  λ h.
      let (name_same, h0) = both h in
      let (value_same, h1) = both h0 in
      λ i. record {
        name = (==_iff a.name b.name).0 name_same i;
        value = (==_iff a.value b.value).0 value_same i;
        value_from = (same_text a.value_from b.value_from).0 h1 i;
      },
  λ p. ground (
    arith,
    (==_iff a.name b.name).1 (λ i. (p i).name),
    (==_iff a.value b.value).1 (λ i. (p i).value),
    (same_text a.value_from b.value_from).1 (λ i. (p i).value_from),
  ),
)

pub equal_labels-Tests : Tests equal_labels
unfolding equal_labels
equal_labels-Tests =
    same_option-Tests (same_list same_entry) (same_list-Tests same_entry same_entry-Tests)

pub equal_annotations-Tests : Tests equal_annotations
unfolding equal_annotations
equal_annotations-Tests =
    same_option-Tests (same_list same_entry) (same_list-Tests same_entry same_entry-Tests)
