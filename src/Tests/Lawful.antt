-- ===== src/Tests/Lawful.antt =====
-- The API server in memory does what `ClientIsLawful` asks for.
use integrity_shield.Base.{
  Str, refl, [], suc, ◌+◌, ◌*◌, ◌++◌, ◌==◌, ==_iff, ==_refl, Bool, true, false, Bool-cases, ◌∷◌,
  Option, none, some, Option-cases, ok, err, Result-cases, Error, not_found, already_exists, ◌||◌,
  ◌&&◌, ◌≡◌, ◌⊎◌, sym, ap, subst, ◌∙◌, inl, inr, ok-injective, err-ne-ok, arith,
}
use integrity_shield.Operator.Objects.{
  Kind, custom_resource_definition, cluster_role, cluster_role_binding,
  validating_webhook_configuration, constraint_template, pod_security_policy, config_map,
  service_account, role, role_binding, secret, service, deployment, event,
}
use integrity_shield.Operator.Certificates.{Crypto}
use integrity_shield.Operator.Client.{Client, ObjectOf, meta_of}
use integrity_shield.Operator.Reconcile.Laws.{is_cluster_wide, Kept, Found, Stored, ClientIsLawful}
use integrity_shield.Tests.Objects.{
  Object, Objects, as_kind, as_kind_some, pick, at_key, get_object, refusal, create_object,
  update_object, delete_object, pick_first, pick_here, pick_past, pick_other, pick-passes,
}

-- Keys are numbered, and a certificate is its common name and the key that signs it.
abbrev pub crypto : Crypto
crypto = record {
  generate_key = λ entropy _. (ok (entropy 0 ∷ []), λ n. entropy (suc n));
  public_key = λ key. key;
  marshal_private_key = λ key. key;
  create_certificate = λ entropy template _ _ key. (ok (template.common_name ++ key), entropy);
  pem_encode = λ block text. ok (block ++ text);
  add_date = λ now years _ _. now + 365 * 86400 * years;
}

abbrev pub objects : Client Objects
objects = record {
  get = get_object;
  create = create_object;
  update = update_object;
  delete = delete_object;
  get_instance = λ _ _ _. err (refusal not_found);
  update_instance = λ w _. (none, w);
  set_controller_reference = λ _ _ o. ok o;
  same_crd_spec = λ _ _. true;
  crypto = crypto;
  random = λ _ n. n;
  now = λ _. 0;
}

none-ne-some : {e : Error} {r : Option Error} → r ≡ some e → r ≡ none → ⊥
none-ne-some p q = cc

at_own : (k : Kind) (o : ObjectOf k) → at_key k (meta_of k o).namespace (meta_of k o).name o ≡ true
at_own k o = ground (arith, ==_refl (meta_of k o).name, ==_refl (meta_of k o).namespace)

kept : (k : Kind) (o : ObjectOf k) → Kept k o o
kept deployment o = (refl, refl)
kept custom_resource_definition o = tt
kept cluster_role o = tt
kept cluster_role_binding o = tt
kept validating_webhook_configuration o = tt
kept constraint_template o = tt
kept pod_security_policy o = tt
kept config_map o = tt
kept service_account o = tt
kept role o = tt
kept role_binding o = tt
kept secret o = tt
kept service o = tt
kept event o = tt

module _ (w : Objects) (k : Kind) (o : ObjectOf k) where
  create_there :
      {q : ObjectOf k}
      → get_object w k (meta_of k o).namespace (meta_of k o).name ≡ ok q
      → create_object w k o ≡ (some (refusal already_exists), w)
  unfolding create_object
  create_there p = ground arith

  create_done :
      {e : Error}
      → get_object w k (meta_of k o).namespace (meta_of k o).name ≡ err e
      → create_object w k o ≡ (none, (k, o) ∷ w)
  unfolding create_object
  create_done p = ground arith

  created :
      (create_object w k o).0 ≡ none
      → ((e : Error) × (get_object w k (meta_of k o).namespace (meta_of k o).name ≡ err e))
        × ((create_object w k o).1 ≡ (k, o) ∷ w)
  created h = elim (Result-cases (get_object w k (meta_of k o).namespace (meta_of k o).name)) [
    | inl (q, g) ↦ absurd (none-ne-some (ap (λ r. r.0) (create_there g)) h)
    | inr (e, g) ↦ ((e, g), ap (λ r. r.1) (create_done g))
  ]

  stored : Stored objects ((k, o) ∷ w) k o
  stored = (
    o,
    pick_first k (at_key k (meta_of k o).namespace (meta_of k o).name) w o (at_own k o),
    kept k o,
  )

  -- Another object that is read is read still, behind the new one.
  behind :
      (j : Kind) (t : ObjectOf j → Bool) {p : ObjectOf j}
      → ((q : ObjectOf j) → ◌≡◌ {A = Object} (k, o) (j, q) → t q ≡ true → ⊥)
      → pick w j t ≡ ok p
      → pick ((k, o) ∷ w) j t ≡ ok p
  behind j t apart h = elim (Option-cases (as_kind k j o)) [
    | inl e ↦ pick_other j t w (k, o) e ∙ h
    | inr (q, e) ↦ elim (Bool-cases (t q)) [
      | inl g ↦ absurd (apart q (as_kind_some e) g)
      | inr g ↦ pick_past j t w (k, o) e g ∙ h
    ]
  ]

  still_read :
      (j : Kind) (t : ObjectOf j → Bool) {p : ObjectOf j}
      → pick w j t ≡ ok p
      → (q : ObjectOf j) × (pick ((k, o) ∷ w) j t ≡ ok q)
  still_read j t {p} h = elim (Option-cases (as_kind k j o)) [
    | inl e ↦ (p, pick_other j t w (k, o) e ∙ h)
    | inr (q, e) ↦ elim (Bool-cases (t q)) [
      | inl g ↦ (q, pick_here j t w (k, o) e g)
      | inr g ↦ (p, pick_past j t w (k, o) e g ∙ h)
    ]
  ]

both : {b c : Bool} → (b && c) ≡ true → (b ≡ true) × (c ≡ true)
both {b} {c} h = elim (Bool-cases b) [ inl p ↦ (p, ground arith) | inr p ↦ ground arith ]

pub at-name :
    (k : Kind) (ns n : Str) (o : ObjectOf k) → at_key k ns n o ≡ true → (meta_of k o).name ≡ n
at-name k ns n o h = (==_iff (meta_of k o).name n).0 (both h).0

at-place :
    (k : Kind) (ns n : Str) (o : ObjectOf k)
    → at_key k ns n o ≡ true
    → (is_cluster_wide k || ((meta_of k o).namespace == ns)) ≡ true
at-place k ns n o h =
    (both {b = (meta_of k o).name == n} {c = is_cluster_wide k || ((meta_of k o).namespace == ns)}
      h).1

pub any_place :
    (k : Kind) (ns ms n : Str) → is_cluster_wide k ≡ true → at_key k ns n ≡ at_key k ms n
any_place k ns ms n c = λ i o. same o i
  where
    same : (o : ObjectOf k) → at_key k ns n o ≡ at_key k ms n o
    same o = ground arith

-- The key of an object that stands under another key is as good as that one.
at_key_own :
    (k : Kind) (ns n : Str) (o : ObjectOf k)
    → at_key k ns n o ≡ true
    → at_key k (meta_of k o).namespace (meta_of k o).name ≡ at_key k ns n
at_key_own k ns n o h = elim (Bool-cases (is_cluster_wide k)) [
  | inl c ↦ any_place k (meta_of k o).namespace ns _ c ∙ λ i. at_key k ns (at-name k ns n o h i)
  | inr c ↦ λ i. at_key k ((==_iff (meta_of k o).namespace ns).0 (place c) i) (at-name k ns n o h i)
]
  where
    place : is_cluster_wide k ≡ false → ((meta_of k o).namespace == ns) ≡ true
    place c = ground (arith, at-place k ns n o h)

not_taken :
    (w : Objects) (k : Kind) (o : ObjectOf k) (j : Kind) (ns n : Str) {p : ObjectOf j} {e : Error}
    → get_object w k (meta_of k o).namespace (meta_of k o).name ≡ err e
    → get_object w j ns n ≡ ok p
    → (q : ObjectOf j) → ◌≡◌ {A = Object} (k, o) (j, q)
    → at_key j ns n q ≡ true
    → ⊥
not_taken w k o j ns n {p} {e} absent there q same here =
    err-ne-ok (sym moved ∙ (ap (pick w j) (at_key_own j ns n q here) ∙ there))
  where
    moved : get_object w j (meta_of j q).namespace (meta_of j q).name ≡ err e
    moved =
        subst
          (λ (x : Object).
            get_object w x.0 (meta_of x.0 x.1).namespace (meta_of x.0 x.1).name ≡ err e)
          same absent

front_only :
    (w : Objects) (k : Kind) (o : ObjectOf k) (j : Kind) (n : Str)
    → Found objects ((k, o) ∷ w) j n
    → Found objects w j n ⊎ ((j ≡ k) × (n ≡ (meta_of k o).name))
front_only w k o j n (p, h) = elim (Option-cases (as_kind k j o)) [
  | inl e ↦ inl (p, sym (pick_other j (at_key j [] n) w (k, o) e) ∙ h)
  | inr (q, e) ↦ elim (Bool-cases (at_key j [] n q)) [
    | inl g ↦
        let same = as_kind_some e in
        inr (
          sym (λ i. (same i).0),
          sym (at-name j [] n q g) ∙ sym (λ i. (meta_of (same i).0 (same i).1).name),
        )
    | inr g ↦ inl (p, sym (pick_past j (at_key j [] n) w (k, o) e g) ∙ h)
  ]
]

pub objects-ClientIsLawful : ClientIsLawful objects
unfolding update_object
objects-ClientIsLawful = record {
  get-create = λ w k o h.
      let (_, s) = created w k o h in subst (λ v. Stored objects v k o) (sym s) (stored w k o);
  get-update = λ w k o h. stored w k o;
  create_keeps = λ w k o j ns n {p} g.
      elim (Result-cases (get_object w k (meta_of k o).namespace (meta_of k o).name)) [
        | inl (_, there) ↦
            subst (λ (r : Option Error × Objects). get_object r.1 j ns n ≡ ok p)
              (sym (create_there w k o there)) g
        | inr (_, absent) ↦
            subst (λ (r : Option Error × Objects). get_object r.1 j ns n ≡ ok p)
              (sym (create_done w k o absent))
              (behind w k o j (at_key j ns n) (not_taken w k o j ns n absent g) g)
      ];
  update_keeps = λ w k o j ns n {p} h g. still_read w k o j (at_key j ns n) g;
  update_others = λ w k o ns n {p} apart h g.
      behind w k o deployment (at_key deployment ns n)
        (λ q same here.
          apart (λ i. (same i).0)
            ((λ i. (meta_of (same i).0 (same i).1).name) ∙ at-name deployment ns n q here))
        g;
  exists_found = λ w k o {f} c _.
      elim (Result-cases (get_object w k (meta_of k o).namespace (meta_of k o).name)) [
        | inl (p, there) ↦ (
          p,
          subst
              (λ (r : Option Error × Objects).
                get_object r.1 k (meta_of k o).namespace (meta_of k o).name ≡ ok p)
              (sym (create_there w k o there)) there,
        )
        | inr (_, absent) ↦ absurd (none-ne-some c (ap (λ r. r.0) (create_done w k o absent)))
      ];
  create_only = λ w k o j n _ found.
      elim (Result-cases (get_object w k (meta_of k o).namespace (meta_of k o).name)) [
        | inl (_, there) ↦ inl (
            subst (λ (r : Option Error × Objects). Found objects r.1 j n) (create_there w k o there)
              found)
        | inr (_, absent) ↦ front_only w k o j n (
            subst (λ (r : Option Error × Objects). Found objects r.1 j n) (create_done w k o absent)
              found)
      ];
  update_only = λ w k o j n _ found. front_only w k o j n found;
  name-get = λ w k ns n g. at-name k ns n _ (pick-passes k (at_key k ns n) w g);
  namespace-get = λ w ns n {p} g.
      (==_iff p.meta.namespace ns).0
        (at-place deployment ns n p (pick-passes deployment (at_key deployment ns n) w g));
  any_namespace = λ w k ns ms n c. ap (pick w k) (any_place k ns ms n c);
  reference_keeps = λ _ k o h.
      let e = sym (ok-injective h) in
      (
        λ i. (meta_of k (e i)).name,
        λ i. (meta_of k (e i)).namespace,
        subst (λ x. Kept k o x) (sym e) (kept k o),
      );
}
