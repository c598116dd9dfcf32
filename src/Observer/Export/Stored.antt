-- ===== src/Observer/Export/Stored.antt =====
-- What is stored of an observation (`exportVerifyResult` of observer/pkg/observer/observer.go).
use integrity_shield.Base.{
  Str, ◌≡◌, sym, ◌∙◌, ap, subst, Bool, Option, none, ok, err, Error, arith, inl, inr, Result-cases,
}
use integrity_shield.External.Kube.{Kube, Client, UpdateIsLawful, CreateIsLawful}
use integrity_shield.Server.Shield.Request.{pod_namespace}
use integrity_shield.Observer.Export.{
  VerifyResourceStatus, VerifyResourceStatusSpec, result_labels, export_verify_result,
}

module _ (K : Kube) (statuses : Client K.Cluster VerifyResourceStatus)
    (updates : UpdateIsLawful VerifyResourceStatus.name statuses)
    (creates : CreateIsLawful VerifyResourceStatus.name statuses)
    (configured : K.kube_config ≡ none) where
  module _ (vrr : VerifyResourceStatusSpec) (ignored violated : Bool) (w : K.Cluster) where
    abbrev exported : Option Error × K.Cluster
    exported = export_verify_result K none statuses vrr ignored violated w

    abbrev ns : Str
    ns = pod_namespace K

    exported_new :
        (e : Error)
        → statuses.get w ns vrr.constraint_name ≡ err e
        → exported
          ≡ statuses.create w ns (record {
            name = vrr.constraint_name;
            labels = result_labels ignored violated;
            spec = vrr;
          })
    unfolding export_verify_result
    exported_new e missing = ground arith

    exported_again :
        (obj : VerifyResourceStatus)
        → statuses.get w ns vrr.constraint_name ≡ ok obj
        → exported
          ≡ statuses.update w ns
              (record obj { labels = result_labels ignored violated; spec = vrr })
    unfolding export_verify_result
    exported_again obj found = ground arith

    -- Where the cluster can be reached and the export succeeds, the status that is stored under the
    -- name of the constraint holds the results, and the labels say whether there are violations and
    -- whether the constraint is ignored, whether or not there was such a status before.
    pub get-export_verify_result :
        (export_verify_result K none statuses vrr ignored violated w).0 ≡ none
        → statuses.get
            (export_verify_result K none statuses vrr ignored violated w).1
            (pod_namespace K)
            vrr.constraint_name
          ≡ ok (record {
            name = vrr.constraint_name;
            labels = result_labels ignored violated;
            spec = vrr;
          })
    get-export_verify_result success = elim (Result-cases (statuses.get w ns vrr.constraint_name)) [
      | inr (e, missing) ↦
          let new : VerifyResourceStatus = record {
            name = vrr.constraint_name;
            labels = result_labels ignored violated;
            spec = vrr;
          } in
          let same = exported_new e missing in
          ap (λ (r : Option Error × K.Cluster). statuses.get r.1 ns vrr.constraint_name) same
          ∙ creates.get-create w ns new
              (sym (ap (λ (r : Option Error × K.Cluster). r.0) same) ∙ success)
      | inl (obj, found) ↦
          let new : VerifyResourceStatus = record obj {
            labels = result_labels ignored violated;
            spec = vrr;
          } in
          let same = exported_again obj found in
          let name = updates.name-get w ns vrr.constraint_name found in
          ap (λ (r : Option Error × K.Cluster). statuses.get r.1 ns vrr.constraint_name) same
          ∙ subst
              (λ n.
                statuses.get (statuses.update w ns new).1 ns n
                ≡ ok (record { name = n; labels = result_labels ignored violated; spec = vrr }))
              name
              (updates.get-update w ns new
                (sym (ap (λ (r : Option Error × K.Cluster). r.0) same) ∙ success))
    ]
