-- ===== src/Admission/Webhook/Rejects.antt =====
-- What the loop over the profiles comes to (`ProcessRequest` of
-- admission-controller/pkg/controller/webhook.go).
use integrity_shield.Base.{
  Str, bytes, ◌≡◌, Bool, true, false, List, [], ◌∷◌, ◌++◌, if◌then◌else◌, any, any-snoc, Option,
  Error, arith, ◌↔◌, ◌⊎◌, inl, inr,
}
use integrity_shield.External.Kube.{Kube, Client}
use integrity_shield.External.Sigstore.{Sigstore}
use integrity_shield.External.Labels.{Labels}
use integrity_shield.Server.Config.{RequestHandlerConfig}
use integrity_shield.Server.Shield.Request.{Request, ResultFromRequestHandler, State}
use integrity_shield.Server.Shield.Event.{Event}
use integrity_shield.Server.Shield.Handler.{request_handler}
use integrity_shield.Admission.Match.{match_check}
use integrity_shield.Admission.Status.{Profiles}
use integrity_shield.Admission.Webhook.{Profile, process_loop}
use integrity_shield.Admission.Webhook.Accumulate.{is_denial}

module _ (K : Kube) (S : Sigstore K.Cluster) (L : Labels K.Cluster S.Object)
    (P : Profiles K S L.LabelSelector)
    (unmarshal : Str → Option (RequestHandlerConfig S) × Option Error)
    (group_version : Str → Str → Str) (events : Client K.Cluster Event) where
  abbrev applies : Request → Profile K S L P → State K → Bool
  applies req c s = match_check K S L s.cluster req c.spec.match

  -- The state after one profile.
  unfoldable pub after : Request → Profile K S L P → State K → State K
  after req c s =
      if applies req c s
      then (request_handler K S unmarshal group_version events req c.spec.parameters s).state
      else s

  -- A profile of the list applies to the request, in the state that the profiles before it left,
  -- and the request handler denies the request by its parameters.
  pub data Rejected (req : Request) : List (Profile K S L P) → State K → Type 0 where
    rejected :
        {c : Profile K S L P} {rest : List (Profile K S L P)} {s : State K}
        → match_check K S L s.cluster req c.spec.match ≡ true
        → (request_handler K S unmarshal group_version events req c.spec.parameters s).result.allow
          ≡ false
        → Rejected req (c ∷ rest) s
    later :
        {c : Profile K S L P} {rest : List (Profile K S L P)} {s : State K}
        → Rejected req rest (after req c s)
        → Rejected req (c ∷ rest) s

  -- What one profile makes of the request.
  unfoldable verdict : Request → Profile K S L P → State K → ResultFromRequestHandler
  verdict req c s =
      if applies req c s
      then record ((request_handler K S unmarshal group_version events req c.spec.parameters
          s).result) { profile = c.name }
      else record { allow = true; message = bytes "not protected"; profile = c.name }

  process_loop_step :
      (req : Request) (c : Profile K S L P) (rest : List (Profile K S L P))
      (results : List ResultFromRequestHandler) (s : State K)
      → process_loop K S L P unmarshal group_version events req (c ∷ rest) results s
        ≡ process_loop K S L P unmarshal group_version events req rest
            (results ++ (verdict req c s ∷ []))
            (after req c s)
  unfolding process_loop verdict after
  process_loop_step req c rest results s = ground arith

  verdict_iff :
      (req : Request) (c : Profile K S L P) (s : State K)
      → (is_denial (verdict req c s) ≡ true) ↔ (
          (applies req c s ≡ true)
          × ((request_handler K S unmarshal group_version events req c.spec.parameters
                s).result.allow
              ≡ false))
  unfolding verdict
  verdict_iff req c s = ground arith

  Rejected-cons :
      (req : Request) {c : Profile K S L P} {rest : List (Profile K S L P)} {s : State K}
      → Rejected req (c ∷ rest) s
      → (is_denial (verdict req c s) ≡ true) ⊎ Rejected req rest (after req c s)
  Rejected-cons req {c = c} {s = s} (rejected m d) = inl ((verdict_iff req c s).1 (m, d))
  Rejected-cons req (later r) = inr r

  Rejected-nil : (req : Request) {s : State K} → Rejected req [] s → ⊥
  Rejected-nil req r = elim r [ ]

  -- The results of the loop hold a denial exactly when those before it do, or a profile rejects.
  pub process_loop-any :
      (req : Request) (cs : List (Profile K S L P)) (results : List ResultFromRequestHandler)
      (s : State K)
      → (any is_denial (process_loop K S L P unmarshal group_version events req cs results s).0
          ≡ true)
        ↔ ((any is_denial results ≡ true) ⊎ Rejected req cs s)
  process_loop-any req [] results s =
      unfold process_loop in (λ h. inl h, elim [ inl h ↦ h | inr r ↦ absurd (Rejected-nil req r) ])
  process_loop-any req (c ∷ rest) results s =
      let v = verdict req c s in
      let ih = process_loop-any req rest (results ++ (v ∷ [])) (after req c s) in
      rw (process_loop_step req c rest results s) (
        λ h. elim (ih.0 h) [
          | inl a ↦ elim ((any-snoc is_denial results v).0 a) [
            | inl old ↦ inl old
            | inr new ↦ let (m, d) = (verdict_iff req c s).0 new in inr (rejected m d)
          ]
          | inr r ↦ inr (later r)
        ],
        λ h. ih.1 (elim h [
          | inl old ↦ inl ((any-snoc is_denial results v).1 (inl old))
          | inr r ↦ elim (Rejected-cons req r) [
            | inl new ↦ inl ((any-snoc is_denial results v).1 (inr new))
            | inr r' ↦ inr r'
          ]
        ]),
      )
