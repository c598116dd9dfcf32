-- ===== src/Server/Shield/Event/Records.antt =====
-- The length of an event's message, and what an event's client stores for a denial
-- (`createOrUpdateEvent` of integrity-shield-server/pkg/shield/request_handler.go).
use integrity_shield.Base.{
  ℕ, zero, suc, ◌+◌, ◌%◌, ◌^◌, ◌≤◌, Str, bytes, ◌≡◌, refl, true, false, List, [], ◌∷◌, ◌++◌, length,
  take, length-append, length-take, ltb, arith, Option, none, ok, Error, Bool-cases, inl, inr, ap,
  sym, ◌∙◌, subst,
}
use integrity_shield.External.Kube.{Kube, Client, UpdateIsLawful}
use integrity_shield.Server.Shield.Request.{Request, ResultFromRequestHandler}
use integrity_shield.Server.Shield.Event.{
  Event, trimmed_suffix, event_message, event_name, event_namespace, filled_event,
  create_or_update_event,
}

take-append_take {ℓ} :
    {A : Type ℓ} (n : ℕ) (xs ys : List A) → n ≤ length xs → take n (take n xs ++ ys) ≡ take n xs
take-append_take zero xs ys h = refl
take-append_take (suc n) [] ys h = absurd (omega arith)
take-append_take (suc n) (x ∷ xs) ys h = ap (λ t. x ∷ t) (take-append_take n xs ys (omega arith))

length-trimmed_suffix : length trimmed_suffix ≡ 61
unfolding bytes
length-trimmed_suffix = refl

abbrev full_message : Str → Str → Str
full_message constraint_name message = bytes "[" ++ (constraint_name ++ (bytes "]" ++ message))

-- An event's message has 1024 bytes at most, and it begins with the first 950 bytes of the whole
-- message.
pub event_message_bounds :
    (constraint_name message : Str)
    → (length (event_message constraint_name message) ≤ 1024)
      × (take 950 (event_message constraint_name message)
          ≡ take 950 (bytes "[" ++ (constraint_name ++ (bytes "]" ++ message))))
unfolding event_message
event_message_bounds constraint_name message =
    let full = full_message constraint_name message in
    elim (Bool-cases (ltb 1024 (length full))) [
      | inr short ↦ rw short (ground arith, refl)
      | inl long ↦ rw long (
        (omega (
          arith,
          length-append {0} (take 950 full) trimmed_suffix,
          length-take {0} 950 full,
          length-trimmed_suffix,
        )),
        take-append_take 950 full trimmed_suffix (ground arith),
      )
    ]

module _ (K : Kube) (group_version : Str → Str → Str) (events : Client K.Cluster Event)
    (req : Request) (ar : ResultFromRequestHandler) (constraint_name : Str) (w : K.Cluster) where
  -- An allowed request leaves the cluster as it was.
  pub create_or_update_event_allowed :
      ar.allow ≡ true
      → create_or_update_event K group_version events req ar constraint_name w ≡ (none, w)
  unfolding create_or_update_event
  create_or_update_event_allowed h = rw (h, create_or_update_event)

  create_or_update_event-none :
      ar.allow ≡ false
      → (create_or_update_event K group_version events req ar constraint_name w).0 ≡ none
      → (K.kube_config ≡ none) × (K.new_for_config ≡ none)
  unfolding create_or_update_event
  create_or_update_event-none denied done = ground arith

  create_or_update_event_found :
      ar.allow ≡ false
      → K.kube_config ≡ none
      → K.new_for_config ≡ none
      → {old : Event} → events.get w (event_namespace K req) (event_name req) ≡ ok old
      → create_or_update_event K group_version events req ar constraint_name w
        ≡ events.update w (event_namespace K req) (filled_event K old constraint_name ar.message)
  unfolding create_or_update_event
  create_or_update_event_found denied p q found = ground arith

  -- A denial that finds the event of an earlier one, with no error on the way, leaves an event
  -- under the same name whose count is one more, as an int32, whose message is the new one, and
  -- whose other fields are those of the earlier event but for the times of the last one.
  pub create_or_update_event-get :
      UpdateIsLawful Event.name events
      → ar.allow ≡ false
      → {old : Event} → events.get w (event_namespace K req) (event_name req) ≡ ok old
      → (create_or_update_event K group_version events req ar constraint_name w).0 ≡ none
      → events.get
          (create_or_update_event K group_version events req ar constraint_name w).1
          (event_namespace K req)
          (event_name req)
        ≡ ok (record old {
          message = event_message constraint_name ar.message;
          count = (old.count + 1) % 2 ^ 32;
          event_time = K.now;
          last_timestamp = K.now;
        })
  unfolding filled_event
  create_or_update_event-get L denied {old} found done =
      let (p, q) = create_or_update_event-none denied done in
      let same = create_or_update_event_found denied p q found in
      let stored =
        L.get-update w (event_namespace K req) (filled_event K old constraint_name ar.message)
          (ap (λ (r : Option Error × K.Cluster). r.0) (sym same) ∙ done) in
      rw same (
        subst
          (λ name.
            events.get
              (events.update w (event_namespace K req)
                (filled_event K old constraint_name ar.message)).1
              (event_namespace K req) name
            ≡ ok (filled_event K old constraint_name ar.message))
          (L.name-get w (event_namespace K req) (event_name req) found) stored)
