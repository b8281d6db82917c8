-- ===== src/Subscription/Owners.antt =====
-- Whose subscriptions a call of the SubscriptionService of internal/opcua/subscription.go reaches.
use opcda_access_adapter.Prelude.{
  ℕ, ◌≡◌, ◌≢◌, refl, ap, subst, ◌∙◌, inl, inr, Bool, false, some, List, [], ◌∷◌, ◌==◌, arith,
  Bool-cases,
}
use opcda_access_adapter.Prelude.Dict.{Dict, lookup, lookup-insert_ne, lookup-erase_ne}
use opcda_access_adapter.Prelude.Keys.{same}
use opcda_access_adapter.Errors.{Result, ok, err, codec, status_bad_subscription_id_invalid}
use opcda_access_adapter.Subscription.State.{UaSubscription}
use opcda_access_adapter.Subscription.Queue.{acknowledge_message}
use opcda_access_adapter.Subscription.Service.{
  SubscriptionService, lookup_subscription, perform, perform_each, perform_some, delete_one,
  delete_subscriptions, set_one, set_publishing_mode, delete_items, delete_items_found,
  delete_monitored_items,
}
use opcda_access_adapter.Subscription.Publishing.{
  acknowledge_one, acknowledge, republish_found, republish, remaining, release_session,
}

-- A call of a session, with its arguments.
pub data Call : Type 0 where
  delete_call : List ℕ → Call
  mode_call : Bool → List ℕ → Call
  acknowledge_call : List (ℕ × ℕ) → Call
  republish_call : ℕ → ℕ → Call
  delete_items_call : ℕ → List ℕ → Call
  release_call : Call

module _ {X : Type 0} where
  abbrev pub call : SubscriptionService X → List ℕ → ℕ → Call → SubscriptionService X
  call v token now (delete_call ids) = (delete_subscriptions v token ids now).1
  call v token now (mode_call enabled ids) = (set_publishing_mode v token enabled ids now).1
  call v token now (acknowledge_call acks) = (acknowledge token now acks v).1
  call v token now (republish_call id n) = (republish v token id n now).1
  call v token now (delete_items_call id items) = (delete_monitored_items v token id items now).1
  call v token now release_call = release_session v token

  module _ (token : List ℕ) (now id : ℕ) (s : UaSubscription X)
      (other : same s.session_token token ≡ false) where
    -- The subscription is held under the identifier.
    abbrev IsThere : SubscriptionService X → Type 0
    IsThere v = lookup id v.subscriptions ≡ some s

    refused :
        (v : SubscriptionService X)
        → IsThere v
        → lookup_subscription v token id now ≡ err (codec status_bad_subscription_id_invalid)
    unfolding lookup_subscription
    refused v there = rw (there, other) refl

    perform-IsThere :
        (operation : SubscriptionService X → ℕ → UaSubscription X → ℕ × SubscriptionService X)
        → ((v : SubscriptionService X) (j : ℕ) (t : UaSubscription X)
            → id ≢ j
            → IsThere v
            → IsThere (operation v j t).1)
        → (v : SubscriptionService X) (j : ℕ) → IsThere v
        → IsThere (perform operation v j (lookup_subscription v token j now)).1
    perform-IsThere operation keeps v j there = elim (Bool-cases (id == j)) [
      | inl e ↦
          let alike : id ≡ j = ground arith in
          subst (λ k. IsThere (perform operation v k (lookup_subscription v token k now)).1) alike
            (ap (λ x. lookup id (perform operation v id x).1.subscriptions) (refused v there)
              ∙ there)
      | inr e ↦ go (lookup_subscription v token j now) (ground arith)
    ]
      where
        go : (x : Result (UaSubscription X)) → id ≢ j → IsThere (perform operation v j x).1
        go (err reason) differs = there
        go (ok t) differs = keeps v j t differs there

    perform_each-IsThere :
        (operation : SubscriptionService X → ℕ → UaSubscription X → ℕ × SubscriptionService X)
        → ((v : SubscriptionService X) (j : ℕ) (t : UaSubscription X)
            → id ≢ j
            → IsThere v
            → IsThere (operation v j t).1)
        → (ids : List ℕ) (v : SubscriptionService X) → IsThere v
        → IsThere (perform_each operation token now ids v).1
    perform_each-IsThere operation keeps [] v there = there
    perform_each-IsThere operation keeps (j ∷ ids) v there =
        perform_each-IsThere operation keeps ids
          (perform operation v j (lookup_subscription v token j now)).1
          (perform-IsThere operation keeps v j there)

    perform_some-IsThere :
        (operation : SubscriptionService X → ℕ → UaSubscription X → ℕ × SubscriptionService X)
        → ((v : SubscriptionService X) (j : ℕ) (t : UaSubscription X)
            → id ≢ j
            → IsThere v
            → IsThere (operation v j t).1)
        → (ids : List ℕ) (v : SubscriptionService X) → IsThere v
        → IsThere (perform_some operation v token ids now).1
    perform_some-IsThere operation keeps [] v there = there
    perform_some-IsThere operation keeps (j ∷ ids) v there =
        perform_each-IsThere operation keeps (j ∷ ids) v there

    acknowledge-IsThere :
        (acks : List (ℕ × ℕ)) (v : SubscriptionService X)
        → IsThere v
        → IsThere (acknowledge token now acks v).1
    unfolding acknowledge
    acknowledge-IsThere [] v there = there
    acknowledge-IsThere ((j, n) ∷ acks) v there =
        acknowledge-IsThere acks
          (perform (acknowledge_one n) v j (lookup_subscription v token j now)).1
          (perform-IsThere (acknowledge_one n)
            (λ w k t differs h.
              lookup-insert_ne id k (acknowledge_message n t).1 w.subscriptions differs ∙ h)
            v j there)

    republish-IsThere :
        (j n : ℕ) (v : SubscriptionService X) → IsThere v → IsThere (republish v token j n now).1
    unfolding republish
    republish-IsThere j n v there = elim (Bool-cases (id == j)) [
      | inl e ↦
          let alike : id ≡ j = ground arith in
          subst (λ k. IsThere (republish_found v k n (lookup_subscription v token k now)).1) alike
            (ap (λ x. lookup id (republish_found v id n x).1.subscriptions) (refused v there)
              ∙ there)
      | inr e ↦ go (lookup_subscription v token j now) (ground arith)
    ]
      where
        go : (x : Result (UaSubscription X)) → id ≢ j → IsThere (republish_found v j n x).1
        go (err reason) differs = there
        go (ok t) differs = lookup-insert_ne id j t v.subscriptions differs ∙ there

    delete_items-IsThere :
        (j : ℕ) (items : List ℕ) (v : SubscriptionService X)
        → IsThere v
        → IsThere (delete_monitored_items v token j items now).1
    unfolding delete_monitored_items
    delete_items-IsThere j [] v there = there
    delete_items-IsThere j (i ∷ items) v there = elim (Bool-cases (id == j)) [
      | inl e ↦
          let alike : id ≡ j = ground arith in
          subst
            (λ k.
              IsThere (delete_items_found v k (i ∷ items) (lookup_subscription v token k now)).1)
            alike
            (ap (λ x. lookup id (delete_items_found v id (i ∷ items) x).1.subscriptions)
                (refused v there)
              ∙ there)
      | inr e ↦ go (lookup_subscription v token j now) (ground arith)
    ]
      where
        go :
            (x : Result (UaSubscription X))
            → id ≢ j
            → IsThere (delete_items_found v j (i ∷ items) x).1
        go (err reason) differs = there
        go (ok t) differs =
            lookup-insert_ne id j (record t { items = (delete_items (i ∷ items) t.items).1 })
              v.subscriptions differs
            ∙ there

    remaining-lookup :
        (test : UaSubscription X → Bool) (d : Dict (UaSubscription X))
        → test s ≡ false
        → lookup id d ≡ some s
        → lookup id (remaining test d) ≡ some s
    remaining-lookup test [] stays h = cc h
    remaining-lookup test ((j, t) ∷ d) stays h = elim (Bool-cases (id == j)) [
      | inl e ↦
          let here : t ≡ s = cc (rw e at h) in
          let spared : test t ≡ false = ap test here ∙ stays in rw (spared, e) (ap some here)
      | inr e ↦
          let later : lookup id (remaining test d) ≡ some s =
            remaining-lookup test d stays (rw e at h) in
          elim (Bool-cases (test t)) [ inl gone ↦ rw gone later | inr kept ↦ rw (kept, e) later ]
    ]

  -- No call of a session reaches the subscription of another one: whatever subscriptions or items it deletes, whatever it switches,
  -- acknowledges, asks to have republished or releases as it ends, a subscription with another
  -- session's token stays as it is.
  pub call-other :
      (v : SubscriptionService X) (token : List ℕ) (now id : ℕ) (s : UaSubscription X) (c : Call)
      → lookup id v.subscriptions ≡ some s
      → same s.session_token token ≡ false
      → lookup id (call v token now c).subscriptions ≡ some s
  unfolding delete_subscriptions set_publishing_mode release_session
  call-other v token now id s (delete_call ids) there other =
      perform_some-IsThere token now id s other delete_one
        (λ w k t differs h. lookup-erase_ne id k w.subscriptions differs ∙ h) ids v there
  call-other v token now id s (mode_call enabled ids) there other =
      perform_some-IsThere token now id s other (set_one enabled)
        (λ w k t differs h.
          lookup-insert_ne id k (record t { publishing_enabled = enabled }) w.subscriptions differs
          ∙ h)
        ids v there
  call-other v token now id s (acknowledge_call acks) there other =
      acknowledge-IsThere token now id s other acks v there
  call-other v token now id s (republish_call j n) there other =
      republish-IsThere token now id s other j n v there
  call-other v token now id s (delete_items_call j items) there other =
      delete_items-IsThere token now id s other j items v there
  call-other v token now id s release_call there other =
      remaining-lookup token now id s other (λ t. same t.session_token token) v.subscriptions other
        there
