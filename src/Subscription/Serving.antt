-- ===== src/Subscription/Serving.antt =====
-- Which of a session's subscriptions a cycle of internal/opcua/subscription.go serves, and that a
-- subscription is created.
use opcda_access_adapter.Prelude.{
  ℕ, ◌+◌, ◌^◌, ◌≤◌, ◌<◌, ◌≡◌, refl, sym, ap, subst, ◌∙◌, ◌⊎◌, inl, inr, true, false, Option, none,
  some, List, [], ◌∷◌, All, ltb, leb, length, if◌then◌else◌, arith, Bool-cases, suc,
}
use opcda_access_adapter.Prelude.Dict.{Dict, keys}
use opcda_access_adapter.Prelude.Keys.{same}
use opcda_access_adapter.Errors.{Result, err, codec, status_bad_too_many_subscriptions}
use opcda_access_adapter.Channel.Ids.{search, search_total}
use opcda_access_adapter.Subscription.State.{UaSubscription}
use opcda_access_adapter.Subscription.Service.{
  SubscriptionService, CreateSubscription, CreateSubscriptionResponse, allocate_id, create_with,
  create_subscription,
}
use opcda_access_adapter.Subscription.Publishing.{better, best_of, next_publishable}

module _ {X : Type 0} where
  -- Not the session's, or not above the priority.
  abbrev pub IsOutranked : List ℕ → ℕ → UaSubscription X → Type 0
  IsOutranked token priority s = (same s.session_token token ≡ false) ⊎ (s.priority ≤ priority)

  abbrev IsLess : List ℕ → ℕ → Option (UaSubscription X) → Type 0
  IsLess token priority none = Unit
  IsLess token priority (some s) = (same s.session_token token ≡ true) × (s.priority ≤ priority)

  abbrev IsOwned : List ℕ → Option (UaSubscription X) → Type 0
  IsOwned token none = Unit
  IsOwned token (some s) = same s.session_token token ≡ true

  best_of-highest :
      (token : List ℕ) (d : Dict (UaSubscription X)) (best : Option (UaSubscription X))
      (b : UaSubscription X)
      → IsOwned token best
      → best_of token d best ≡ some b
      → (same b.session_token token ≡ true)
        × IsLess token b.priority best
        × All (λ e. IsOutranked token b.priority e.1) d
  best_of-highest token [] none b owned h = cc h
  best_of-highest token [] (some c) b owned h =
      let here : c ≡ b = cc h in
      (
        ap (λ x. same x.session_token token) (sym here) ∙ owned,
        (owned, subst (λ x. c.priority ≤ x.priority) here (omega arith)),
        tt,
      )
  best_of-highest token ((id, s) ∷ d) best b owned h =
      elim (Bool-cases (same s.session_token token)) [
        | inr e ↦
            let (mine, less, rest) = best_of-highest token d best b owned (rw e at h) in
            (mine, less, (inl e, rest))
        | inl e ↦ go (best_of-highest token d) best owned (rw e at h) e
      ]
    where
      go :
          ((c : Option (UaSubscription X)) (a : UaSubscription X)
            → IsOwned token c
            → best_of token d c ≡ some a
            → (same a.session_token token ≡ true)
              × IsLess token a.priority c
              × All (λ e. IsOutranked token a.priority e.1) d)
          → (best : Option (UaSubscription X)) → IsOwned token best
          → best_of token d (if better s best then some s else best) ≡ some b
          → same s.session_token token ≡ true
          → (same b.session_token token ≡ true)
            × IsLess token b.priority best
            × All (λ e. IsOutranked token b.priority e.1) ((id, s) ∷ d)
      go again none owned h e =
          let (mine, less, rest) = again (some s) b e h in (mine, tt, (inr less.1, rest))
      go again (some c) owned h e = elim (Bool-cases (ltb c.priority s.priority)) [
        | inl above ↦
            let (mine, less, rest) = again (some s) b e (rw above at h) in
            let below : c.priority ≤ b.priority = ground (arith, less.1) in
            (mine, (owned, below), (inr less.1, rest))
        | inr not_above ↦
            let (mine, less, rest) = again (some c) b owned (rw not_above at h) in
            let below : s.priority ≤ b.priority = ground (arith, less.1) in
            (mine, less, (inr below, rest))
      ]

  -- The subscription that a cycle serves is one of the session's, and no other of the session's has a
  -- higher priority, whatever any of them has to send.
  pub next_publishable_highest :
      (v : SubscriptionService X) (token : List ℕ) (b : UaSubscription X)
      → next_publishable v token ≡ some b
      → (same b.session_token token ≡ true)
        × All (λ e. IsOutranked token b.priority e.1) v.subscriptions
  unfolding next_publishable
  next_publishable_highest v token b h =
      let (mine, less, rest) = best_of-highest token v.subscriptions none b tt h in (mine, rest)

  length-keys : (d : Dict (UaSubscription X)) → length (keys d) ≡ length d
  length-keys [] = refl
  length-keys ((k, s) ∷ d) = ap suc (length-keys d)

  -- With limits that allow fewer than 2 ^ 32 subscriptions, CreateSubscription returns: its search for
  -- an identifier ends.
  pub create_subscription_total :
      (v : SubscriptionService X) (token : List ℕ) (q : CreateSubscription) (now : ℕ)
      → v.limits.max_subscriptions < 2 ^ 32
      → (outcome : Result CreateSubscriptionResponse × SubscriptionService X) × (create_subscription
            v token q now
          ≡ some outcome)
  unfolding create_subscription allocate_id
  create_subscription_total v token q now h =
      elim (Bool-cases (leb v.limits.max_subscriptions (length v.subscriptions))) [
        | inl full ↦ ((err (codec status_bad_too_many_subscriptions), v), rw full refl)
        | inr room ↦
            let enough : length (keys v.subscriptions) + 2 ≤ 2 ^ 32 =
              ground (arith, length-keys v.subscriptions) in
            let (outcome, e) =
              searched (search (length (keys v.subscriptions) + 2) v.next_id (keys v.subscriptions))
                (search_total v.next_id (keys v.subscriptions) enough) in
            (outcome, rw room e)
      ]
    where
      searched :
          (x : Option ℕ)
          → (id : ℕ) × (x ≡ some id)
          → (outcome : Result CreateSubscriptionResponse × SubscriptionService X) × (create_with v
                token q now x
              ≡ some outcome)
      searched none (id, e) = cc e
      searched (some id) p = (_, refl)
