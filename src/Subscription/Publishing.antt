-- ===== src/Subscription/Publishing.antt =====
-- internal/opcua/subscription.go: the calls of the SubscriptionService that publish: acknowledge,
-- Republish, one cycle of Publish, and the ends of subscriptions.
use opcda_access_adapter.Prelude.{
  ℕ, ◌+◌, ◌*◌, Bool, true, ◌&&◌, Option, none, some, List, [], ◌∷◌, ltb, length, if◌then◌else◌,
}
use opcda_access_adapter.Prelude.Dict.{Dict, keys}
use opcda_access_adapter.Prelude.Keys.{same}
use opcda_access_adapter.Errors.{Result, ok, err, codec, status_bad_no_subscription}
use opcda_access_adapter.Channel.Token.{millisecond}
use opcda_access_adapter.Subscription.State.{NotificationMessage, UaSubscription, expired}
use opcda_access_adapter.Subscription.Queue.{
  IntSize, build_message, acknowledge_message, republish_message,
}
use opcda_access_adapter.Subscription.Service.{
  SubscriptionService, lookup_subscription, store, perform,
}

pub record PublishResponse (X : Type 0) : Type 0 where
  pub subscription_id : ℕ
  pub available_sequence_numbers : List ℕ
  pub more_notifications : Bool
  pub notification_message : NotificationMessage X

module _ {X : Type 0} where
  -- One entry of a request's acknowledgements, for a subscription that was found, and the loop.
  abbrev pub acknowledge_one :
      ℕ → SubscriptionService X → ℕ → UaSubscription X → ℕ × SubscriptionService X
  acknowledge_one n v id s = ((acknowledge_message n s).0, store v id (acknowledge_message n s).1)

  unfoldable pub acknowledge :
      List ℕ → ℕ → List (ℕ × ℕ) → SubscriptionService X → List ℕ × SubscriptionService X
  unfolding lookup_subscription acknowledge_message
  acknowledge token now [] v = ([], v)
  acknowledge token now ((id, n) ∷ rest) v =
      let first = perform (acknowledge_one n) v id (lookup_subscription v token id now) in
      let later = acknowledge token now rest first.1 in (first.0 ∷ later.0, later.1)

  abbrev pub republish_found :
      SubscriptionService X
      → ℕ
      → ℕ
      → Result (UaSubscription X)
      → Result (NotificationMessage X) × SubscriptionService X
  republish_found v id n (err e) = (err e, v)
  republish_found v id n (ok s) = (republish_message n s, store v id s)

  unfoldable pub republish :
      SubscriptionService X
      → List ℕ
      → ℕ
      → ℕ
      → ℕ
      → Result (NotificationMessage X) × SubscriptionService X
  unfolding lookup_subscription republish_message
  republish v token id n now = republish_found v id n (lookup_subscription v token id now)

  -- The loop of publishPollInterval, in nanoseconds.
  abbrev pub shortest : List ℕ → Dict (UaSubscription X) → ℕ → ℕ
  shortest token [] interval = interval
  shortest token ((id, s) ∷ d) interval =
      let candidate = s.publishing_interval * millisecond in
      shortest token d (
        if same s.session_token token && ltb 0 candidate && ltb candidate interval
        then candidate
        else interval)

  unfoldable pub publish_poll_interval : SubscriptionService X → List ℕ → ℕ
  publish_poll_interval v token =
      let interval = shortest token v.subscriptions v.limits.max_publishing_interval in
      if ltb interval v.limits.min_publishing_interval
      then v.limits.min_publishing_interval
      else interval

  abbrev pub better : UaSubscription X → Option (UaSubscription X) → Bool
  better s none = true
  better s (some best) = ltb best.priority s.priority

  abbrev pub best_of :
      List ℕ → Dict (UaSubscription X) → Option (UaSubscription X) → Option (UaSubscription X)
  best_of token [] best = best
  best_of token ((id, s) ∷ d) best =
      best_of token d (if same s.session_token token && better s best then some s else best)

  unfoldable pub next_publishable : SubscriptionService X → List ℕ → Option (UaSubscription X)
  next_publishable v token = best_of token v.subscriptions none

  -- The loop of tryPublish over the subscriptions of the session.
  abbrev pub keep_alive_each : List ℕ → ℕ → Dict (UaSubscription X) → Dict (UaSubscription X)
  keep_alive_each token now [] = []
  keep_alive_each token now ((id, s) ∷ d) =
      (id, (if same s.session_token token then record s { last_kept_alive = now } else s))
      ∷ keep_alive_each token now d

  abbrev pub publish_response :
      UaSubscription X → Option (NotificationMessage X) → Option (PublishResponse X)
  publish_response s none = none
  publish_response s (some m) = some (record {
    subscription_id = s.id;
    available_sequence_numbers = keys s.retransmit;
    more_notifications = ltb 0 (length s.pending);
    notification_message = m;
  })

  abbrev pub publish_built :
      SubscriptionService X
      → ℕ
      → Option (Option (NotificationMessage X) × UaSubscription X)
      → Option (Result (Option (PublishResponse X)) × SubscriptionService X)
  publish_built v id none = none
  publish_built v id (some built) = some (ok (publish_response built.1 built.0), store v id built.1)

  -- tryPublish behind its choice; `collected` is collect of the chosen subscription, and `none` is
  -- the panic of buildMessage.
  abbrev pub publish_chosen :
      IntSize
      → SubscriptionService X
      → (UaSubscription X → UaSubscription X)
      → ℕ
      → Option (UaSubscription X)
      → Option (Result (Option (PublishResponse X)) × SubscriptionService X)
  publish_chosen size v collected now none = some (err (codec status_bad_no_subscription), v)
  publish_chosen size v collected now (some s) =
      publish_built v s.id (build_message size v.limits (collected s) now)

  unfoldable pub try_publish :
      IntSize
      → SubscriptionService X
      → List ℕ
      → (UaSubscription X → UaSubscription X)
      → ℕ
      → Option (Result (Option (PublishResponse X)) × SubscriptionService X)
  unfolding next_publishable build_message
  try_publish size v token collected now =
      let w = record v { subscriptions = keep_alive_each token now v.subscriptions } in
      publish_chosen size w collected now (next_publishable w token)

  -- The subscriptions that stay where those that pass a test are deleted.
  abbrev pub remaining :
      (UaSubscription X → Bool) → Dict (UaSubscription X) → Dict (UaSubscription X)
  remaining test [] = []
  remaining test ((id, s) ∷ d) = if test s then remaining test d else (id, s) ∷ remaining test d

  abbrev pub count_of : (UaSubscription X → Bool) → Dict (UaSubscription X) → ℕ
  count_of test [] = 0
  count_of test ((id, s) ∷ d) = if test s then 1 + count_of test d else count_of test d

  unfoldable pub expire_stale : SubscriptionService X → ℕ → ℕ × SubscriptionService X
  unfolding expired
  expire_stale v now = (
    count_of (λ s. expired s now) v.subscriptions,
    record v { subscriptions = remaining (λ s. expired s now) v.subscriptions },
  )

  unfoldable pub release_session : SubscriptionService X → List ℕ → SubscriptionService X
  release_session v token = record v {
    subscriptions = remaining (λ s. same s.session_token token) v.subscriptions;
  }
