-- ===== src/Listener.antt =====
-- internal/opcua/listener.go: the hook by which the end of a session releases its subscriptions, and the
-- periodic expiry. The continuation points of browsing, which the hook releases as well, are not
-- modelled. The hook runs before the next call; a call that comes between is not modelled.
use opcda_access_adapter.Prelude.{
  ℕ, ◌≤◌, ◌≡◌, refl, Bool, false, inl, inr, List, [], ◌∷◌, All, arith, Bool-cases,
}
use opcda_access_adapter.Prelude.Dict.{Dict}
use opcda_access_adapter.Prelude.Keys.{same}
use opcda_access_adapter.Session.State.{SessionInfo, info_key}
use opcda_access_adapter.Session.Table.{held}
use opcda_access_adapter.Session.Registry.{SessionRegistry}
use opcda_access_adapter.Session.Conserved.{told, Conserves}
use opcda_access_adapter.Session.Runs.{Call, call, call-Conserves}
use opcda_access_adapter.Subscription.State.{UaSubscription}
use opcda_access_adapter.Subscription.Service.{SubscriptionService}
use opcda_access_adapter.Subscription.Publishing.{remaining, release_session}

module _ {X : Type 0} where
  -- notifyEnded with the hook that NewListener registers.
  unfoldable pub run_hook : List SessionInfo → SubscriptionService X → SubscriptionService X
  unfolding release_session
  run_hook [] v = v
  run_hook (i ∷ is) v = run_hook is (release_session v (info_key i))

  -- Every subscription belongs to a session that the registry holds.
  unfoldable pub Owned : SessionRegistry → SubscriptionService X → Type 0
  Owned r v = All (λ e. 1 ≤ held (same e.1.session_token) r.sessions) v.subscriptions

  module _ (P : ℕ × UaSubscription X → Type 0) where
    All-remaining :
        (test : UaSubscription X → Bool) (d : Dict (UaSubscription X))
        → All P d
        → All P (remaining test d)
    All-remaining test [] h = tt
    All-remaining test ((id, s) ∷ d) h = elim (Bool-cases (test s)) [
      | inl e ↦ rw e (All-remaining test d h.1)
      | inr e ↦ rw e (h.0, All-remaining test d h.1)
    ]

    All-run_hook :
        (is : List SessionInfo) (v : SubscriptionService X)
        → All P v.subscriptions
        → All P (run_hook is v).subscriptions
    unfolding run_hook
    All-run_hook [] v h = h
    All-run_hook (i ∷ is) v h =
        All-run_hook is (release_session v (info_key i))
          (All-remaining (λ s. same s.session_token (info_key i)) v.subscriptions h)

  remaining-fails :
      (test : UaSubscription X → Bool) (d : Dict (UaSubscription X))
      → All (λ e. test e.1 ≡ false) (remaining test d)
  remaining-fails test [] = tt
  remaining-fails test ((id, s) ∷ d) = elim (Bool-cases (test s)) [
    | inl e ↦ rw e (remaining-fails test d)
    | inr e ↦ rw e (e, remaining-fails test d)
  ]

  All-both :
      (P Q R : ℕ × UaSubscription X → Type 0)
      → ((e : ℕ × UaSubscription X) → P e → Q e → R e)
      → (d : Dict (UaSubscription X)) → All P d
      → All Q d
      → All R d
  All-both P Q R f [] p q = tt
  All-both P Q R f (e ∷ d) p q = (f e p.0 q.0, All-both P Q R f d p.1 q.1)

  -- After the hook, no subscription is left of a session that was reported.
  pub run_hook-released :
      (is : List SessionInfo) (v : SubscriptionService X)
      → All (λ e. told (same e.1.session_token) is ≡ 0) (run_hook is v).subscriptions
  unfolding run_hook release_session
  run_hook-released [] v = none_told v.subscriptions
    where
      none_told : (d : Dict (UaSubscription X)) → All (λ e. told (same e.1.session_token) [] ≡ 0) d
      none_told [] = tt
      none_told (e ∷ d) = (refl, none_told d)
  run_hook-released (i ∷ is) v =
      let w : SubscriptionService X = release_session v (info_key i) in
      All-both (λ e. same e.1.session_token (info_key i) ≡ false)
        (λ e. told (same e.1.session_token) is ≡ 0)
        (λ e. told (same e.1.session_token) (i ∷ is) ≡ 0) (λ e p q. rw p (omega (arith, q)))
        (run_hook is w).subscriptions
        (All-run_hook (λ e. same e.1.session_token (info_key i) ≡ false) is w
          (remaining-fails (λ s. same s.session_token (info_key i)) v.subscriptions))
        (run_hook-released is w)

  hook-Owned :
      (r s : SessionRegistry) (ended : List SessionInfo) (v : SubscriptionService X)
      → Conserves r (ended, s)
      → Owned r v
      → Owned s (run_hook ended v)
  unfolding Owned
  hook-Owned r s ended v conserved owned =
      All-both (λ e. 1 ≤ held (same e.1.session_token) r.sessions)
        (λ e. told (same e.1.session_token) ended ≡ 0)
        (λ e. 1 ≤ held (same e.1.session_token) s.sessions)
        (λ e p q. omega (arith, p, q, conserved (same e.1.session_token)))
        (run_hook ended v).subscriptions
        (All-run_hook (λ e. 1 ≤ held (same e.1.session_token) r.sessions) ended v owned)
        (run_hook-released ended v)

  -- No call of the registry of sessions, other than Create, leaves a subscription behind: where every
  -- subscription belongs to a session that is held, and the hook is run for the sessions that the
  -- call ends, every subscription that is left belongs to a session that is still held.
  pub call-Owned :
      (r : SessionRegistry) (v : SubscriptionService X) (c : Call)
      → Owned r v
      → Owned (call r c).1 (run_hook (call r c).0 v)
  call-Owned r v c owned = hook-Owned r (call r c).1 (call r c).0 v (call-Conserves r c) owned
