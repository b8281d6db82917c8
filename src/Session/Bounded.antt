-- ===== src/Session/Bounded.antt =====
-- The limits of a SessionRegistry of internal/opcua/session.go.
use opcda_access_adapter.Prelude.{
  ℕ, ◌≡◌, refl, ◌∙◌, Bool, not, Option, none, some, List, [], ◌∷◌, arith, Bool-cases, inl, inr,
}
use opcda_access_adapter.Errors.{Result, ok, err}
use opcda_access_adapter.NodeId.{NodeId}
use opcda_access_adapter.Session.Limits.{SessionSecurity}
use opcda_access_adapter.Session.State.{Session, SessionInfo, key, expired, bind_to_channel}
use opcda_access_adapter.Session.Table.{find}
use opcda_access_adapter.Session.Registry.{
  SessionRegistry, Step, ActivateSession, terminate_found, terminate, is_opaque, resolve_found,
  resolve, lookup_session, lookup, close_found, activate_found, put_activated, activate_drawn,
  activate, close, end_each, begin_request, end_request,
}
use opcda_access_adapter.Session.Conserved.{behind}

terminate_found-limits :
    (r : SessionRegistry) (s : Session) (x : Option Session)
    → (terminate_found r s x).1.limits ≡ r.limits
terminate_found-limits r s none = refl
terminate_found-limits r s (some t) = refl

terminate-limits : (r : SessionRegistry) (s : Session) → (terminate r s).1.limits ≡ r.limits
terminate-limits r s = terminate_found-limits r s (find (key s) r.sessions)

resolve-limits :
    (r : SessionRegistry) (token : NodeId) (now : ℕ) → (resolve r token now).2.limits ≡ r.limits
unfolding resolve
resolve-limits r token now = elim (Bool-cases (not (is_opaque token.type))) [
  | inl e ↦ rw e refl
  | inr e ↦ rw e (go (find token.opaque_id r.sessions))
]
  where
    go : (x : Option Session) → (resolve_found r now x).2.limits ≡ r.limits
    go none = refl
    go (some s) = elim (Bool-cases (expired s now)) [
      | inl e ↦ rw e (terminate-limits r s)
      | inr e ↦ rw e refl
    ]

lookup_session-limits :
    (r : SessionRegistry) (token : NodeId) (channel now : ℕ)
    → (lookup_session r token channel now).2.limits ≡ r.limits
unfolding lookup_session
lookup_session-limits r token channel now = ground (arith, resolve-limits r token now)

pub lookup-limits :
    (r : SessionRegistry) (token : NodeId) (channel now : ℕ)
    → (behind (lookup r token channel now)).1.limits ≡ r.limits
unfolding lookup
lookup-limits r token channel now = ground (arith, lookup_session-limits r token channel now)

pub activate-limits :
    (r : SessionRegistry) (token : NodeId) (channel : ℕ) (security : SessionSecurity)
    (q : ActivateSession) (nonce : Result (List ℕ))
    → (behind (activate r token channel security q nonce)).1.limits ≡ r.limits
unfolding activate
activate-limits r token channel security q nonce = drawn _
  where
    bound :
        (s : SessionRegistry) (ended : List SessionInfo) (n : List ℕ) (x : Result Session)
        → (behind (put_activated q.now n ended s x)).1.limits ≡ s.limits
    bound s ended n (err e) = refl
    bound s ended n (ok t) = refl

    go :
        (n : List ℕ) (x : Step Session)
        → (behind (activate_found channel security q.now n x)).1.limits ≡ x.2.limits
    go n (err e, ended, s) = refl
    go n (ok t, ended, s) = bound s ended n (bind_to_channel t channel security)

    drawn :
        (x : Result (List ℕ))
        → (behind (activate_drawn r token channel security q x)).1.limits ≡ r.limits
    drawn (err e) = refl
    drawn (ok n) = go n (resolve r token q.now) ∙ resolve-limits r token q.now

pub close-limits :
    (r : SessionRegistry) (token : NodeId) (channel now : ℕ)
    → (behind (close r token channel now)).1.limits ≡ r.limits
unfolding close
close-limits r token channel now =
    go (lookup_session r token channel now) ∙ lookup_session-limits r token channel now
  where
    go : (x : Step Session) → (behind (close_found x)).1.limits ≡ x.2.limits
    go (err e, ended, s) = refl
    go (ok t, ended, s) = terminate-limits s t

pub end_each-limits :
    (test : Session → Bool) (ss : List Session) (r : SessionRegistry)
    → (end_each test ss r).1.limits ≡ r.limits
end_each-limits test [] r = refl
end_each-limits test (s ∷ ss) r = elim (Bool-cases (test s)) [
  | inl e ↦ rw e (end_each-limits test ss (terminate r s).1 ∙ terminate-limits r s)
  | inr e ↦ rw e (end_each-limits test ss r)
]

pub begin_request-limits :
    (r : SessionRegistry) (token : NodeId) → (begin_request r token).1.limits ≡ r.limits
unfolding begin_request
begin_request-limits r token = ground arith

pub end_request-limits :
    (r : SessionRegistry) (token : NodeId) (now : ℕ) → (end_request r token now).limits ≡ r.limits
unfolding end_request
end_request-limits r token now = ground arith
