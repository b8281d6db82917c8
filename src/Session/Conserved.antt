-- ===== src/Session/Conserved.antt =====
-- Which sessions of internal/opcua/session.go are reported to the end hook: over a run of the
-- registry's methods, each session that leaves the map, once.
use opcda_access_adapter.Prelude.{
  ℕ, ◌+◌, ◌-◌, ◌==◌, ◌≡◌, refl, ap, ◌∙◌, Bool, true, inl, inr, Option, none, some, List, [], ◌∷◌,
  ◌++◌, arith, Bool-cases, not,
}
use opcda_access_adapter.Errors.{Result, ok, err}
use opcda_access_adapter.NodeId.{NodeId}
use opcda_access_adapter.Session.Limits.{SessionSecurity}
use opcda_access_adapter.Session.State.{
  Session, SessionInfo, key, info_key, expired, bind_to_channel,
}
use opcda_access_adapter.Session.Table.{
  find, put, remove, held, find-key, held-put_old, held-remove, one_if,
}
use opcda_access_adapter.Session.Registry.{
  SessionRegistry, Step, ActivateSession, terminate_found, terminate, is_opaque, resolve_found,
  resolve, check_channel, lookup_session, store, touch_found, lookup, put_activated, activate_found,
  activate_drawn, activate, close_found, close, end_each, begin_found, begin_request, finish_found,
  end_request,
}

-- How many sessions are reported whose keys pass a test.
abbrev pub told : (List ℕ → Bool) → List SessionInfo → ℕ
told f [] = 0
told f (i ∷ is) = one_if (f (info_key i)) + told f is

pub told-append :
    (f : List ℕ → Bool) (is js : List SessionInfo) → told f (is ++ js) ≡ told f is + told f js
told-append f [] js = omega arith
told-append f (i ∷ is) js = omega (arith, told-append f is js)

-- From one registry to another, nothing is lost: what is reported and what is still held are what
-- was held.
abbrev pub Conserves : SessionRegistry → List SessionInfo × SessionRegistry → Type 0
Conserves r (ended, s) = (f : List ℕ → Bool) → told f ended + held f s.sessions ≡ held f r.sessions

pub idle-Conserves : (r : SessionRegistry) → Conserves r ([], r)
idle-Conserves r f = omega arith

terminate_found-Conserves :
    (r : SessionRegistry) (s : Session) (x : Option Session)
    → find (key s) r.sessions ≡ x
    → Conserves r (terminate_found r s x)
terminate_found-Conserves r s none h f = omega arith
terminate_found-Conserves r s (some live) h f =
    let named : key live ≡ key s = find-key (key s) r.sessions live h in
    let counted : held f r.sessions ≡ one_if (f (key live)) + held f (remove (key s) r.sessions) =
      held-remove f (key s) live r.sessions h in
    let alike : one_if (f (key live)) ≡ one_if (f (key s)) = ap (λ b. one_if (f b)) named in
    omega arith

pub terminate-Conserves : (r : SessionRegistry) (s : Session) → Conserves r (terminate r s)
terminate-Conserves r s = terminate_found-Conserves r s (find (key s) r.sessions) refl

store-Conserves :
    (r : SessionRegistry) (t s : Session)
    → find (key t) r.sessions ≡ some s
    → Conserves r ([], store r t)
store-Conserves r t s h f = omega (arith, held-put_old f t s r.sessions h)

-- The parts of a step that the counts are about, and what a found session is known by.
abbrev Kept {ℓ} : {A : Type ℓ} → (A → SessionRegistry → Type 0) → SessionRegistry → Step A → Type 0
Kept P r (err e, ended, s) = Conserves r (ended, s)
Kept P r (ok a, ended, s) = Conserves r (ended, s) × P a s × (ended ≡ [])

-- A session that is the one that the registry holds under its key.
abbrev IsFound : Session → SessionRegistry → Type 0
IsFound s r = find (key s) r.sessions ≡ some s

resolve-Kept :
    (r : SessionRegistry) (token : NodeId) (now : ℕ) → Kept IsFound r (resolve r token now)
unfolding resolve
resolve-Kept r token now = elim (Bool-cases (not (is_opaque token.type))) [
  | inl e ↦ rw e (idle-Conserves r)
  | inr e ↦ rw e (go (find token.opaque_id r.sessions) refl)
]
  where
    go :
        (x : Option Session)
        → find token.opaque_id r.sessions ≡ x
        → Kept IsFound r (resolve_found r now x)
    go none h = idle-Conserves r
    go (some s) h = elim (Bool-cases (expired s now)) [
      | inl e ↦ rw e (terminate-Conserves r s)
      | inr e ↦ rw e (
        idle-Conserves r,
        ap (λ k. find k r.sessions) (find-key token.opaque_id r.sessions s h) ∙ h,
        refl,
      )
    ]

check_channel-Kept :
    (r : SessionRegistry) (channel : ℕ) (x : Step Session)
    → Kept IsFound r x
    → Kept IsFound r (check_channel channel x)
check_channel-Kept r channel (err e, ended, s) h = h
check_channel-Kept r channel (ok t, ended, s) h =
    elim (Bool-cases (not (t.bound_channel == channel))) [ inl e ↦ rw e h.0 | inr e ↦ rw e h ]

lookup_session-Kept :
    (r : SessionRegistry) (token : NodeId) (channel now : ℕ)
    → Kept IsFound r (lookup_session r token channel now)
unfolding lookup_session
lookup_session-Kept r token channel now =
    check_channel-Kept r channel (resolve r token now) (resolve-Kept r token now)

-- What is left of a step where its value is not looked at.
abbrev pub behind {ℓ} : {A : Type ℓ} → Step A → List SessionInfo × SessionRegistry
behind (outcome, ended, s) = (ended, s)

-- A step that found a session and then stores a change of it conserves the sessions.
stored-Conserves :
    (r s : SessionRegistry) (t u : Session) (ended : List SessionInfo)
    → Conserves r (ended, s)
    → IsFound t s
    → key u ≡ key t
    → Conserves r (ended, store s u)
stored-Conserves r s t u ended h found named f =
    let put_back : told f [] + held f (put u s.sessions) ≡ held f s.sessions =
      store-Conserves s u t (ap (λ j. find j s.sessions) named ∙ found) f in
    omega (arith, h f, put_back)

pub lookup-Conserves :
    (r : SessionRegistry) (token : NodeId) (channel now : ℕ)
    → Conserves r (behind (lookup r token channel now))
unfolding lookup
lookup-Conserves r token channel now =
    go (lookup_session r token channel now) (lookup_session-Kept r token channel now)
  where
    go : (x : Step Session) → Kept IsFound r x → Conserves r (behind (touch_found now x))
    go (err e, ended, s) h = h
    go (ok t, ended, s) h =
        stored-Conserves r s t (record t { last_activity = now }) ended h.0 h.1 refl

bind_to_channel-key :
    (s t : Session) (channel : ℕ) (security : SessionSecurity)
    → bind_to_channel s channel security ≡ ok t
    → key t ≡ key s
unfolding bind_to_channel
bind_to_channel-key s t channel security h = ground arith

pub activate-Conserves :
    (r : SessionRegistry) (token : NodeId) (channel : ℕ) (security : SessionSecurity)
    (q : ActivateSession) (nonce : Result (List ℕ))
    → Conserves r (behind (activate r token channel security q nonce))
unfolding activate
activate-Conserves r token channel security q nonce = drawn _
  where
    bound :
        (s : SessionRegistry) (t : Session) (ended : List SessionInfo) (n : List ℕ)
        (x : Result Session)
        → Conserves r (ended, s)
        → IsFound t s
        → bind_to_channel t channel security ≡ x
        → Conserves r (behind (put_activated q.now n ended s x))
    bound s t ended n (err e) h found b = h
    bound s t ended n (ok u) h found b =
        stored-Conserves r s t (record u { activated = true; last_activity = q.now }) ended h found
          (bind_to_channel-key t u channel security b)

    go :
        (n : List ℕ) (x : Step Session)
        → Kept IsFound r x
        → Conserves r (behind (activate_found channel security q.now n x))
    go n (err e, ended, s) h = h
    go n (ok t, ended, s) h = bound s t ended n (bind_to_channel t channel security) h.0 h.1 refl

    drawn :
        (x : Result (List ℕ)) → Conserves r (behind (activate_drawn r token channel security q x))
    drawn (err e) = idle-Conserves r
    drawn (ok n) = go n (resolve r token q.now) (resolve-Kept r token q.now)

joined-Conserves :
    (r s : SessionRegistry) (ended : List SessionInfo) (later : List SessionInfo × SessionRegistry)
    → Conserves r (ended, s)
    → Conserves s later
    → Conserves r (ended ++ later.0, later.1)
joined-Conserves r s ended later h l f = omega (arith, h f, l f, told-append f ended later.0)

pub close-Conserves :
    (r : SessionRegistry) (token : NodeId) (channel now : ℕ)
    → Conserves r (behind (close r token channel now))
unfolding close
close-Conserves r token channel now =
    go (lookup_session r token channel now) (lookup_session-Kept r token channel now)
  where
    go : (x : Step Session) → Kept IsFound r x → Conserves r (behind (close_found x))
    go (err e, ended, s) h = h
    go (ok t, ended, s) h = joined-Conserves r s ended (terminate s t) h.0 (terminate-Conserves s t)

pub end_each-Conserves :
    (test : Session → Bool) (ss : List Session) (r : SessionRegistry)
    → Conserves r (end_each test ss r)
end_each-Conserves test [] r = idle-Conserves r
end_each-Conserves test (s ∷ ss) r = elim (Bool-cases (test s)) [
  | inl e ↦ rw e (
      joined-Conserves r (terminate r s).1 (terminate r s).0 (end_each test ss (terminate r s).1)
        (terminate-Conserves r s) (end_each-Conserves test ss (terminate r s).1))
  | inr e ↦ rw e (
      joined-Conserves r r [] (end_each test ss r) (idle-Conserves r)
        (end_each-Conserves test ss r))
]

pub begin_request-Conserves :
    (r : SessionRegistry) (token : NodeId) → Conserves r ([], (begin_request r token).1)
unfolding begin_request
begin_request-Conserves r token = go (find token.opaque_id r.sessions) refl
  where
    go :
        (x : Option Session)
        → find token.opaque_id r.sessions ≡ x
        → Conserves r ([], (begin_found r x).1)
    go none h = idle-Conserves r
    go (some s) h =
        store-Conserves r (record s { in_flight = s.in_flight + 1 }) s
          (ap (λ k. find k r.sessions) (find-key token.opaque_id r.sessions s h) ∙ h)

pub end_request-Conserves :
    (r : SessionRegistry) (token : NodeId) (now : ℕ) → Conserves r ([], end_request r token now)
unfolding end_request
end_request-Conserves r token now = go (find token.opaque_id r.sessions) refl
  where
    go :
        (x : Option Session)
        → find token.opaque_id r.sessions ≡ x
        → Conserves r ([], finish_found r now x)
    go none h = idle-Conserves r
    go (some s) h =
        store-Conserves r (record s { in_flight = s.in_flight - 1; last_activity = now }) s
          (ap (λ k. find k r.sessions) (find-key token.opaque_id r.sessions s h) ∙ h)
