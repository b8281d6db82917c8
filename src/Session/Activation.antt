-- ===== src/Session/Activation.antt =====
-- Which channel may use a session of internal/opcua/session.go after Activate, and the nonces that
-- Create accepts.
use opcda_access_adapter.Prelude.{
  ℕ, ◌+◌, ◌*◌, ◌≤◌, ◌<◌, ◌≡◌, ◌≢◌, refl, sym, ap, subst, ◌∙◌, ◌⊎◌, ◌↔◌, inl, inr, true, false, some,
  List, ltb, ◌==◌, length, arith, Bool-cases, lt→ltb,
}
use opcda_access_adapter.Errors.{
  Result, ok, err, codec, ◌>>◌, status_bad_secure_channel_id_invalid, status_bad_session_closed,
  status_bad_nonce_invalid,
}
use opcda_access_adapter.NodeId.{NodeId}
use opcda_access_adapter.Channel.Token.{millisecond}
use opcda_access_adapter.Uasc.Sequence.{security_mode_none}
use opcda_access_adapter.Session.Limits.{
  SessionSecurity, check_client_nonce, min_nonce_bytes, max_nonce_bytes,
}
use opcda_access_adapter.Session.State.{
  Session, SessionInfo, key, snapshot, expired, bind_to_channel,
}
use opcda_access_adapter.Session.Table.{find, put, find-key, find-put_self}
use opcda_access_adapter.Session.Identity.{require_anonymous_identity}
use opcda_access_adapter.Session.Registry.{
  SessionRegistry, Step, ActivateSession, is_opaque, resolve, lookup_session, lookup, put_activated,
  activate_found, activate_drawn, activate,
}
use opcda_access_adapter.Session.Access.{resolve-eq-ok}

bind_to_channel-eq-ok :
    (s t : Session) (channel : ℕ) (security : SessionSecurity)
    → bind_to_channel s channel security ≡ ok t
    → (t.bound_channel ≡ channel) × (key t ≡ key s)
unfolding bind_to_channel
bind_to_channel-eq-ok s t channel security h = (ground arith, ground arith)

-- What a successful activation leaves under the token.
activate-eq-ok :
    (r t : SessionRegistry) (token : NodeId) (channel : ℕ) (security : SessionSecurity)
    (q : ActivateSession) (drawn : Result (List ℕ)) (nonce : List ℕ) (ended : List SessionInfo)
    → activate r token channel security q drawn ≡ (ok nonce, ended, t)
    → (s : Session) × (find token.opaque_id t.sessions ≡ some s)
      × (s.bound_channel ≡ channel)
      × (s.activated ≡ true)
      × (s.last_activity ≡ q.now)
      × (is_opaque token.type ≡ true)
unfolding activate
activate-eq-ok r t token channel security q drawn nonce ended h =
    from (require_anonymous_identity q.user_identity_token q.anonymous_policy_id >> drawn) h
  where
    Left : Type 0
    Left =
        (s : Session) × (find token.opaque_id t.sessions ≡ some s)
        × (s.bound_channel ≡ channel)
        × (s.activated ≡ true)
        × (s.last_activity ≡ q.now)
        × (is_opaque token.type ≡ true)

    stored :
        (u : SessionRegistry) (s : Session) (is : List SessionInfo) (n : List ℕ)
        (x : Result Session)
        → key s ≡ token.opaque_id
        → is_opaque token.type ≡ true
        → bind_to_channel s channel security ≡ x
        → put_activated q.now n is u x ≡ (ok nonce, ended, t)
        → Left
    stored u s is n (err reason) named kind b e = cc e
    stored u s is n (ok v) named kind b e =
        let (bound, alike) = bind_to_channel-eq-ok s v channel security b in
        let w : Session = record v { activated = true; last_activity = q.now } in
        (
          w,
          ap (λ x. find token.opaque_id x.2.sessions) (sym e)
              ∙ ap (λ j. find j (put w u.sessions)) (sym named ∙ sym alike)
              ∙ find-put_self w u.sessions,
          bound,
          refl,
          refl,
          kind,
        )

    go :
        (n : List ℕ) (x : Step Session)
        → resolve r token q.now ≡ x
        → activate_found channel security q.now n x ≡ (ok nonce, ended, t)
        → Left
    go n (err reason, is, u) f e = cc e
    go n (ok s, is, u) f e =
        let (live, same_registry, none_ended) = resolve-eq-ok r u token q.now s is f in
        stored u s is n (bind_to_channel s channel security)
          (find-key token.opaque_id r.sessions s live.there) live.token_kind refl e

    from :
        (x : Result (List ℕ))
        → activate_drawn r token channel security q x ≡ (ok nonce, ended, t)
        → Left
    from (err reason) e = cc e
    from (ok n) e = go n (resolve r token q.now) refl e

-- After an activation that succeeded on a channel, any lookup on another channel is refused, at
-- whatever time: the session has timed out, or the channel is not the session's. So an activation
-- that moved a session cuts off the channel it was moved from.
pub activate-lookup_other :
    (r t : SessionRegistry) (token : NodeId) (channel other later : ℕ) (security : SessionSecurity)
    (q : ActivateSession) (drawn : Result (List ℕ)) (nonce : List ℕ) (ended : List SessionInfo)
    → activate r token channel security q drawn ≡ (ok nonce, ended, t)
    → channel ≢ other
    → ((lookup t token other later).0 ≡ err (codec status_bad_session_closed))
      ⊎ ((lookup t token other later).0 ≡ err (codec status_bad_secure_channel_id_invalid))
unfolding lookup lookup_session resolve
activate-lookup_other r t token channel other later security q drawn nonce ended h differs =
    let (s, there, bound, active, at, kind) =
      activate-eq-ok r t token channel security q drawn nonce ended h in
    let refused : (s.bound_channel == other) ≡ false = ground arith in
    elim (Bool-cases (expired s later)) [
      | inl late ↦ inl (rw (kind, there, late) refl)
      | inr early ↦ inr (rw (kind, there, early, refused) refl)
    ]

-- After an activation that succeeded on a channel, a lookup on that channel answers the session that
-- is held under the token, up to its timeout, counted from the activation.
pub activate-lookup :
    (r t : SessionRegistry) (token : NodeId) (channel later : ℕ) (security : SessionSecurity)
    (q : ActivateSession) (drawn : Result (List ℕ)) (nonce : List ℕ) (ended : List SessionInfo)
    (s : Session)
    → activate r token channel security q drawn ≡ (ok nonce, ended, t)
    → find token.opaque_id t.sessions ≡ some s
    → later < q.now + s.timeout * millisecond
    → (lookup t token channel later).0 ≡ ok (snapshot s)
unfolding lookup lookup_session resolve expired
activate-lookup r t token channel later security q drawn nonce ended s h held early =
    let (u, there, bound, active, at, kind) =
      activate-eq-ok r t token channel security q drawn nonce ended h in
    let alike : u ≡ s = cc (there, held) in
    let accepted : (s.bound_channel == channel) ≡ true =
      subst (λ x. (x.bound_channel == channel) ≡ true) alike (ground arith) in
    let since : s.last_activity ≡ q.now = ap (λ x. x.last_activity) (sym alike) ∙ at in
    let in_time : ltb later (s.last_activity + s.timeout * millisecond) ≡ true =
      ap (λ n. ltb later (n + s.timeout * millisecond)) since ∙ lt→ltb _ _ early in
    elim (Bool-cases (ltb 0 s.in_flight)) [
      | inl busy ↦ rw (kind, held, busy, accepted) refl
      | inr idle ↦ rw (kind, held, idle, in_time, accepted) refl
    ]

-- A nonce is accepted exactly if it has 32 to 128 bytes, or is absent on an unsecured channel of an
-- endpoint that takes anonymous identities only; any other one is refused with Bad_NonceInvalid.
pub check_client_nonce_exactly :
    (nonce : List ℕ) (security : SessionSecurity)
    → ((check_client_nonce nonce security ≡ ok tt) ↔ (
        ((min_nonce_bytes ≤ length nonce) × (length nonce ≤ max_nonce_bytes))
        ⊎ ((length nonce ≡ 0)
            × (security.mode ≡ security_mode_none)
            × (security.anonymous_identity_only ≡ true))))
      × ((check_client_nonce nonce security ≡ ok tt)
          ⊎ (check_client_nonce nonce security ≡ err (codec status_bad_nonce_invalid)))
unfolding check_client_nonce
check_client_nonce_exactly nonce security = ((grind arith, grind arith), grind arith)
