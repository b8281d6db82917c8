-- ===== src/Session/Access.antt =====
-- Who may use a session of internal/opcua/session.go: the rules of Lookup.
use opcda_access_adapter.Prelude.{
  ℕ, ◌≡◌, refl, sym, ap, ◌∙◌, inl, inr, true, false, Option, none, some, List, [], ◌==◌, arith,
  Bool-cases,
}
use opcda_access_adapter.Errors.{ok, err}
use opcda_access_adapter.NodeId.{NodeId}
use opcda_access_adapter.Session.State.{Session, SessionInfo, key, snapshot, expired}
use opcda_access_adapter.Session.Table.{find, put, find-key, find-put_self}
use opcda_access_adapter.Session.Registry.{
  SessionRegistry, Step, is_opaque, resolve_found, resolve, check_channel, lookup_session,
  touch_found, lookup,
}

-- A session that a token leads to at a time.
pub record IsLive (r : SessionRegistry) (token : NodeId) (now : ℕ) (s : Session) : Type 0 where
  pub token_kind : is_opaque token.type ≡ true
  pub there : find token.opaque_id r.sessions ≡ some s
  pub in_time : expired s now ≡ false

pub resolve-eq-ok :
    (r t : SessionRegistry) (token : NodeId) (now : ℕ) (s : Session) (ended : List SessionInfo)
    → resolve r token now ≡ (ok s, ended, t)
    → IsLive r token now s × (t ≡ r) × (ended ≡ [])
unfolding resolve
resolve-eq-ok r t token now s ended h = elim (Bool-cases (is_opaque token.type)) [
  | inl e ↦ go e (find token.opaque_id r.sessions) refl (rw e at h)
  | inr e ↦ cc (rw e at h)
]
  where
    go :
        is_opaque token.type ≡ true
        → (x : Option Session) → find token.opaque_id r.sessions ≡ x
        → resolve_found r now x ≡ (ok s, ended, t)
        → IsLive r token now s × (t ≡ r) × (ended ≡ [])
    go kind none f e = cc e
    go kind (some u) f e = elim (Bool-cases (expired u now)) [
      | inl late ↦ cc (rw late at e)
      | inr early ↦
          let parts : (ok u, [], r) ≡ (ok s, ended, t) = rw early at e in
          let same_session : u ≡ s = cc parts in
          (
            record {
              token_kind = kind;
              there = f ∙ ap some same_session;
              in_time = ap (λ x. expired x now) (sym same_session) ∙ early;
            },
            sym (ap (λ x. x.2) parts),
            sym (ap (λ x. x.1) parts),
          )
    ]

resolve-IsLive :
    (r : SessionRegistry) (token : NodeId) (now : ℕ) (s : Session)
    → IsLive r token now s
    → resolve r token now ≡ (ok s, [], r)
unfolding resolve
resolve-IsLive r token now s live = rw (live.token_kind, live.there, live.in_time) refl

equal_numbers : (a b : ℕ) → (a == b) ≡ true → a ≡ b
equal_numbers a b h = ground arith

-- A lookup that succeeds was made on the channel that the session is bound to, with the token of a
-- session that the registry holds and whose timeout has not passed. It ends no session, and answers
-- that session as it is held.
pub lookup_authorised :
    (r t : SessionRegistry) (token : NodeId) (channel now : ℕ) (i : SessionInfo)
    (ended : List SessionInfo)
    → lookup r token channel now ≡ (ok i, ended, t)
    → (s : Session) × IsLive r token now s
      × (s.bound_channel ≡ channel)
      × (i ≡ snapshot s)
      × (ended ≡ [])
      × (find token.opaque_id t.sessions ≡ some (record s { last_activity = now }))
unfolding lookup lookup_session
lookup_authorised r t token channel now i ended h = go (resolve r token now) refl h
  where
    go :
        (x : Step Session)
        → resolve r token now ≡ x
        → touch_found now (check_channel channel x) ≡ (ok i, ended, t)
        → (s : Session) × IsLive r token now s
          × (s.bound_channel ≡ channel)
          × (i ≡ snapshot s)
          × (ended ≡ [])
          × (find token.opaque_id t.sessions ≡ some (record s { last_activity = now }))
    go (err reason, is, u) f e = cc e
    go (ok s, is, u) f e =
        let (live, same_registry, none_ended) = resolve-eq-ok r u token now s is f in
        let named : key s ≡ token.opaque_id = find-key token.opaque_id r.sessions s live.there in
        elim (Bool-cases (s.bound_channel == channel)) [
          | inr other ↦ cc (rw other at e)
          | inl bound ↦
              let touched : Session = record s { last_activity = now } in
              let parts : (ok (snapshot s), is, record u { sessions = put touched u.sessions })
                  ≡ (ok i, ended, t) =
                rw bound at e in
              (
                s,
                live,
                equal_numbers s.bound_channel channel bound,
                cc parts,
                sym (ap (λ x. x.1) parts) ∙ none_ended,
                ap (λ x. find token.opaque_id x.2.sessions) (sym parts)
                    ∙ ap (λ j. find j (put touched u.sessions)) (sym named)
                    ∙ find-put_self touched u.sessions,
              )
        ]
