-- ===== src/Session/Soundness.antt =====
-- What holds of every SessionRegistry of internal/opcua/session.go, and that each method keeps it.
use opcda_access_adapter.Prelude.{
  ℕ, ◌+◌, ◌≤◌, ◌≡◌, refl, sym, ap, subst, ◌∙◌, Bool, true, false, inl, inr, none, List, [], leb,
  length, arith, Bool-cases,
}
use opcda_access_adapter.Prelude.Keys.{same, same→≡}
use opcda_access_adapter.Errors.{Result, ok, err, ◌>>◌}
use opcda_access_adapter.Session.Limits.{SessionLimits, validate_limits, SessionSecurity}
use opcda_access_adapter.Session.State.{Session, SessionInfo, expired}
use opcda_access_adapter.Session.Table.{find, held, one_if, find-none-held, held-put_new, held_all}
use opcda_access_adapter.Session.Registry.{
  SessionRegistry, CreateSession, new_session_registry, created, create, expire_stale,
  terminate_all,
}
use opcda_access_adapter.Session.Conserved.{Conserves}
use opcda_access_adapter.Session.Bounded.{
  lookup-limits, activate-limits, close-limits, end_each-limits, begin_request-limits,
  end_request-limits,
}
use opcda_access_adapter.Session.Runs.{
  Call, lookup_call, activate_call, close_call, expire_call, terminate_call, begin_call, end_call,
  call, Run, opened, issued, refused, called, new-sessions, call-Conserves, create-refused,
  create-eq-ok,
}

new-limits :
    (l : SessionLimits) (r : SessionRegistry) → new_session_registry l ≡ ok r → r.limits ≡ l
new-limits l r h = go (validate_limits l) h
  where
    go :
        (x : Result (Unit {0}))
        → (x >> ok (record { limits = l; sessions = []; next_id = 0 })) ≡ ok r
        → r.limits ≡ l
    go (err e) h = cc h
    go (ok u) h = cc h

call-limits : (r : SessionRegistry) (c : Call) → (call r c).1.limits ≡ r.limits
unfolding expire_stale terminate_all
call-limits r (lookup_call token channel now) = lookup-limits r token channel now
call-limits r (activate_call token channel security q nonce) =
    activate-limits r token channel security q nonce
call-limits r (close_call token channel now) = close-limits r token channel now
call-limits r (expire_call now) = end_each-limits (λ s. expired s now) r.sessions r
call-limits r terminate_call = end_each-limits (λ s. true) r.sessions r
call-limits r (begin_call token) = begin_request-limits r token
call-limits r (end_call token now) = end_request-limits r token now

-- The registry holds at most as many sessions as its limits allow, and no two under one token.
pub record IsSound (l : SessionLimits) (r : SessionRegistry) : Type 0 where
  pub same_limits : r.limits ≡ l
  pub bounded : length r.sessions ≤ l.max_sessions
  pub single : (k : List ℕ) → held (same k) r.sessions ≤ 1

-- A registry whose sessions are some of those of a sound one is sound.
fewer-IsSound :
    (l : SessionLimits) (r s : SessionRegistry) (ended : List SessionInfo)
    → s.limits ≡ r.limits
    → Conserves r (ended, s)
    → IsSound l r
    → IsSound l s
fewer-IsSound l r s ended limits h sound = record {
  same_limits = limits ∙ sound.same_limits;
  bounded = omega (arith, h (λ k. true), held_all r.sessions, held_all s.sessions, sound.bounded);
  single = λ k. omega (arith, h (same k), sound.single k);
}

issued-IsSound :
    (l : SessionLimits) (r s : SessionRegistry) (channel : ℕ) (security : SessionSecurity)
    (q : CreateSession) (token : List ℕ) (nonce : Result (List ℕ)) (answer : SessionInfo × List ℕ)
    → find token r.sessions ≡ none
    → create r channel security q (ok token) nonce ≡ (ok answer, s)
    → IsSound l r
    → IsSound l s
issued-IsSound l r s channel security q token nonce answer new h sound =
    let t : Session = created r channel security q token in
    let (room, put_in, limits) = create-eq-ok r s channel security q token nonce answer h in
    let counted : (f : List ℕ → Bool) → held f s.sessions ≡ one_if (f token) + held f r.sessions =
      λ f. ap (λ ss. held f ss) put_in ∙ held-put_new f t r.sessions new in
    let smaller : length r.sessions + 1 ≤ l.max_sessions =
      subst (λ x. length r.sessions + 1 ≤ x.max_sessions) sound.same_limits (fits_one room) in
    record {
      same_limits = limits ∙ sound.same_limits;
      bounded =
          omega (arith, counted (λ k. true), held_all r.sessions, held_all s.sessions, smaller);
      single = λ k. elim (Bool-cases (same k token)) [
        | inl e ↦
            let none_held : held (same k) r.sessions ≡ 0 =
              find-none-held k r.sessions (ap (λ j. find j r.sessions) (same→≡ k token e) ∙ new) in
            let one : one_if (same k token) ≡ 1 = rw e refl in
            omega (arith, counted (same k), none_held, one)
        | inr e ↦
            let zero_more : one_if (same k token) ≡ 0 = rw e refl in
            omega (arith, counted (same k), zero_more, sound.single k)
      ];
    }
  where
    fits_one :
        leb r.limits.max_sessions (length r.sessions) ≡ false
        → length r.sessions + 1 ≤ r.limits.max_sessions
    fits_one room = ground arith

-- Whatever is called in whatever order, where a new session never gets the token of a held one, the
-- registry holds at most as many sessions as the limits it was made with allow, and at most one
-- under any token.
pub Run-IsSound :
    (l : SessionLimits) (made : List (List ℕ)) (ended : List SessionInfo) (r : SessionRegistry)
    → Run l made ended r
    → IsSound l r
Run-IsSound l _ _ _ (opened r h) =
    let empty : r.sessions ≡ [] = new-sessions l r h in
    record {
      same_limits = new-limits l r h;
      bounded = subst (λ ss. length ss ≤ l.max_sessions) (sym empty) (omega arith);
      single = λ k. subst (λ ss. held (same k) ss ≤ 1) (sym empty) (omega arith);
    }
Run-IsSound l _ _ _ (issued made ended s t channel security q token nonce answer run new h) =
    issued-IsSound l s t channel security q token nonce answer new h
      (Run-IsSound l made ended s run)
Run-IsSound l _ _ _ (refused made ended s r channel security q token nonce e run h) =
    subst (IsSound l) (sym (create-refused s r channel security q token nonce e h))
      (Run-IsSound l made ended s run)
Run-IsSound l _ _ _ (called made before s c run) =
    fewer-IsSound l s (call s c).1 (call s c).0 (call-limits s c) (call-Conserves s c)
      (Run-IsSound l made before s run)
