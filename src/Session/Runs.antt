-- ===== src/Session/Runs.antt =====
-- The runs of a SessionRegistry of internal/opcua/session.go: calls of its methods in any order, at
-- any times and from any channel. A call holds the lock, so a run is a sequence of calls.
use opcda_access_adapter.Prelude.{
  ℕ, ◌+◌, ◌≡◌, sym, ap, ◌∙◌, Bool, true, false, inl, inr, none, List, [], ◌∷◌, ◌++◌, leb, length,
  arith, Bool-cases,
}
use opcda_access_adapter.Errors.{Result, ok, err, ◌>>=◌, ◌>>◌, >>=-eq-ok}
use opcda_access_adapter.NodeId.{NodeId}
use opcda_access_adapter.Session.Limits.{
  SessionLimits, validate_limits, SessionSecurity, check_client_nonce,
}
use opcda_access_adapter.Session.State.{SessionInfo, expired}
use opcda_access_adapter.Session.Table.{find, put, held, one_if, held-put_new}
use opcda_access_adapter.Session.Registry.{
  SessionRegistry, CreateSession, ActivateSession, new_session_registry, created, create_drawn,
  create, lookup, activate, close, expire_stale, terminate_all, begin_request, end_request,
}
use opcda_access_adapter.Session.Conserved.{
  told, Conserves, behind, told-append, lookup-Conserves, activate-Conserves, close-Conserves,
  end_each-Conserves, begin_request-Conserves, end_request-Conserves,
}

-- One call of a method but Create, with its arguments.
pub data Call : Type 0 where
  lookup_call : NodeId → ℕ → ℕ → Call
  activate_call : NodeId → ℕ → SessionSecurity → ActivateSession → Result (List ℕ) → Call
  close_call : NodeId → ℕ → ℕ → Call
  expire_call : ℕ → Call
  terminate_call : Call
  begin_call : NodeId → Call
  end_call : NodeId → ℕ → Call

-- What the hook is told, and the registry behind the call.
abbrev pub call : SessionRegistry → Call → List SessionInfo × SessionRegistry
call r (lookup_call token channel now) = behind (lookup r token channel now)
call r (activate_call token channel security q nonce) =
    behind (activate r token channel security q nonce)
call r (close_call token channel now) = behind (close r token channel now)
call r (expire_call now) = expire_stale r now
call r terminate_call = terminate_all r
call r (begin_call token) = ([], (begin_request r token).1)
call r (end_call token now) = ([], end_request r token now)

-- `Run l made ended r`: from an empty registry with the limits `l`, the sessions under the tokens
-- `made` were issued and the sessions `ended` were reported, up to the registry `r`. A token that is
-- drawn is not the token of a session that the registry holds.
pub data Run (l : SessionLimits) : List (List ℕ) → List SessionInfo → SessionRegistry → Type 0 where
  opened : (r : SessionRegistry) → new_session_registry l ≡ ok r → Run l [] [] r
  issued :
      (made : List (List ℕ)) (ended : List SessionInfo) (r s : SessionRegistry) (channel : ℕ)
      (security : SessionSecurity) (q : CreateSession) (token : List ℕ) (nonce : Result (List ℕ))
      (answer : SessionInfo × List ℕ)
      → Run l made ended r
      → find token r.sessions ≡ none
      → create r channel security q (ok token) nonce ≡ (ok answer, s)
      → Run l (token ∷ made) ended s
  refused :
      (made : List (List ℕ)) (ended : List SessionInfo) (r s : SessionRegistry) (channel : ℕ)
      (security : SessionSecurity) (q : CreateSession) (token nonce : Result (List ℕ))
      (e : opcda_access_adapter.Errors.Error)
      → Run l made ended r
      → create r channel security q token nonce ≡ (err e, s)
      → Run l made ended s
  called :
      (made : List (List ℕ)) (ended : List SessionInfo) (r : SessionRegistry) (c : Call)
      → Run l made ended r
      → Run l made (ended ++ (call r c).0) (call r c).1

-- How many of the tokens pass a test.
abbrev pub tokens : (List ℕ → Bool) → List (List ℕ) → ℕ
tokens f [] = 0
tokens f (t ∷ ts) = one_if (f t) + tokens f ts

pub call-Conserves : (r : SessionRegistry) (c : Call) → Conserves r (call r c)
unfolding expire_stale terminate_all
call-Conserves r (lookup_call token channel now) = lookup-Conserves r token channel now
call-Conserves r (activate_call token channel security q nonce) =
    activate-Conserves r token channel security q nonce
call-Conserves r (close_call token channel now) = close-Conserves r token channel now
call-Conserves r (expire_call now) = end_each-Conserves (λ s. expired s now) r.sessions r
call-Conserves r terminate_call = end_each-Conserves (λ s. true) r.sessions r
call-Conserves r (begin_call token) = begin_request-Conserves r token
call-Conserves r (end_call token now) = end_request-Conserves r token now

pub new-sessions :
    (l : SessionLimits) (r : SessionRegistry) → new_session_registry l ≡ ok r → r.sessions ≡ []
new-sessions l r h = go (validate_limits l) h
  where
    go :
        (x : Result (Unit {0}))
        → (x >> ok (record { limits = l; sessions = []; next_id = 0 })) ≡ ok r
        → r.sessions ≡ []
    go (err e) h = cc h
    go (ok u) h = cc h

-- A create that is refused leaves the registry as it was.
pub create-refused :
    (r s : SessionRegistry) (channel : ℕ) (security : SessionSecurity) (q : CreateSession)
    (token nonce : Result (List ℕ)) (e : opcda_access_adapter.Errors.Error)
    → create r channel security q token nonce ≡ (err e, s)
    → s ≡ r
unfolding create
create-refused r s channel security q token nonce e h = go _ h
  where
    go : (x : Result (List ℕ × List ℕ)) → create_drawn r channel security q x ≡ (err e, s) → s ≡ r
    go (err reason) h = cc h
    go (ok (t, n)) h = elim (Bool-cases (leb r.limits.max_sessions (length r.sessions))) [
      | inl full ↦ cc (rw full at h)
      | inr room ↦ cc (rw room at h)
    ]

-- A create that succeeds found room, and puts the new session into the registry.
pub create-eq-ok :
    (r s : SessionRegistry) (channel : ℕ) (security : SessionSecurity) (q : CreateSession)
    (token : List ℕ) (nonce : Result (List ℕ)) (answer : SessionInfo × List ℕ)
    → create r channel security q (ok token) nonce ≡ (ok answer, s)
    → (leb r.limits.max_sessions (length r.sessions) ≡ false)
      × (s.sessions ≡ put (created r channel security q token) r.sessions)
      × (s.limits ≡ r.limits)
unfolding create
create-eq-ok r s channel security q token nonce answer h =
    checked (check_client_nonce q.client_nonce security) nonce h
  where
    drawn :
        (n : List ℕ)
        → create_drawn r channel security q (ok (token, n)) ≡ (ok answer, s)
        → (leb r.limits.max_sessions (length r.sessions) ≡ false)
          × (s.sessions ≡ put (created r channel security q token) r.sessions)
          × (s.limits ≡ r.limits)
    drawn n e = elim (Bool-cases (leb r.limits.max_sessions (length r.sessions))) [
      | inl full ↦ cc (rw full at e)
      | inr room ↦ (
        room,
        ap (λ x. x.1.sessions) (sym (rw room at e)),
        ap (λ x. x.1.limits) (sym (rw room at e)),
      )
    ]

    checked :
        (x : Result (Unit {0})) (n : Result (List ℕ))
        → create_drawn r channel security q (x >> (n >>= (λ m. ok (token, m)))) ≡ (ok answer, s)
        → (leb r.limits.max_sessions (length r.sessions) ≡ false)
          × (s.sessions ≡ put (created r channel security q token) r.sessions)
          × (s.limits ≡ r.limits)
    checked (err reason) n e = cc e
    checked (ok u) (err reason) e = cc e
    checked (ok u) (ok m) e = drawn m e

-- Over any run in which a new session never gets the token of a held one, the sessions that were
-- issued under tokens that pass a test are those that were reported as ended and those that are
-- still held, each counted once. So a session that leaves the registry by any route is reported once,
-- and one that is held was not reported.
pub issued_ended_held :
    (l : SessionLimits) (f : List ℕ → Bool) (made : List (List ℕ)) (ended : List SessionInfo)
    (r : SessionRegistry)
    → Run l made ended r
    → tokens f made ≡ told f ended + held f r.sessions
issued_ended_held l f _ _ _ (opened r h) =
    let empty : held f r.sessions ≡ 0 = ap (λ ss. held f ss) (new-sessions l r h) in omega arith
issued_ended_held l f _ _ _
      (issued made ended s t channel security q token nonce answer run new h) =
    let before : tokens f made ≡ told f ended + held f s.sessions =
      issued_ended_held l f made ended s run in
    let (room, put_in, limits) = create-eq-ok s t channel security q token nonce answer h in
    let after : held f t.sessions ≡ one_if (f token) + held f s.sessions =
      ap (λ ss. held f ss) put_in
      ∙ held-put_new f (created s channel security q token) s.sessions new in
    omega (arith, before, after)
issued_ended_held l f _ _ _ (refused made ended s r channel security q token nonce e run h) =
    let same_registry : r ≡ s = create-refused s r channel security q token nonce e h in
    issued_ended_held l f made ended s run
    ∙ ap (λ x. told f ended + held f x.sessions) (sym same_registry)
issued_ended_held l f _ _ _ (called made before s c run) =
    let first : tokens f made ≡ told f before + held f s.sessions =
      issued_ended_held l f made before s run in
    omega (arith, first, call-Conserves s c f, told-append f before (call s c).0)
