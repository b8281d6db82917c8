-- ===== src/Session/Registry.antt =====
-- internal/opcua/session.go: the SessionRegistry. A method answers its result, the sessions that it
-- ended, in the order in which the end hook is told of them once the lock is released, and the
-- registry as it is afterwards. The lock makes every call one step; the bytes that the random
-- source gives, or its failure, are arguments.
use opcda_access_adapter.Prelude.{
  ℕ, ◌+◌, ◌-◌, ◌%◌, ◌^◌, Bool, true, false, not, Option, none, some, List, [], ◌∷◌, ◌++◌, leb, ◌==◌,
  length, if◌then◌else◌,
}
use opcda_access_adapter.Prelude.Int.{ℤ}
use opcda_access_adapter.Errors.{
  Error, Result, ok, err, codec, ◌>>=◌, ◌>>◌, status_bad_session_id_invalid,
  status_bad_session_closed, status_bad_secure_channel_id_invalid, status_bad_too_many_sessions,
}
use opcda_access_adapter.NodeId.{NodeIdType, opaque, NodeId, numeric_node_id, opaque_node_id}
use opcda_access_adapter.Structures.{ExtensionObject}
use opcda_access_adapter.Session.Limits.{
  SessionLimits, validate_limits, revise_timeout, SessionSecurity, check_client_nonce,
}
use opcda_access_adapter.Session.State.{
  Session, SessionInfo, key, snapshot, expired, bind_to_channel,
}
use opcda_access_adapter.Session.Table.{find, put, remove}
use opcda_access_adapter.Session.Identity.{require_anonymous_identity}

pub record SessionRegistry : Type 0 where
  pub limits : SessionLimits
  pub sessions : List Session
  pub next_id : ℕ

-- A result, the ended sessions, and the registry.
abbrev pub Step {ℓ} : Type ℓ → Type ℓ
Step A = Result A × List SessionInfo × SessionRegistry

abbrev pub new_session_registry : SessionLimits → Result SessionRegistry
new_session_registry l = validate_limits l >> ok (record { limits = l; sessions = []; next_id = 0 })

abbrev pub count : SessionRegistry → ℕ
count r = length r.sessions

-- The arguments of Create that come from the request, with the time.
pub record CreateSession : Type 0 where
  pub client_nonce : List ℕ
  pub session_name : List ℕ
  pub requested_session_timeout : ℤ
  pub now : ℕ

abbrev pub created : SessionRegistry → ℕ → SessionSecurity → CreateSession → List ℕ → Session
created r channel security q token = record {
  id = numeric_node_id 1 ((r.next_id + 1) % 2 ^ 32);
  authentication_token = opaque_node_id 1 token;
  created_on_channel = channel;
  bound_channel = channel;
  security = security;
  name = q.session_name;
  timeout = revise_timeout r.limits q.requested_session_timeout;
  last_activity = q.now;
  activated = false;
  in_flight = 0;
}

-- What Create does once it has its two random values, with the lock held.
abbrev pub create_drawn :
    SessionRegistry
    → ℕ
    → SessionSecurity
    → CreateSession
    → Result (List ℕ × List ℕ)
    → Result (SessionInfo × List ℕ) × SessionRegistry
create_drawn r channel security q (err e) = (err e, r)
create_drawn r channel security q (ok (token, nonce)) =
    if leb r.limits.max_sessions (length r.sessions)
    then (err (codec status_bad_too_many_sessions), r)
    else (
      ok (snapshot (created r channel security q token), nonce),
      record r {
        sessions = put (created r channel security q token) r.sessions;
        next_id = (r.next_id + 1) % 2 ^ 32;
      },
    )

unfoldable pub create :
    SessionRegistry
    → ℕ
    → SessionSecurity
    → CreateSession
    → Result (List ℕ)
    → Result (List ℕ)
    → Result (SessionInfo × List ℕ) × SessionRegistry
unfolding check_client_nonce
create r channel security q token nonce =
    create_drawn r channel security q
      (check_client_nonce q.client_nonce security >> (token >>= (λ t. nonce >>= (λ n. ok (t, n)))))

-- terminateLocked behind its look into the map.
abbrev pub terminate_found :
    SessionRegistry → Session → Option Session → List SessionInfo × SessionRegistry
terminate_found r s none = ([], r)
terminate_found r s (some live) =
    (snapshot s ∷ [], record r { sessions = remove (key s) r.sessions })

abbrev pub terminate : SessionRegistry → Session → List SessionInfo × SessionRegistry
terminate r s = terminate_found r s (find (key s) r.sessions)

abbrev pub unknown_session : Error
unknown_session = codec status_bad_session_id_invalid

abbrev pub is_opaque : NodeIdType → Bool
is_opaque opaque = true
is_opaque t = false

-- resolveLocked behind its look into the map.
abbrev pub resolve_found : SessionRegistry → ℕ → Option Session → Step Session
resolve_found r now none = (err unknown_session, [], r)
resolve_found r now (some s) =
    if expired s now
    then (err (codec status_bad_session_closed), (terminate r s).0, (terminate r s).1)
    else (ok s, [], r)

unfoldable pub resolve : SessionRegistry → NodeId → ℕ → Step Session
resolve r token now =
    if not (is_opaque token.type)
    then (err unknown_session, [], r)
    else resolve_found r now (find token.opaque_id r.sessions)

abbrev pub check_channel : ℕ → Step Session → Step Session
check_channel channel (err e, ended, r) = (err e, ended, r)
check_channel channel (ok s, ended, r) =
    if not (s.bound_channel == channel)
    then (err (codec status_bad_secure_channel_id_invalid), ended, r)
    else (ok s, ended, r)

-- lookupLocked
unfoldable pub lookup_session : SessionRegistry → NodeId → ℕ → ℕ → Step Session
unfolding resolve
lookup_session r token channel now = check_channel channel (resolve r token now)

-- A session in the place of the one it was made of.
abbrev pub store : SessionRegistry → Session → SessionRegistry
store r s = record r { sessions = put s r.sessions }

abbrev pub touch_found : ℕ → Step Session → Step SessionInfo
touch_found now (err e, ended, r) = (err e, ended, r)
touch_found now (ok s, ended, r) = (
  ok (snapshot (record s { last_activity = now })),
  ended,
  store r (record s { last_activity = now }),
)

unfoldable pub lookup : SessionRegistry → NodeId → ℕ → ℕ → Step SessionInfo
unfolding lookup_session
lookup r token channel now = touch_found now (lookup_session r token channel now)

abbrev pub put_activated :
    ℕ → List ℕ → List SessionInfo → SessionRegistry → Result Session → Step (List ℕ)
put_activated now nonce ended r (err e) = (err e, ended, r)
put_activated now nonce ended r (ok s) =
    (ok nonce, ended, store r (record s { activated = true; last_activity = now }))

abbrev pub activate_found : ℕ → SessionSecurity → ℕ → List ℕ → Step Session → Step (List ℕ)
activate_found channel security now nonce (err e, ended, r) = (err e, ended, r)
activate_found channel security now nonce (ok s, ended, r) =
    put_activated now nonce ended r (bind_to_channel s channel security)

-- The arguments of Activate that come from the request and the endpoint, with the time.
pub record ActivateSession : Type 0 where
  pub user_identity_token : ExtensionObject
  pub anonymous_policy_id : List ℕ
  pub now : ℕ

abbrev pub activate_drawn :
    SessionRegistry
    → NodeId
    → ℕ
    → SessionSecurity
    → ActivateSession
    → Result (List ℕ)
    → Step (List ℕ)
activate_drawn r token channel security q (err e) = (err e, [], r)
activate_drawn r token channel security q (ok nonce) =
    activate_found channel security q.now nonce (resolve r token q.now)

unfoldable pub activate :
    SessionRegistry
    → NodeId
    → ℕ
    → SessionSecurity
    → ActivateSession
    → Result (List ℕ)
    → Step (List ℕ)
unfolding require_anonymous_identity resolve bind_to_channel
activate r token channel security q nonce =
    activate_drawn r token channel security q
      (require_anonymous_identity q.user_identity_token q.anonymous_policy_id >> nonce)

abbrev pub close_found : Step Session → Step (Unit {0})
close_found (err e, ended, r) = (err e, ended, r)
close_found (ok s, ended, r) = (ok tt, ended ++ (terminate r s).0, (terminate r s).1)

unfoldable pub close : SessionRegistry → NodeId → ℕ → ℕ → Step (Unit {0})
unfolding lookup_session
close r token channel now = close_found (lookup_session r token channel now)

-- The loop over the map in ExpireStale and TerminateAll, which ends the sessions that pass a test.
abbrev pub end_each :
    (Session → Bool) → List Session → SessionRegistry → List SessionInfo × SessionRegistry
end_each test [] r = ([], r)
end_each test (s ∷ ss) r =
    let now_ended = if test s then terminate r s else ([], r) in
    let later = end_each test ss now_ended.1 in (now_ended.0 ++ later.0, later.1)

unfoldable pub expire_stale : SessionRegistry → ℕ → List SessionInfo × SessionRegistry
unfolding expired
expire_stale r now = end_each (λ s. expired s now) r.sessions r

unfoldable pub terminate_all : SessionRegistry → List SessionInfo × SessionRegistry
terminate_all r = end_each (λ s. true) r.sessions r

abbrev pub begin_found : SessionRegistry → Option Session → Bool × SessionRegistry
begin_found r none = (false, r)
begin_found r (some s) = (true, store r (record s { in_flight = s.in_flight + 1 }))

unfoldable pub begin_request : SessionRegistry → NodeId → Bool × SessionRegistry
begin_request r token = begin_found r (find token.opaque_id r.sessions)

abbrev pub finish_found : SessionRegistry → ℕ → Option Session → SessionRegistry
finish_found r now none = r
finish_found r now (some s) =
    store r (record s { in_flight = s.in_flight - 1; last_activity = now })

-- The function that BeginRequest answers, for the session that is held under the token; once the
-- session has ended it changes nothing that the registry holds.
unfoldable pub end_request : SessionRegistry → NodeId → ℕ → SessionRegistry
end_request r token now = finish_found r now (find token.opaque_id r.sessions)
