-- ===== src/Examples/Sessions.antt =====
-- internal/opcua/session.go: the theorems at concrete sessions.
use opcda_access_adapter.Prelude.{
  ℕ, ◌+◌, ◌≡◌, refl, ◌⊎◌, true, false, none, some, List, [], ◌∷◌, ◌++◌, arith,
}
use opcda_access_adapter.Prelude.Int.{pos}
use opcda_access_adapter.Prelude.Keys.{same}
use opcda_access_adapter.Errors.{
  ok, err, codec, status_bad_session_closed, status_bad_secure_channel_id_invalid,
}
use opcda_access_adapter.NodeId.{NodeId, opaque_node_id, numeric_node_id, is_null}
use opcda_access_adapter.Structures.{null_extension_object}
use opcda_access_adapter.Session.Limits.{
  default_session_limits, validate_limits, SessionSecurity, check_client_nonce,
}
use opcda_access_adapter.Session.State.{Session, SessionInfo, snapshot, expired, bind_to_channel}
use opcda_access_adapter.Session.Table.{find, held}
use opcda_access_adapter.Session.Identity.{require_anonymous_identity}
use opcda_access_adapter.Session.Registry.{
  SessionRegistry, CreateSession, ActivateSession, created, create, resolve, lookup_session, lookup,
  activate, expire_stale, begin_request,
}
use opcda_access_adapter.Session.Conserved.{told}
use opcda_access_adapter.Session.Runs.{
  expire_call, call, Run, opened, issued, called, tokens, issued_ended_held,
}
use opcda_access_adapter.Session.Soundness.{IsSound, Run-IsSound}
use opcda_access_adapter.Session.Access.{IsLive, lookup_authorised}
use opcda_access_adapter.Session.Activation.{activate-lookup_other, activate-lookup}
use opcda_access_adapter.Session.Expiry.{expire_stale_exactly, begin_request-expire_stale}
use opcda_access_adapter.Subscription.State.{UaSubscription}
use opcda_access_adapter.Subscription.Service.{SubscriptionService}
use opcda_access_adapter.Listener.{run_hook, Owned, call-Owned}

abbrev token_bytes : List ℕ
token_bytes = 17 ∷ 34 ∷ 51 ∷ []

abbrev token : NodeId
token = opaque_node_id 1 token_bytes

abbrev nonce : List ℕ
nonce = 1 ∷ 2 ∷ []

abbrev unsecured : SessionSecurity
unsecured = record { mode = 1; policy_uri = []; anonymous_identity_only = true }

abbrev no_sessions : SessionRegistry
no_sessions = record { limits = default_session_limits; sessions = []; next_id = 0 }

abbrev request : CreateSession
request = record {
  client_nonce = [];
  session_name = [];
  requested_session_timeout = pos 60_000;
  now = 100;
}

abbrev issued_one : SessionRegistry
issued_one = (create no_sessions 7 unsecured request (ok token_bytes) (ok nonce)).1

abbrev a_day : ℕ
a_day = 86_400_000_000_000

opened_run : Run default_session_limits [] [] no_sessions
unfolding validate_limits
opened_run = opened no_sessions refl

created_one :
    create no_sessions 7 unsecured request (ok token_bytes) (ok nonce)
    ≡ (ok (snapshot (created no_sessions 7 unsecured request token_bytes), nonce), issued_one)
unfolding create check_client_nonce
created_one = refl

issued_run : Run default_session_limits (token_bytes ∷ []) [] issued_one
issued_run =
    issued [] [] no_sessions issued_one 7 unsecured request token_bytes (ok nonce)
      (snapshot (created no_sessions 7 unsecured request token_bytes), nonce) opened_run refl
      created_one

-- The session that was issued, a day later.
expired_run :
    Run default_session_limits
      (token_bytes ∷ [])
      ([] ++ (call issued_one (expire_call a_day)).0)
      (call issued_one (expire_call a_day)).1
expired_run = called (token_bytes ∷ []) [] issued_one (expire_call a_day) issued_run

issued_ended_held_example :
    tokens (same token_bytes) (token_bytes ∷ [])
    ≡ told (same token_bytes) ([] ++ (call issued_one (expire_call a_day)).0)
      + held (same token_bytes) (call issued_one (expire_call a_day)).1.sessions
issued_ended_held_example =
    issued_ended_held default_session_limits (same token_bytes) (token_bytes ∷ [])
      ([] ++ (call issued_one (expire_call a_day)).0) (call issued_one (expire_call a_day)).1
      expired_run

Run-IsSound_example : IsSound default_session_limits issued_one
Run-IsSound_example = Run-IsSound default_session_limits (token_bytes ∷ []) [] issued_one issued_run

-- A session of channel 7 that was activated at 100.
abbrev active : Session
active = record {
  id = numeric_node_id 1 1;
  authentication_token = token;
  created_on_channel = 7;
  bound_channel = 7;
  security = unsecured;
  name = [];
  timeout = 60_000;
  last_activity = 100;
  activated = true;
  in_flight = 0;
}

abbrev with_active : SessionRegistry
with_active = record { limits = default_session_limits; sessions = active ∷ []; next_id = 1 }

abbrev touched : SessionRegistry
touched = record with_active { sessions = record active { last_activity = 200 } ∷ [] }

looked_up : lookup with_active token 7 200 ≡ (ok (snapshot active), [], touched)
unfolding lookup lookup_session resolve expired
looked_up = refl

lookup_authorised_example :
    (s : Session) × IsLive with_active token 200 s
    × (s.bound_channel ≡ (let c : ℕ = 7 in c))
    × (snapshot active ≡ snapshot s)
    × ((let none_ended : List SessionInfo = [] in none_ended) ≡ [])
    × (find token.opaque_id touched.sessions ≡ some (record s { last_activity = 200 }))
lookup_authorised_example =
    lookup_authorised with_active touched token 7 200 (snapshot active) [] looked_up

-- The session moves to channel 9 at 300.
abbrev moved : Session
moved = record active { bound_channel = 9; last_activity = 300 }

abbrev with_moved : SessionRegistry
with_moved = record with_active { sessions = moved ∷ [] }

abbrev activation : ActivateSession
activation = record {
  user_identity_token = null_extension_object;
  anonymous_policy_id = [];
  now = 300;
}

activated_on_9 :
    activate with_active token 9 unsecured activation (ok nonce) ≡ (ok nonce, [], with_moved)
unfolding activate require_anonymous_identity null_extension_object is_null numeric_node_id resolve
    expired bind_to_channel
activated_on_9 = refl

activate-lookup_other_example :
    ((lookup with_moved token 7 400).0 ≡ err (codec status_bad_session_closed))
    ⊎ ((lookup with_moved token 7 400).0 ≡ err (codec status_bad_secure_channel_id_invalid))
activate-lookup_other_example =
    activate-lookup_other with_active with_moved token 9 7 400 unsecured activation (ok nonce) nonce
      [] activated_on_9 (omega arith)

activate-lookup_example : (lookup with_moved token 9 400).0 ≡ ok (snapshot moved)
activate-lookup_example =
    activate-lookup with_active with_moved token 9 400 unsecured activation (ok nonce) nonce []
      moved activated_on_9 refl (omega arith)

expire_stale_exactly_example :
    ((expired active a_day ≡ true)
      × (find token_bytes (expire_stale with_active a_day).1.sessions ≡ none)
      × (told (same token_bytes) (expire_stale with_active a_day).0 ≡ 1))
    ⊎ ((expired active a_day ≡ false)
        × (find token_bytes (expire_stale with_active a_day).1.sessions ≡ some active)
        × (told (same token_bytes) (expire_stale with_active a_day).0 ≡ 0))
expire_stale_exactly_example =
    expire_stale_exactly with_active a_day token_bytes active (omega arith) refl

begin_request-expire_stale_example :
    ((begin_request with_active token).0 ≡ true)
    × (find token.opaque_id (expire_stale (begin_request with_active token).1 a_day).1.sessions
        ≡ some (record active { in_flight = active.in_flight + 1 }))
begin_request-expire_stale_example =
    begin_request-expire_stale with_active token active a_day (omega arith) refl

-- A subscription of the session that is active.
abbrev subscription : UaSubscription ℕ
subscription = record {
  id = 5;
  session_token = token_bytes;
  publishing_enabled = true;
  publishing_interval = 1000;
  keep_alive_count = 10;
  lifetime_count = 30;
  max_notifications = 0;
  priority = 0;
  items = [];
  held_order = [];
  sequence_number = 0;
  pending = [];
  retransmit = [];
  retransmit_order = [];
  keep_alive_ticks = 0;
  message_sent = false;
  last_kept_alive = 0;
}

abbrev service : SubscriptionService ℕ
service = record {
  limits = record {
    max_subscriptions = 8;
    max_monitored_items = 100;
    min_publishing_interval = 100_000_000;
    max_publishing_interval = 60_000_000_000;
    min_keep_alive_count = 1;
    max_keep_alive_count = 100;
    max_notifications_per_publish = 500;
    max_retransmission_queue = 64;
    request_timeout = 30_000_000_000;
    max_nodes = 1000;
  };
  subscriptions = (5, subscription) ∷ [];
  next_id = 5;
}

owned : Owned with_active service
unfolding Owned
owned = (omega arith, tt)

call-Owned_example :
    Owned
      (call with_active (expire_call a_day)).1
      (run_hook (call with_active (expire_call a_day)).0 service)
call-Owned_example = call-Owned with_active service (expire_call a_day) owned
