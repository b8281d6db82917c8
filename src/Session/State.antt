-- ===== src/Session/State.antt =====
-- internal/opcua/session.go: one session, the snapshot of it, its timeout, and the rules for the
-- channel that may carry it. A time is a count of nanoseconds.
use opcda_access_adapter.Prelude.{
  ℕ, ◌+◌, ◌*◌, Bool, false, ◌||◌, ◌&&◌, not, List, ltb, ◌==◌, if◌then◌else◌,
}
use opcda_access_adapter.Prelude.Keys.{same}
use opcda_access_adapter.Errors.{
  Result, ok, err, codec, status_bad_secure_channel_id_invalid, status_bad_security_checks_failed,
  status_bad_identity_token_rejected,
}
use opcda_access_adapter.NodeId.{NodeId}
use opcda_access_adapter.Channel.Token.{millisecond}
use opcda_access_adapter.Session.Limits.{SessionSecurity}

abbrev pub security_mode_sign : ℕ
security_mode_sign = 2

-- The channel `ended`, which only terminateLocked closes, is not a field: that a session is in the
-- registry says that it is open. The time of creation is not read.
pub record Session : Type 0 where
  pub id : NodeId
  pub authentication_token : NodeId
  pub created_on_channel : ℕ
  pub bound_channel : ℕ
  pub security : SessionSecurity
  pub name : List ℕ
  pub timeout : ℕ
  pub last_activity : ℕ
  pub activated : Bool
  pub in_flight : ℕ

pub record SessionInfo : Type 0 where
  pub id : NodeId
  pub authentication_token : NodeId
  pub created_on_channel : ℕ
  pub bound_channel : ℕ
  pub name : List ℕ
  pub timeout : ℕ
  pub activated : Bool

-- The string of the opaque token's bytes.
abbrev pub key : Session → List ℕ
key s = s.authentication_token.opaque_id

abbrev pub info_key : SessionInfo → List ℕ
info_key i = i.authentication_token.opaque_id

abbrev pub snapshot : Session → SessionInfo
snapshot s = record {
  id = s.id;
  authentication_token = s.authentication_token;
  created_on_channel = s.created_on_channel;
  bound_channel = s.bound_channel;
  name = s.name;
  timeout = s.timeout;
  activated = s.activated;
}

unfoldable pub expired : Session → ℕ → Bool
expired s now =
    if ltb 0 s.in_flight then false else not (ltb now (s.last_activity + s.timeout * millisecond))

-- `if security.Mode != s.security.Mode || security.PolicyURI != s.security.PolicyURI`
abbrev pub other_security : SessionSecurity → SessionSecurity → Bool
other_security new old = not (new.mode == old.mode) || not (same new.policy_uri old.policy_uri)

unfoldable pub bind_to_channel : Session → ℕ → SessionSecurity → Result Session
bind_to_channel s channel security =
    if not s.activated
    then if not (channel == s.created_on_channel)
      then err (codec status_bad_secure_channel_id_invalid)
      else ok (record s { bound_channel = channel })
    else if channel == s.bound_channel
    then ok s
    else if other_security security s.security
    then err (codec status_bad_security_checks_failed)
    else if security.anonymous_identity_only && (security.mode == security_mode_sign)
    then err (codec status_bad_identity_token_rejected)
    else ok (record s { bound_channel = channel })
