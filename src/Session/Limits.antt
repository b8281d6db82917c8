-- ===== src/Session/Limits.antt =====
-- internal/opcua/session.go: SessionLimits and the check of a client's nonce. A duration is a count
-- of nanoseconds, and a limit that is not positive is 0. A requested timeout is the int64 that Go
-- makes of the float64, which cuts off a fraction; a float64 that no int64 holds is left out.
use opcda_access_adapter.Prelude.{
  ℕ, ◌*◌, ◌/◌, ◌%◌, ◌^◌, Bool, ◌||◌, ◌&&◌, List, ltb, leb, ◌==◌, length, if◌then◌else◌,
}
use opcda_access_adapter.Prelude.Int.{ℤ, pos, negsuc}
use opcda_access_adapter.Errors.{Result, ok, err, codec, plain, status_bad_nonce_invalid}
use opcda_access_adapter.Uasc.Sequence.{security_mode_none}
use opcda_access_adapter.Channel.Token.{millisecond}

pub record SessionLimits : Type 0 where
  pub min_timeout : ℕ
  pub max_timeout : ℕ
  pub max_sessions : ℕ

abbrev pub default_session_limits : SessionLimits
default_session_limits = record {
  min_timeout = 10000000000;
  max_timeout = 600000000000;
  max_sessions = 8;
}

unfoldable pub validate_limits : SessionLimits → Result (Unit {0})
validate_limits l =
    if leb l.min_timeout 0 || leb l.max_timeout 0 || leb l.max_sessions 0
    then err plain
    else if ltb l.max_timeout l.min_timeout
    then err plain
    else ok tt

-- `if requestedDuration > MaxTimeout`
abbrev pub at_most_maximum : SessionLimits → ℕ → ℕ
at_most_maximum l d = if ltb l.max_timeout d then l.max_timeout else d

-- `if requestedDuration < MinTimeout`, for the bit pattern of an int64.
abbrev pub at_least_minimum : SessionLimits → ℕ → ℕ
at_least_minimum l w = if leb (2 ^ 63) w || ltb w l.min_timeout then l.min_timeout else w

-- The product with a millisecond wraps as an int64 does, and for a request of 0 it is below every
-- minimum. The result is in milliseconds.
unfoldable pub revise_timeout : SessionLimits → ℤ → ℕ
revise_timeout l (negsuc n) = at_most_maximum l l.min_timeout / millisecond
revise_timeout l (pos n) =
    at_most_maximum l (at_least_minimum l ((n * millisecond) % 2 ^ 64)) / millisecond

abbrev pub min_nonce_bytes : ℕ
min_nonce_bytes = 32

abbrev pub max_nonce_bytes : ℕ
max_nonce_bytes = 128

pub record SessionSecurity : Type 0 where
  pub mode : ℕ
  pub policy_uri : List ℕ
  pub anonymous_identity_only : Bool

unfoldable pub check_client_nonce : List ℕ → SessionSecurity → Result (Unit {0})
check_client_nonce nonce s =
    if (length nonce == 0) && (s.mode == security_mode_none) && s.anonymous_identity_only
    then ok tt
    else if ltb (length nonce) min_nonce_bytes || ltb max_nonce_bytes (length nonce)
    then err (codec status_bad_nonce_invalid)
    else ok tt
