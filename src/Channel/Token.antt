-- ===== src/Channel/Token.antt =====
-- internal/opcua/channel.go: the limits, a security token, and a channel with its two tokens. A
-- time is a count of nanoseconds, as is a duration; a limit that is not positive is 0.
use opcda_access_adapter.Prelude.{
  ℕ, ◌+◌, ◌*◌, ◌/◌, ◌%◌, ◌^◌, Bool, true, false, ◌||◌, not, Option, none, some, ltb, leb, ◌==◌,
  if◌then◌else◌,
}
use opcda_access_adapter.Errors.{
  Error, Result, ok, err, codec, plain, status_bad_secure_channel_closed,
  status_bad_secure_channel_token_unknown, status_bad_protocol_version_unsupport,
}

abbrev pub millisecond : ℕ
millisecond = 1000000

abbrev pub max_uint32 : ℕ
max_uint32 = 4294967295

pub record ChannelSecurityToken : Type 0 where
  pub secure_channel_id : ℕ
  pub token_id : ℕ
  pub created_at : ℕ
  pub revised_lifetime : ℕ

unfoldable pub expires_at : ChannelSecurityToken → ℕ
expires_at t = t.created_at + t.revised_lifetime * millisecond

unfoldable pub token_expired : ChannelSecurityToken → ℕ → Bool
unfolding expires_at
token_expired t now = not (ltb now (expires_at t))

pub record ChannelLimits : Type 0 where
  pub min_lifetime : ℕ
  pub max_lifetime : ℕ
  pub max_channels : ℕ

abbrev pub default_channel_limits : ChannelLimits
default_channel_limits = record {
  min_lifetime = 10000000000;
  max_lifetime = 600000000000;
  max_channels = 16;
}

unfoldable pub validate_limits : ChannelLimits → Result (Unit {0})
validate_limits l =
    if leb l.min_lifetime 0 || leb l.max_lifetime 0 || leb l.max_channels 0
    then err plain
    else if ltb l.max_lifetime l.min_lifetime
    then err plain
    else if ltb max_uint32 (l.max_lifetime / millisecond)
    then err plain
    else ok tt

-- The requested duration, brought into the configured range.
abbrev pub clamp : ChannelLimits → ℕ → ℕ
clamp l d =
    if ltb d l.min_lifetime
    then l.min_lifetime
    else if ltb l.max_lifetime d
    then l.max_lifetime
    else d

unfoldable pub revise_lifetime : ChannelLimits → ℕ → ℕ
revise_lifetime l requested = (clamp l (requested * millisecond) / millisecond) % 2 ^ 32

pub record SecureChannel : Type 0 where
  pub id : ℕ
  pub security_mode : ℕ
  pub limits : ChannelLimits
  pub current : ChannelSecurityToken
  pub previous : Option ChannelSecurityToken
  pub closed : Bool

abbrev pub closed_error : Error
closed_error = codec status_bad_secure_channel_closed

abbrev pub token_unknown_error : Error
token_unknown_error = codec status_bad_secure_channel_token_unknown

-- SecureChannel.Renew: the channel with its new token, which Go answers as well.
unfoldable pub renew_channel : SecureChannel → ℕ → ℕ → ℕ → Result SecureChannel
unfolding revise_lifetime
renew_channel c token_id requested now =
    if c.closed
    then err closed_error
    else ok (record c {
      previous = some c.current;
      current = record {
        secure_channel_id = c.id;
        token_id = token_id;
        created_at = now;
        revised_lifetime = revise_lifetime c.limits requested;
      };
    })

-- AcceptToken for a token that is not the current one.
abbrev pub accept_previous :
    Option ChannelSecurityToken → SecureChannel → ℕ → ℕ → Result (Unit {0}) × SecureChannel
accept_previous none c token_id now = (err token_unknown_error, c)
accept_previous (some p) c token_id now =
    if token_id == p.token_id
    then (if token_expired p now
        then (err token_unknown_error, record c { previous = none })
        else (ok tt, c))
    else (err token_unknown_error, c)

-- The outcome, and the channel as it is afterwards.
unfoldable pub accept_token : SecureChannel → ℕ → ℕ → Result (Unit {0}) × SecureChannel
unfolding token_expired
accept_token c token_id now =
    if c.closed
    then (err closed_error, c)
    else if token_id == c.current.token_id
    then (if token_expired c.current now
        then (err token_unknown_error, c)
        else (ok tt, record c { previous = none }))
    else accept_previous c.previous c token_id now

-- `c.previous != nil && !c.previous.expired(now)`
abbrev pub previous_alive : Option ChannelSecurityToken → ℕ → Bool
previous_alive none now = false
previous_alive (some p) now = not (token_expired p now)

unfoldable pub channel_expired : SecureChannel → ℕ → Bool
unfolding token_expired
channel_expired c now = if previous_alive c.previous now then false else token_expired c.current now

abbrev pub close_channel : SecureChannel → SecureChannel
close_channel c = record c { closed = true }

unfoldable pub require_protocol_version : ℕ → ℕ → Result (Unit {0})
require_protocol_version hello request =
    if hello == request then ok tt else err (codec status_bad_protocol_version_unsupport)
