-- ===== src/Examples/Channels.antt =====
-- The theorems on internal/opcua/channel.go and on the sequence numbers of internal/opcua/uasc.go at
-- concrete inputs: a registry of two channels, and runs of calls on it.
use opcda_access_adapter.Prelude.{
  ℕ, ◌*◌, ◌<◌, ◌≡◌, refl, true, false, ◌⊎◌, ◌↔◌, none, some, [], ◌∷◌, arith,
}
use opcda_access_adapter.Errors.{Result, ok, err, codec, status_bad_security_checks_failed}
use opcda_access_adapter.Uasc.Sequence.{
  SequenceNumbering, legacy, zero_based, SequenceValidator, new_sequence_validator, started_at,
  must_start_at_zero,
}
use opcda_access_adapter.Uasc.Sequence
use opcda_access_adapter.Uasc.SequenceLaws.{
  Allowed, accept_exactly, accept_all, send_all, accept_all-send_all,
}
use opcda_access_adapter.Channel.Token.{
  token_expired, expires_at, millisecond, ChannelSecurityToken, ChannelLimits,
  default_channel_limits, validate_limits, revise_lifetime, SecureChannel, renew_channel,
  accept_token, token_unknown_error,
}
use opcda_access_adapter.Channel.TokenLaws.{
  Holds, revise_lifetime_zero, accept_token_exactly, renew-retires_old,
}
use opcda_access_adapter.Channel.Ids.{search}
use opcda_access_adapter.Channel.Channels.{find}
use opcda_access_adapter.Channel.Registry.{
  accept, lookup_channel, ChannelRegistry, ChannelInfo, snapshot, new_channel_registry,
  allocate_channel_id, allocate_token_id, issue, expire_stale,
}
use opcda_access_adapter.Channel.Invariant.{IsSound}
use opcda_access_adapter.Channel.Reachable.{
  issue_call, Reachable, nothing_called, one_more, Reachable-IsSound, issue_total,
}
use opcda_access_adapter.Channel.Stale.{find-expire_stale}
use opcda_access_adapter.Uasc.Sequence.{require_supported_security_mode}

abbrev second : ℕ
second = 1000000000

abbrev unused : ℕ
unused = 7

abbrev no_time : ℕ
no_time = 0

abbrev empty_registry : ChannelRegistry
empty_registry = record {
  limits = default_channel_limits;
  channels = [];
  next_channel_id = 4294967295;
  next_token_id = 9;
}

made : new_channel_registry default_channel_limits 4294967295 9 ≡ ok empty_registry
unfolding new_channel_registry validate_limits
made = refl

abbrev first_token : ChannelSecurityToken
first_token = record {
  secure_channel_id = 1;
  token_id = 10;
  created_at = 0;
  revised_lifetime = 10000;
}

abbrev first_channel : SecureChannel
first_channel = record {
  id = 1;
  security_mode = 1;
  limits = default_channel_limits;
  current = first_token;
  previous = none;
  closed = false;
}

abbrev one_channel : ChannelRegistry
one_channel = record {
  limits = default_channel_limits;
  channels = first_channel ∷ [];
  next_channel_id = 1;
  next_token_id = 10;
}

issued : issue empty_registry 1 0 0 ≡ some (ok (snapshot first_channel), one_channel)
unfolding issue require_supported_security_mode allocate_channel_id allocate_token_id search
    revise_lifetime
issued = refl

run : Reachable empty_registry one_channel
unfolding issue require_supported_security_mode allocate_channel_id allocate_token_id search
    revise_lifetime
run = one_more empty_registry one_channel (issue_call 1 0 0) nothing_called refl

Reachable-IsSound_example : IsSound one_channel
Reachable-IsSound_example =
    Reachable-IsSound default_channel_limits 4294967295 9 empty_registry one_channel made run

issue_total_example :
    (outcome : Result ChannelInfo × ChannelRegistry) × (issue one_channel 1 60000 5 ≡ some outcome)
issue_total_example =
    issue_total one_channel 1 60000 5
      (Reachable-IsSound default_channel_limits 4294967295 9 empty_registry one_channel made run)
      (omega arith)

passed : (accept one_channel 1 10 second).0 ≡ ok (snapshot first_channel)
unfolding accept lookup_channel accept_token token_expired expires_at
passed = refl

find-expire_stale_example :
    (find 1 (expire_stale one_channel (5 * second)).1.channels ≡ some first_channel) ↔ (
      (find 1 one_channel.channels ≡ some first_channel)
      × ((5 * second < expires_at first_channel.current)
          ⊎ ((p : ChannelSecurityToken) × (first_channel.previous ≡ some p)
              × (5 * second < expires_at p))))
find-expire_stale_example =
    find-expire_stale one_channel 1 (5 * second) first_channel
      (Reachable-IsSound default_channel_limits 4294967295 9 empty_registry one_channel made run)

abbrev renewed_channel : SecureChannel
renewed_channel = record first_channel {
  current = record {
    secure_channel_id = 1;
    token_id = 11;
    created_at = 8 * second;
    revised_lifetime = 60000;
  };
  previous = some first_token;
}

renewed : renew_channel first_channel 11 60000 (8 * second) ≡ ok renewed_channel
unfolding renew_channel revise_lifetime
renewed = refl

renew-retires_old_example :
    ((accept_token renewed_channel 11 (9 * second)).0 ≡ ok tt)
    × ((accept_token (accept_token renewed_channel 11 (9 * second)).1 10 (9 * second)).0
        ≡ err token_unknown_error)
unfolding expires_at
renew-retires_old_example =
    renew-retires_old first_channel renewed_channel 11 60000 (8 * second) (9 * second) (9 * second)
      renewed (omega arith) (omega arith)

accept_token_exactly_example :
    ((accept_token renewed_channel 10 (9 * second)).0 ≡ ok tt)
    ↔ Holds renewed_channel 10 (9 * second)
accept_token_exactly_example = accept_token_exactly renewed_channel 10 (9 * second) refl

abbrev short_limits : ChannelLimits
short_limits = record { min_lifetime = 500000; max_lifetime = 600000000000; max_channels = 16 }

short_valid : validate_limits short_limits ≡ ok tt
unfolding validate_limits
short_valid = refl

default_valid : validate_limits default_channel_limits ≡ ok tt
unfolding validate_limits
default_valid = refl

revise_lifetime_zero_example : (revise_lifetime short_limits no_time ≡ 0) ↔ (
    (short_limits.min_lifetime < millisecond)
    × ((no_time ≡ 0) ⊎ (short_limits.max_lifetime < millisecond)))
revise_lifetime_zero_example = revise_lifetime_zero short_limits no_time short_valid (omega arith)

-- A legacy sender that is past the floor of the wrap.
abbrev late_sender : SequenceValidator
late_sender = record { numbering = legacy; started = true; last = 4294967000 }

accept_all-send_all_example :
    accept_all late_sender (send_all 3 late_sender).0 ≡ ok (send_all 3 late_sender).1
accept_all-send_all_example = accept_all-send_all late_sender 3 (omega arith)

accept_exactly_example :
    (Allowed late_sender 5 × (Sequence.accept late_sender 5 ≡ ok (started_at 5 late_sender)))
    ⊎ ((¬ Allowed late_sender 5)
        × (Sequence.accept late_sender 5 ≡ err (codec status_bad_security_checks_failed)))
accept_exactly_example = accept_exactly late_sender 5 (omega arith) (omega arith)

taken : Sequence.accept late_sender 5 ≡ ok (started_at 5 late_sender)
unfolding Sequence.accept Sequence.is_valid_wrap
taken = refl
