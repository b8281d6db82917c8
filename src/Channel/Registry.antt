-- ===== src/Channel/Registry.antt =====
-- internal/opcua/channel.go: the ChannelRegistry. A method answers its result and the registry as it
-- is afterwards; a method that changes nothing answers its result alone. The lock makes every call
-- one step.
use opcda_access_adapter.Prelude.{
  ℕ, ◌+◌, ◌%◌, ◌^◌, Bool, false, not, Option, none, some, List, [], ◌∷◌, leb, ◌==◌, length,
  if◌then◌else◌,
}
use opcda_access_adapter.Errors.{
  Error, Result, ok, err, ◌>>=◌, ◌>>◌, codec, status_bad_tcp_not_enough_resources,
  status_bad_tcp_secure_channel_unknown,
}
use opcda_access_adapter.Uasc.Sequence.{require_supported_security_mode}
use opcda_access_adapter.Channel.Token.{
  ChannelSecurityToken, ChannelLimits, validate_limits, revise_lifetime, SecureChannel,
  closed_error, renew_channel, accept_token, channel_expired,
}
use opcda_access_adapter.Channel.Ids.{search}
use opcda_access_adapter.Channel.Channels.{ids, find, update, keep}

pub record ChannelRegistry : Type 0 where
  pub limits : ChannelLimits
  pub channels : List SecureChannel
  pub next_channel_id : ℕ
  pub next_token_id : ℕ

pub record ChannelInfo : Type 0 where
  pub id : ℕ
  pub security_mode : ℕ
  pub token : ChannelSecurityToken
  pub previous_token : Option ChannelSecurityToken

abbrev pub snapshot : SecureChannel → ChannelInfo
snapshot c = record {
  id = c.id;
  security_mode = c.security_mode;
  token = c.current;
  previous_token = c.previous;
}

unfoldable pub new_channel_registry : ChannelLimits → ℕ → ℕ → Result ChannelRegistry
new_channel_registry l channel_seed token_seed = do
  validate_limits l
  ok (record {
    limits = l;
    channels = [];
    next_channel_id = channel_seed;
    next_token_id = token_seed;
  })

-- allocateChannelID, with `none` where the loop would not end.
unfoldable pub allocate_channel_id : ChannelRegistry → Option ℕ
unfolding search
allocate_channel_id r = search (length (ids r.channels) + 2) r.next_channel_id (ids r.channels)

unfoldable pub allocate_token_id : ChannelRegistry → ℕ
allocate_token_id r = let n = (r.next_token_id + 1) % 2 ^ 32 in if n == 0 then 1 else n

-- What Issue adds once it has an identifier for the channel.
abbrev pub opened : ChannelRegistry → ℕ → ℕ → ℕ → ℕ → SecureChannel
opened r id mode requested now = record {
  id = id;
  security_mode = mode;
  limits = r.limits;
  current = record {
    secure_channel_id = id;
    token_id = allocate_token_id r;
    created_at = now;
    revised_lifetime = revise_lifetime r.limits requested;
  };
  previous = none;
  closed = false;
}

abbrev pub open_channel :
    ChannelRegistry → ℕ → ℕ → ℕ → Option ℕ → Option (Result ChannelInfo × ChannelRegistry)
open_channel r mode requested now none = none
open_channel r mode requested now (some id) =
    let c = opened r id mode requested now in
    some (
      ok (snapshot c),
      record r {
        channels = c ∷ r.channels;
        next_channel_id = id;
        next_token_id = allocate_token_id r;
      },
    )

-- Issue, behind the check of the security mode.
abbrev pub issue_checked :
    ChannelRegistry → ℕ → ℕ → ℕ → Result (Unit {0}) → Option (Result ChannelInfo × ChannelRegistry)
issue_checked r mode requested now (err e) = some (err e, r)
issue_checked r mode requested now (ok u) =
    if leb r.limits.max_channels (length r.channels)
    then some (err (codec status_bad_tcp_not_enough_resources), r)
    else open_channel r mode requested now (allocate_channel_id r)

unfoldable pub issue : ChannelRegistry → ℕ → ℕ → ℕ → Option (Result ChannelInfo × ChannelRegistry)
unfolding allocate_channel_id allocate_token_id
issue r mode requested now =
    issue_checked r mode requested now (require_supported_security_mode mode)

abbrev pub unknown_error : Error
unknown_error = codec status_bad_tcp_secure_channel_unknown

abbrev pub require_open : Option SecureChannel → Result SecureChannel
require_open none = err unknown_error
require_open (some c) = if c.closed then err closed_error else ok c

-- lookupLocked
unfoldable pub lookup_channel : ChannelRegistry → ℕ → Result SecureChannel
lookup_channel r id = require_open (find id r.channels)

unfoldable pub lookup : ChannelRegistry → ℕ → Result ChannelInfo
unfolding lookup_channel
lookup r id = do c ← lookup_channel r id; ok (snapshot c)

-- The registry behind Renew of a channel, which has used up a token identifier in any case.
abbrev pub put_renewed :
    ChannelRegistry → Result SecureChannel → Result ChannelSecurityToken × ChannelRegistry
put_renewed r (err e) = (err e, record r { next_token_id = allocate_token_id r })
put_renewed r (ok d) =
    (ok d.current, record r { channels = update d r.channels; next_token_id = allocate_token_id r })

abbrev pub renew_found :
    ChannelRegistry → ℕ → ℕ → Result SecureChannel → Result ChannelSecurityToken × ChannelRegistry
renew_found r requested now (err e) = (err e, r)
renew_found r requested now (ok c) =
    put_renewed r (renew_channel c (allocate_token_id r) requested now)

unfoldable pub renew : ChannelRegistry → ℕ → ℕ → ℕ → Result ChannelSecurityToken × ChannelRegistry
unfolding lookup_channel allocate_token_id renew_channel
renew r id requested now = renew_found r requested now (lookup_channel r id)

-- The registry behind AcceptToken, with the channel as that leaves it.
abbrev pub put_accepted :
    ChannelRegistry → Result (Unit {0}) × SecureChannel → Result ChannelInfo × ChannelRegistry
put_accepted r (outcome, d) =
    (outcome >>= (λ u. ok (snapshot d)), record r { channels = update d r.channels })

abbrev pub accept_found :
    ChannelRegistry → ℕ → ℕ → Result SecureChannel → Result ChannelInfo × ChannelRegistry
accept_found r token_id now (err e) = (err e, r)
accept_found r token_id now (ok c) = put_accepted r (accept_token c token_id now)

unfoldable pub accept : ChannelRegistry → ℕ → ℕ → ℕ → Result ChannelInfo × ChannelRegistry
unfolding lookup_channel accept_token
accept r id token_id now = accept_found r token_id now (lookup_channel r id)

abbrev pub other_id : ℕ → SecureChannel → Bool
other_id id c = not (id == c.id)

-- Close behind the look into the map. Nothing refers to a channel that was deleted, so that its
-- closed flag, which Go sets before, is not kept.
abbrev pub close_found :
    ChannelRegistry → ℕ → Option SecureChannel → Result (Unit {0}) × ChannelRegistry
close_found r id none = (err unknown_error, r)
close_found r id (some c) = (ok tt, record r { channels = keep (other_id id) r.channels })

unfoldable pub close : ChannelRegistry → ℕ → Result (Unit {0}) × ChannelRegistry
close r id = close_found r id (find id r.channels)

abbrev pub still_alive : ℕ → SecureChannel → Bool
still_alive now c = not (channel_expired c now)

abbrev pub count_expired : ℕ → List SecureChannel → ℕ
count_expired now [] = 0
count_expired now (c ∷ cs) =
    if channel_expired c now then 1 + count_expired now cs else count_expired now cs

unfoldable pub expire_stale : ChannelRegistry → ℕ → ℕ × ChannelRegistry
unfolding channel_expired
expire_stale r now =
    (count_expired now r.channels, record r { channels = keep (still_alive now) r.channels })

abbrev pub count : ChannelRegistry → ℕ
count r = length r.channels
