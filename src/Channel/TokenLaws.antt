-- ===== src/Channel/TokenLaws.antt =====
-- The tokens of internal/opcua/channel.go: the lifetime that is granted, and which tokens a channel
-- takes through a renewal.
use opcda_access_adapter.Prelude.{
  ℕ, ◌*◌, ◌/◌, ◌^◌, ◌≤◌, ◌<◌, ◌≡◌, ◌≢◌, true, false, ◌⊎◌, ◌↔◌, some, arith,
}
use opcda_access_adapter.Errors.{ok, err}
use opcda_access_adapter.Channel.Token.{
  millisecond, ChannelSecurityToken, expires_at, token_expired, ChannelLimits, validate_limits,
  revise_lifetime, SecureChannel, token_unknown_error, renew_channel, accept_token, channel_expired,
}

-- Under limits that pass the check, for a request that fits a UInt32, the lifetime that is granted
-- lies between the two limits, counted in whole milliseconds, and it is the one that was asked for
-- unless that is below the lower limit or above the upper one, which is then granted.
pub revise_lifetime_bounds :
    (l : ChannelLimits) (requested : ℕ)
    → validate_limits l ≡ ok tt
    → requested < 2 ^ 32
    → (l.min_lifetime / millisecond ≤ revise_lifetime l requested)
      × (revise_lifetime l requested ≤ l.max_lifetime / millisecond)
      × ((revise_lifetime l requested ≡ requested)
          ⊎ (((requested * millisecond < l.min_lifetime)
                × (revise_lifetime l requested ≡ l.min_lifetime / millisecond))
              ⊎ ((l.max_lifetime < requested * millisecond)
                  × (revise_lifetime l requested ≡ l.max_lifetime / millisecond))))
unfolding validate_limits revise_lifetime
revise_lifetime_bounds l requested v h = (ground arith, ground arith, ground arith)

-- Under limits that pass the check, for a request that fits a UInt32, the lifetime 0 is granted
-- exactly where the lower limit is shorter than one millisecond and either 0 is asked for or the
-- upper limit is that short as well: limits that pass the check do not always give a lifetime
-- above 0.
pub revise_lifetime_zero :
    (l : ChannelLimits) (requested : ℕ)
    → validate_limits l ≡ ok tt
    → requested < 2 ^ 32
    → (revise_lifetime l requested ≡ 0)
      ↔ ((l.min_lifetime < millisecond) × ((requested ≡ 0) ⊎ (l.max_lifetime < millisecond)))
unfolding validate_limits revise_lifetime
revise_lifetime_zero l requested v h = ground arith

-- A token that is not expired and is one of the two that the channel holds, the superseded one only
-- where its identifier is not that of the current one.
abbrev pub Holds : SecureChannel → ℕ → ℕ → Type 0
Holds c token_id now =
    ((token_id ≡ c.current.token_id) × (now < expires_at c.current))
    ⊎ ((token_id ≢ c.current.token_id)
        × (p : ChannelSecurityToken) × (c.previous ≡ some p)
        × (token_id ≡ p.token_id)
        × (now < expires_at p))

only_current :
    (c : SecureChannel) (token_id now : ℕ)
    → c.closed ≡ false
    → token_id ≡ c.current.token_id
    → ((accept_token c token_id now).0 ≡ ok tt) ↔ (now < expires_at c.current)
unfolding accept_token token_expired
only_current c token_id now h e = ground arith

-- A channel that is open takes a token exactly where it holds the token and the token has not
-- expired.
pub accept_token_exactly :
    (c : SecureChannel) (token_id now : ℕ)
    → c.closed ≡ false
    → ((accept_token c token_id now).0 ≡ ok tt) ↔ Holds c token_id now
unfolding accept_token token_expired
accept_token_exactly c token_id now h = ground arith

-- A channel that is closed takes no token, and neither does one all of whose tokens have expired.
pub accept_token_refused :
    (c : SecureChannel) (token_id now : ℕ)
    → (c.closed ≡ true) ⊎ (channel_expired c now ≡ true)
    → (accept_token c token_id now).0 ≢ ok tt
unfolding accept_token channel_expired token_expired
accept_token_refused c token_id now h = ground arith

-- Behind a renewal the channel still takes the token that was current before, as long as that has
-- not expired and the new token has another identifier, and it stays as it is.
pub renew-keeps_old :
    (c d : SecureChannel) (token_id requested now later : ℕ)
    → renew_channel c token_id requested now ≡ ok d
    → token_id ≢ c.current.token_id
    → later < expires_at c.current
    → accept_token d c.current.token_id later ≡ (ok tt, d)
unfolding accept_token renew_channel token_expired
renew-keeps_old c d token_id requested now later h other alive = ground arith

-- Behind a renewal that gave the new token another identifier, the first use of the new token before
-- it expires retires the old one: the new token is taken, and from then on the old one is refused at
-- any time.
pub renew-retires_old :
    (c d : SecureChannel) (token_id requested now later any_time : ℕ)
    → renew_channel c token_id requested now ≡ ok d
    → token_id ≢ c.current.token_id
    → later < expires_at d.current
    → ((accept_token d token_id later).0 ≡ ok tt)
      × ((accept_token (accept_token d token_id later).1 c.current.token_id any_time).0
          ≡ err token_unknown_error)
unfolding accept_token renew_channel token_expired
renew-retires_old c d token_id requested now later any_time h other alive =
    (ground arith, ground arith)
