-- ===== src/Channel/Reachable.antt =====
-- The runs of a ChannelRegistry of internal/opcua/channel.go: calls of its methods in any order, at
-- any times, from any connection. A call holds the lock, so a run is a sequence of calls.
use opcda_access_adapter.Prelude.{
  ℕ, ◌+◌, ◌^◌, ◌≤◌, ◌<◌, ◌≡◌, ◌≢◌, refl, subst, Bool, true, false, inl, inr, Option, none, some,
  ◌∷◌, leb, length, if◌then◌else◌, arith, Bool-cases,
}
use opcda_access_adapter.Errors.{Result, ok, err, codec, status_bad_tcp_not_enough_resources}
use opcda_access_adapter.Uasc.Sequence.{require_supported_security_mode, security_mode_none}
use opcda_access_adapter.Channel.Token.{ChannelLimits}
use opcda_access_adapter.Prelude.{member}
use opcda_access_adapter.Channel.Ids.{search_free, search_total}
use opcda_access_adapter.Channel.Channels.{ids, length-ids}
use opcda_access_adapter.Channel.Registry.{
  ChannelRegistry, ChannelInfo, new_channel_registry, allocate_channel_id, allocate_token_id,
  opened, open_channel, issue_checked, issue, renew, accept, close, expire_stale,
}
use opcda_access_adapter.Channel.Invariant.{
  IsSound, new-IsSound, close-IsSound, expire_stale-IsSound, renew-IsSound, accept-IsSound,
}

-- One call, with its arguments.
pub data Call : Type 0 where
  issue_call : ℕ → ℕ → ℕ → Call
  renew_call : ℕ → ℕ → ℕ → Call
  accept_call : ℕ → ℕ → ℕ → Call
  close_call : ℕ → Call
  expire_call : ℕ → Call

abbrev pub behind_issue {ℓ} : {A : Type ℓ} → Option (A × ChannelRegistry) → Option ChannelRegistry
behind_issue none = none
behind_issue (some (a, r)) = some r

-- The registry behind a call; `none` where the call does not return.
abbrev pub call : ChannelRegistry → Call → Option ChannelRegistry
call r (issue_call mode requested now) = behind_issue (issue r mode requested now)
call r (renew_call id requested now) = some (renew r id requested now).1
call r (accept_call id token_id now) = some (accept r id token_id now).1
call r (close_call id) = some (close r id).1
call r (expire_call now) = some (expire_stale r now).1

-- The registries that a run leads to.
pub data Reachable (start : ChannelRegistry) : ChannelRegistry → Type 0 where
  nothing_called : Reachable start start
  one_more :
      (r s : ChannelRegistry) (c : Call) → Reachable start r → call r c ≡ some s → Reachable start s

opened-IsSound :
    (r : ChannelRegistry) (id mode requested now : ℕ)
    → IsSound r
    → mode ≡ security_mode_none
    → leb r.limits.max_channels (length r.channels) ≡ false
    → id ≢ 0
    → id < 2 ^ 32
    → member id (ids r.channels) ≡ false
    → IsSound (record r {
      channels = opened r id mode requested now ∷ r.channels;
      next_channel_id = id;
      next_token_id = allocate_token_id r;
    })
unfolding allocate_token_id
opened-IsSound r id mode requested now s m room named fits free = record {
  valid = s.valid;
  held = (
    record {
      named = named;
      id_fits = fits;
      not_closed = refl;
      token_names = refl;
      token_named = ground arith;
      same_limits = refl;
      mode = m;
    },
    s.held,
  );
  distinct = (free, s.distinct);
  bounded = ground arith;
}

supported_mode :
    (mode : ℕ) (u : Unit {0})
    → require_supported_security_mode mode ≡ ok u
    → mode ≡ security_mode_none
unfolding require_supported_security_mode
supported_mode mode u h = ground arith

issue-IsSound :
    (r s : ChannelRegistry) (mode requested now : ℕ)
    → IsSound r
    → behind_issue (issue r mode requested now) ≡ some s
    → IsSound s
unfolding issue allocate_channel_id
issue-IsSound r s mode requested now sound h =
    checked (require_supported_security_mode mode) (λ u e. supported_mode mode u e) h
  where
    searched :
        (x : Option ℕ)
        → mode ≡ security_mode_none
        → leb r.limits.max_channels (length r.channels) ≡ false
        → ((id : ℕ) → x ≡ some id → (id ≢ 0) × (id < 2 ^ 32) × (member id (ids r.channels) ≡ false))
        → behind_issue (open_channel r mode requested now x) ≡ some s
        → IsSound s
    searched none m room free e = cc
    searched (some id) m room free e =
        let (named, fits, fresh) = free id refl in
        subst IsSound (some_eq _ _ e)
          (opened-IsSound r id mode requested now sound m room named fits fresh)
      where
        some_eq : (x y : ChannelRegistry) → some x ≡ some y → x ≡ y
        some_eq x y p = cc p

    limited :
        (full : Bool)
        → leb r.limits.max_channels (length r.channels) ≡ full
        → mode ≡ security_mode_none
        → behind_issue (
            if full
            then some (err (codec status_bad_tcp_not_enough_resources), r)
            else open_channel r mode requested now (allocate_channel_id r))
          ≡ some s
        → IsSound s
    limited true room m e = subst IsSound (ground arith) sound
    limited false room m e =
        searched (allocate_channel_id r) m room
          (λ id found.
            search_free (length (ids r.channels) + 2) r.next_channel_id (ids r.channels) id found)
          e

    checked :
        (x : Result (Unit {0}))
        → ((u : Unit {0}) → x ≡ ok u → mode ≡ security_mode_none)
        → behind_issue (issue_checked r mode requested now x) ≡ some s
        → IsSound s
    checked (err e) m p = subst IsSound (ground arith) sound
    checked (ok u) m p = limited _ refl (m u refl) p

call-IsSound : (r s : ChannelRegistry) (c : Call) → IsSound r → call r c ≡ some s → IsSound s
call-IsSound r s (issue_call mode requested now) sound h =
    issue-IsSound r s mode requested now sound h
call-IsSound r s (renew_call id requested now) sound h =
    subst IsSound (ground arith) (renew-IsSound r id requested now sound)
call-IsSound r s (accept_call id token_id now) sound h =
    subst IsSound (ground arith) (accept-IsSound r id token_id now sound)
call-IsSound r s (close_call id) sound h = subst IsSound (ground arith) (close-IsSound r id sound)
call-IsSound r s (expire_call now) sound h =
    subst IsSound (ground arith) (expire_stale-IsSound r now sound)

-- Whatever is called in whatever order on a registry that NewChannelRegistry made, it holds at most
-- as many channels as its limits allow, under identifiers that are all different, not 0, and fit a
-- UInt32, and every channel it holds is open, has a named current token that names the channel, and
-- the one security mode that is supported.
pub Reachable-IsSound :
    (l : ChannelLimits) (channel_seed token_seed : ℕ) (start r : ChannelRegistry)
    → new_channel_registry l channel_seed token_seed ≡ ok start
    → Reachable start r
    → IsSound r
Reachable-IsSound l a b start _ h nothing_called = new-IsSound l a b start h
Reachable-IsSound l a b start _ h (one_more r s c before e) =
    call-IsSound r s c (Reachable-IsSound l a b start r h before) e

-- For a registry that satisfies the invariant and whose limits allow fewer than 2 ^ 32 channels,
-- the search for a channel identifier ends, so Issue returns whatever it is asked for.
pub issue_total :
    (r : ChannelRegistry) (mode requested now : ℕ)
    → IsSound r
    → r.limits.max_channels < 2 ^ 32
    → (outcome : Result ChannelInfo × ChannelRegistry) × (issue r mode requested now ≡ some outcome)
unfolding issue allocate_channel_id
issue_total r mode requested now s h = checked (require_supported_security_mode mode)
  where
    searched :
        (x : Option ℕ)
        → (id : ℕ) × (x ≡ some id)
        → (outcome : Result ChannelInfo × ChannelRegistry) × (open_channel r mode requested now x
            ≡ some outcome)
    searched none (id, e) = cc e
    searched (some id) p = (_, refl)

    checked :
        (x : Result (Unit {0}))
        → (outcome : Result ChannelInfo × ChannelRegistry) × (issue_checked r mode requested now x
            ≡ some outcome)
    checked (err e) = (_, refl)
    checked (ok u) = elim (Bool-cases (leb r.limits.max_channels (length r.channels))) [
      | inl full ↦ ((err (codec status_bad_tcp_not_enough_resources), r), rw full refl)
      | inr room ↦
          let enough : length (ids r.channels) + 2 ≤ 2 ^ 32 =
            ground (arith, length-ids r.channels) in
          let (outcome, e) =
            searched (allocate_channel_id r)
              (search_total r.next_channel_id (ids r.channels) enough) in
          (outcome, rw room e)
    ]
