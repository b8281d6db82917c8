-- ===== src/Channel/Invariant.antt =====
-- What holds of every ChannelRegistry of internal/opcua/channel.go, and that each method keeps it.
use opcda_access_adapter.Prelude.{
  ℕ, ◌^◌, ◌≤◌, ◌<◌, ◌≡◌, ◌≢◌, refl, sym, ap, subst, ◌∙◌, Bool, false, inl, inr, Option, none, some,
  List, length, All, arith, Option-cases,
}
use opcda_access_adapter.Errors.{Result, ok, err, >>=-eq-ok}
use opcda_access_adapter.Uasc.Sequence.{security_mode_none}
use opcda_access_adapter.Channel.Token.{
  ChannelLimits, validate_limits, SecureChannel, renew_channel, accept_token,
}
use opcda_access_adapter.Prelude.{Distinct}
use opcda_access_adapter.Channel.Channels.{
  ids, find, update, keep, ids-update, length-update, length-keep_le, Distinct-keep, All-keep,
  All-update, All-find,
}
use opcda_access_adapter.Channel.Registry.{
  ChannelRegistry, new_channel_registry, allocate_token_id, require_open, lookup_channel,
  put_renewed, renew_found, accept_found, close_found, renew, accept, other_id, close, still_alive,
  expire_stale,
}

-- A channel that the registry holds: open, under an identifier that is not 0, with a token that
-- names it, and with the limits of the registry and the one security mode there is.
pub record IsHeld (l : ChannelLimits) (c : SecureChannel) : Type 0 where
  pub named : c.id ≢ 0
  pub id_fits : c.id < 2 ^ 32
  pub not_closed : c.closed ≡ false
  pub token_names : c.current.secure_channel_id ≡ c.id
  pub token_named : c.current.token_id ≢ 0
  pub same_limits : c.limits ≡ l
  pub mode : c.security_mode ≡ security_mode_none

pub record IsSound (r : ChannelRegistry) : Type 0 where
  pub valid : validate_limits r.limits ≡ ok tt
  pub held : All (IsHeld r.limits) r.channels
  pub distinct : Distinct (ids r.channels)
  pub bounded : length r.channels ≤ r.limits.max_channels

-- What the changes of a registry that concern its list of channels must show.
with_channels :
    (r : ChannelRegistry) (cs : List SecureChannel) (next_channel next_token : ℕ)
    → IsSound r
    → All (IsHeld r.limits) cs
    → Distinct (ids cs)
    → length cs ≤ r.limits.max_channels
    → IsSound
        (record r { channels = cs; next_channel_id = next_channel; next_token_id = next_token })
with_channels r cs a b s held distinct bounded = record {
  valid = s.valid;
  held = held;
  distinct = distinct;
  bounded = bounded;
}

pub new-IsSound :
    (l : ChannelLimits) (channel_seed token_seed : ℕ) (r : ChannelRegistry)
    → new_channel_registry l channel_seed token_seed ≡ ok r
    → IsSound r
unfolding new_channel_registry
new-IsSound l a b r h =
    let (u, valid, made) = >>=-eq-ok (validate_limits l) _ h in
    subst IsSound (ok_eq _ _ made)
      (record { valid = valid; held = tt; distinct = tt; bounded = omega arith })
  where
    ok_eq : (x y : ChannelRegistry) → ok x ≡ ok y → x ≡ y
    ok_eq x y e = cc e

pub keep-IsSound :
    (r : ChannelRegistry) (test : SecureChannel → Bool)
    → IsSound r
    → IsSound (record r { channels = keep test r.channels })
keep-IsSound r test s =
    with_channels r (keep test r.channels) r.next_channel_id r.next_token_id s
      (All-keep _ test r.channels s.held) (Distinct-keep test r.channels s.distinct)
      (omega (arith, length-keep_le test r.channels, s.bounded))

pub update-IsSound :
    (r : ChannelRegistry) (d : SecureChannel) (next_token : ℕ)
    → IsSound r
    → IsHeld r.limits d
    → IsSound (record r { channels = update d r.channels; next_token_id = next_token })
update-IsSound r d n s p =
    with_channels r (update d r.channels) r.next_channel_id n s (All-update _ d r.channels p s.held)
      (subst Distinct (sym (ids-update d r.channels)) s.distinct)
      (omega (arith, length-update d r.channels, s.bounded))

pub close-IsSound : (r : ChannelRegistry) (id : ℕ) → IsSound r → IsSound (close r id).1
unfolding close
close-IsSound r id s = go (find id r.channels)
  where
    go : (x : Option SecureChannel) → IsSound (close_found r id x).1
    go none = s
    go (some c) = keep-IsSound r (other_id id) s

pub expire_stale-IsSound :
    (r : ChannelRegistry) (now : ℕ) → IsSound r → IsSound (expire_stale r now).1
unfolding expire_stale
expire_stale-IsSound r now s = keep-IsSound r (still_alive now) s

-- A channel that a lookup finds is held.
pub lookup_channel-IsHeld :
    (r : ChannelRegistry) (id : ℕ) (c : SecureChannel)
    → IsSound r
    → lookup_channel r id ≡ ok c
    → (IsHeld r.limits c) × (find id r.channels ≡ some c)
unfolding lookup_channel
lookup_channel-IsHeld r id c s h = elim (Option-cases (find id r.channels)) [
  | inl e ↦ cc (e, h)
  | inr (d, e) ↦
      let there : require_open (some d) ≡ ok c = ap require_open (sym e) ∙ h in
      let same : d ≡ c = ground arith in
      let found : find id r.channels ≡ some c = e ∙ ap some same in
      (All-find _ id r.channels c s.held found, found)
]

token_id-named : (r : ChannelRegistry) → allocate_token_id r ≢ 0
unfolding allocate_token_id
token_id-named r = ground arith

renewed :
    (l : ChannelLimits) (c d : SecureChannel) (token_id requested now : ℕ)
    → IsHeld l c
    → token_id ≢ 0
    → renew_channel c token_id requested now ≡ ok d
    → IsHeld l d
unfolding renew_channel
renewed l c d token_id requested now p t h = record {
  named = ground (arith, p.named);
  id_fits = ground (arith, p.id_fits);
  not_closed = ground (arith, p.not_closed);
  token_names = ground arith;
  token_named = ground (arith, t);
  same_limits = ground (arith, p.same_limits);
  mode = ground (arith, p.mode);
}

pub renew-IsSound :
    (r : ChannelRegistry) (id requested now : ℕ) → IsSound r → IsSound (renew r id requested now).1
unfolding renew
renew-IsSound r id requested now s =
    go (lookup_channel r id) (λ c e. (lookup_channel-IsHeld r id c s e).0)
  where
    put :
        (x : Result SecureChannel)
        → ((d : SecureChannel) → x ≡ ok d → IsHeld r.limits d)
        → IsSound (put_renewed r x).1
    put (err e) h =
        with_channels r r.channels r.next_channel_id (allocate_token_id r) s s.held s.distinct
          s.bounded
    put (ok d) h = update-IsSound r d (allocate_token_id r) s (h d refl)

    go :
        (x : Result SecureChannel)
        → ((c : SecureChannel) → x ≡ ok c → IsHeld r.limits c)
        → IsSound (renew_found r requested now x).1
    go (err e) h = s
    go (ok c) h = put (renew_channel c (allocate_token_id r) requested now) (λ d.
        renewed r.limits c d (allocate_token_id r) requested now (h c refl) (token_id-named r))

-- AcceptToken changes nothing of a channel but its superseded token.
pub accept_token-changes :
    (c : SecureChannel) (token_id now : ℕ)
    → let d = (accept_token c token_id now).1 in
      (d.id ≡ c.id)
      × (d.closed ≡ c.closed)
      × (d.current ≡ c.current)
      × (d.limits ≡ c.limits)
      × (d.security_mode ≡ c.security_mode)
unfolding accept_token
accept_token-changes c token_id now =
    (ground arith, ground arith, ground arith, ground arith, ground arith)

accepted-IsHeld :
    (l : ChannelLimits) (c : SecureChannel) (token_id now : ℕ)
    → IsHeld l c
    → IsHeld l (accept_token c token_id now).1
accepted-IsHeld l c token_id now p =
    let (id, closed, current, limits, mode) = accept_token-changes c token_id now in
    record {
      named = λ e. p.named (sym id ∙ e);
      id_fits = subst (λ n. n < 2 ^ 32) (sym id) p.id_fits;
      not_closed = closed ∙ p.not_closed;
      token_names = ap (λ t. t.secure_channel_id) current ∙ p.token_names ∙ sym id;
      token_named = λ e. p.token_named (ap (λ t. t.token_id) (sym current) ∙ e);
      same_limits = limits ∙ p.same_limits;
      mode = mode ∙ p.mode;
    }

pub accept-IsSound :
    (r : ChannelRegistry) (id token_id now : ℕ) → IsSound r → IsSound (accept r id token_id now).1
unfolding accept
accept-IsSound r id token_id now s =
    go (lookup_channel r id) (λ c e. (lookup_channel-IsHeld r id c s e).0)
  where
    go :
        (x : Result SecureChannel)
        → ((c : SecureChannel) → x ≡ ok c → IsHeld r.limits c)
        → IsSound (accept_found r token_id now x).1
    go (err e) h = s
    go (ok c) h =
        update-IsSound r (accept_token c token_id now).1 r.next_token_id s
          (accepted-IsHeld r.limits c token_id now (h c refl))
