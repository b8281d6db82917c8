-- ===== src/Channel/Stale.antt =====
-- Which channels ExpireStale of a ChannelRegistry of internal/opcua/channel.go removes.
use opcda_access_adapter.Prelude.{
  ℕ, ◌+◌, ◌<◌, ltb, ◌≡◌, refl, sym, ap, subst, ◌∙◌, false, not, inl, inr, ◌⊎◌, ◌↔◌, Option, none,
  some, List, [], ◌∷◌, length, if◌then◌else◌, arith, Bool-cases,
}
use opcda_access_adapter.Channel.Token.{
  ChannelSecurityToken, SecureChannel, expires_at, token_expired, previous_alive, channel_expired,
}
use opcda_access_adapter.Channel.Channels.{find, keep, kept, find-keep}
use opcda_access_adapter.Channel.Registry.{
  ChannelRegistry, still_alive, expire_stale, count_expired, count,
}
use opcda_access_adapter.Channel.Invariant.{IsSound}

find-expire_stale_unexpired :
    (r : ChannelRegistry) (id now : ℕ) (c : SecureChannel)
    → IsSound r
    → (find id (expire_stale r now).1.channels ≡ some c)
      ↔ ((find id r.channels ≡ some c) × (channel_expired c now ≡ false))
unfolding expire_stale
find-expire_stale_unexpired r id now c s = (
  λ h. forth (find id r.channels) (sym (find-keep (still_alive now) id r.channels s.distinct) ∙ h),
  λ h.
      find-keep (still_alive now) id r.channels s.distinct
      ∙ ap (kept (still_alive now)) h.0
      ∙ ap (λ t. if not t then some c else none) h.1,
)
  where
    forth :
        (x : Option SecureChannel)
        → kept (still_alive now) x ≡ some c
        → (x ≡ some c) × (channel_expired c now ≡ false)
    forth none h = cc h
    forth (some d) h = elim (Bool-cases (channel_expired d now)) [
      | inl e ↦
          let out : kept (still_alive now) (some d) ≡ none =
            ap (λ t. if not t then some d else none) e in
          cc (out, h)
      | inr e ↦
          let stays : kept (still_alive now) (some d) ≡ some d =
            ap (λ t. if not t then some d else none) e in
          let same : some d ≡ some c = sym stays ∙ h in
          (same, ap (λ k. channel_expired k now) (let q : d ≡ c = ground arith in sym q) ∙ e)
    ]

-- The count that ExpireStale answers is the number of channels by which the registry shrinks.
pub count-expire_stale :
    (r : ChannelRegistry) (now : ℕ)
    → (expire_stale r now).0 + count (expire_stale r now).1 ≡ count r
unfolding expire_stale
count-expire_stale r now = go r.channels
  where
    go :
        (cs : List SecureChannel)
        → count_expired now cs + length (keep (still_alive now) cs) ≡ length cs
    go [] = refl
    go (c ∷ cs) = elim (Bool-cases (channel_expired c now)) [
      | inl e ↦ rw e (omega (arith, go cs))
      | inr e ↦ rw e (omega (arith, go cs))
    ]

-- The token that the channel uses, or the superseded one that it still knows, expires later.
abbrev IsAlive : SecureChannel → ℕ → Type 0
IsAlive c now =
    (now < expires_at c.current)
    ⊎ ((p : ChannelSecurityToken) × (c.previous ≡ some p) × (now < expires_at p))

channel_expired-IsAlive :
    (c : SecureChannel) (now : ℕ) → (channel_expired c now ≡ false) ↔ IsAlive c now
unfolding channel_expired token_expired
channel_expired-IsAlive c now = go c.previous refl
  where
    go :
        (x : Option ChannelSecurityToken)
        → c.previous ≡ x
        → ((if previous_alive x now then false else token_expired c.current now) ≡ false)
          ↔ IsAlive c now
    go none e = (λ h. inl (ground arith), alive)
      where
        alive : IsAlive c now → not (ltb now (expires_at c.current)) ≡ false
        alive (inl h) = ground arith
        alive (inr (p, q, h)) = cc (e, q)
    go (some t) e = elim (Bool-cases (ltb now (expires_at t))) [
      | inl later ↦ rw later (λ h. inr (t, e, ground arith), λ h. refl)
      | inr over ↦ rw over (λ h. inl (ground arith), alive over)
    ]
      where
        alive :
            ltb now (expires_at t) ≡ false
            → IsAlive c now
            → not (ltb now (expires_at c.current)) ≡ false
        alive over (inl h) = ground arith
        alive over (inr (p, q, h)) =
            let same : t ≡ p = let both : some t ≡ some p = sym e ∙ q in ground arith in
            let sooner : now < expires_at t = subst (λ k. now < expires_at k) (sym same) h in
            absurd (ground arith)

-- In a registry that satisfies the invariant, ExpireStale removes exactly the channels all of
-- whose tokens have expired: it finds a channel afterwards if and only if it found it before and
-- the channel's current token, or the superseded one where it still knows one, expires later than now.
pub find-expire_stale :
    (r : ChannelRegistry) (id now : ℕ) (c : SecureChannel)
    → IsSound r
    → (find id (expire_stale r now).1.channels ≡ some c) ↔ (
        (find id r.channels ≡ some c)
        × ((now < expires_at c.current)
            ⊎ ((p : ChannelSecurityToken) × (c.previous ≡ some p) × (now < expires_at p))))
find-expire_stale r id now c s =
    let kept_unexpired = find-expire_stale_unexpired r id now c s in
    let tokens = channel_expired-IsAlive c now in
    (
      λ h. let (a, b) = kept_unexpired.0 h in (a, tokens.0 b),
      λ h. kept_unexpired.1 (h.0, tokens.1 h.1),
    )
