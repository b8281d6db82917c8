-- ===== src/Channel/Lookups.antt =====
-- What a lookup in a ChannelRegistry of internal/opcua/channel.go answers behind each of its methods.
use opcda_access_adapter.Prelude.{
  ℕ, ◌+◌, ◌≡◌, ◌≢◌, refl, sym, ap, subst, ◌∙◌, true, false, inl, inr, ◌⊎◌, Option, none, some, ◌∷◌,
  leb, ◌==◌, length, if◌then◌else◌, arith, Bool-cases,
}
use opcda_access_adapter.Errors.{Result, ok, err, ◌>>=◌}
use opcda_access_adapter.Uasc.Sequence.{require_supported_security_mode}
use opcda_access_adapter.Channel.Token.{accept_token, SecureChannel, closed_error}
use opcda_access_adapter.Prelude.{member}
use opcda_access_adapter.Channel.Ids.{search_free}
use opcda_access_adapter.Channel.Channels.{
  update, find-update, find-update_self, ids, find, kept, find-keep, find-member, find-id, All-find,
}
use opcda_access_adapter.Channel.Registry.{
  accept, accept_found, ChannelRegistry, ChannelInfo, snapshot, unknown_error, allocate_channel_id,
  opened, open_channel, issue_checked, issue, require_open, lookup_channel, lookup, other_id,
  close_found, close,
}
use opcda_access_adapter.Channel.Invariant.{
  IsHeld, lookup_channel-IsHeld, accept_token-changes, IsSound,
}

-- The answer of Lookup to what the map holds.
abbrev found : Option SecureChannel → Result ChannelInfo
found x = require_open x >>= (λ c. ok (snapshot c))

-- In a registry that satisfies the invariant, the channel that Close removed is not known behind
-- it, and a lookup of any other one answers as before; Close fails exactly where a lookup of the
-- channel did, and with the same error.
pub lookup-close :
    (r : ChannelRegistry) (id other : ℕ)
    → IsSound r
    → (lookup (close r id).1 id ≡ err unknown_error)
      × ((other ≡ id) ⊎ (lookup (close r id).1 other ≡ lookup r other))
      × ((close r id).0 ≡ (lookup r id >>= (λ i. ok tt)))
unfolding close lookup lookup_channel
lookup-close r id other s =
    (gone (find id r.channels) refl, others (find id r.channels), outcome (find id r.channels) refl)
  where
    gone :
        (x : Option SecureChannel)
        → find id r.channels ≡ x
        → found (find id (close_found r id x).1.channels) ≡ err unknown_error
    gone none e = ap found e
    gone (some c) e =
        let out : other_id id c ≡ false =
          let same : c.id ≡ id = find-id id r.channels c e in ground arith in
        let left : kept (other_id id) (some c) ≡ none = ap (λ t. if t then some c else none) out in
        ap found
          (find-keep (other_id id) id r.channels s.distinct ∙ ap (kept (other_id id)) e ∙ left)

    stays :
        (other : ℕ) (y : Option SecureChannel)
        → find other r.channels ≡ y
        → other ≢ id
        → kept (other_id id) y ≡ y
    stays other none e h = refl
    stays other (some c) e h =
        let in_place : other_id id c ≡ true =
          let same : c.id ≡ other = find-id other r.channels c e in ground arith in
        ap (λ t. if t then some c else none) in_place

    others :
        (x : Option SecureChannel)
        → (other ≡ id)
          ⊎ (found (find other (close_found r id x).1.channels) ≡ found (find other r.channels))
    others none = inr refl
    others (some c) = elim (Bool-cases (other == id)) [
      | inl e ↦ inl (ground arith)
      | inr e ↦ inr (
          ap found (
            find-keep (other_id id) other r.channels s.distinct
            ∙ stays other (find other r.channels) refl (ground arith)))
    ]

    outcome :
        (x : Option SecureChannel)
        → find id r.channels ≡ x
        → (close_found r id x).0 ≡ (found (find id r.channels) >>= (λ i. ok tt))
    outcome none e = ap (λ y. found y >>= (λ i. ok tt)) (sym e)
    outcome (some c) e =
        let is_open : c.closed ≡ false = (All-find _ id r.channels c s.held e).not_closed in
        ap (λ b. (if b then err closed_error else ok c) >>= (λ k. ok (snapshot k)) >>= (λ i. ok tt))
          (sym is_open)
        ∙ ap (λ y. found y >>= (λ i. ok tt)) (sym e)

-- A channel that Issue opens is known from then on, by what Issue answered; its identifier was not
-- known before, and a lookup of any other one answers as before.
pub lookup-issue :
    (r s : ChannelRegistry) (mode requested now other : ℕ) (info : ChannelInfo)
    → issue r mode requested now ≡ some (ok info, s)
    → (lookup s info.id ≡ ok info)
      × (lookup r info.id ≡ err unknown_error)
      × ((other ≡ info.id) ⊎ (lookup s other ≡ lookup r other))
unfolding issue allocate_channel_id lookup lookup_channel
lookup-issue r s mode requested now other info h = checked (require_supported_security_mode mode) h
  where
    Known : ChannelInfo → ChannelRegistry → Type 0
    Known i t =
        (found (find i.id t.channels) ≡ ok i)
        × (found (find i.id r.channels) ≡ err unknown_error)
        × ((other ≡ i.id) ⊎ (found (find other t.channels) ≡ found (find other r.channels)))

    made :
        (id : ℕ) (t : ChannelRegistry) (c : SecureChannel)
        → c ≡ opened r id mode requested now
        → t.channels ≡ c ∷ r.channels
        → member id (ids r.channels) ≡ false
        → Known (snapshot c) t
    made id t c ec et free = (
      ap (λ cs. found (find c.id cs)) et
          ∙ ap found (let me : find c.id (c ∷ r.channels) ≡ some c = ground arith in me)
          ∙ ap (λ k. found (some k)) ec
          ∙ ap (λ k. ok (snapshot k)) (sym ec),
      ap found (ap (λ k. find k.id r.channels) ec ∙ find-member id r.channels free),
      elim (Bool-cases (other == c.id)) [
        | inl e ↦ inl (ground arith)
        | inr e ↦ inr (
            ap (λ cs. found (find other cs)) et
            ∙ ap found (
                let past : find other (c ∷ r.channels) ≡ find other r.channels = ground arith in
                past))
      ],
    )

    searched :
        (x : Option ℕ)
        → ((id : ℕ) → x ≡ some id → member id (ids r.channels) ≡ false)
        → open_channel r mode requested now x ≡ some (ok info, s)
        → Known info s
    searched none free e = cc e
    searched (some id) free e =
        let c : SecureChannel = opened r id mode requested now in
        let answered : snapshot c ≡ info = ground arith in
        let held : c ∷ r.channels ≡ s.channels = ground arith in
        subst (λ i. Known i s) answered (made id s c refl (sym held) (free id refl))

    checked :
        (x : Result (Unit {0}))
        → issue_checked r mode requested now x ≡ some (ok info, s)
        → Known info s
    checked (err e) p = absurd (ground arith)
    checked (ok u) p = elim (Bool-cases (leb r.limits.max_channels (length r.channels))) [
      | inl full ↦ absurd (ground arith)
      | inr room ↦
          searched (allocate_channel_id r)
            (λ id e.
              (search_free (length (ids r.channels) + 2) r.next_channel_id (ids r.channels) id e).2)
            (ground arith)
    ]

-- In a registry that satisfies the invariant, what Accept answers for a chunk that it lets pass is
-- what a lookup of the channel finds behind it, and a lookup of any other one answers as before.
pub lookup-accept :
    (r : ChannelRegistry) (id token_id now other : ℕ) (info : ChannelInfo)
    → IsSound r
    → (accept r id token_id now).0 ≡ ok info
    → (lookup (accept r id token_id now).1 id ≡ ok info)
      × ((other ≡ id) ⊎ (lookup (accept r id token_id now).1 other ≡ lookup r other))
unfolding accept lookup lookup_channel
lookup-accept r id token_id now other info s h =
    go (lookup_channel r id) (λ c e. lookup_channel-IsHeld r id c s e) h
  where
    snapshot_of :
        (outcome : Result (Unit {0})) (d : SecureChannel)
        → (outcome >>= (λ u. ok (snapshot d))) ≡ ok info
        → snapshot d ≡ info
    snapshot_of (err e) d p = cc
    snapshot_of (ok u) d p = info_eq (snapshot d) info p
      where
        info_eq : (x y : ChannelInfo) → ok x ≡ ok y → x ≡ y
        info_eq x y q = cc q

    go :
        (x : Result SecureChannel)
        → ((c : SecureChannel) → x ≡ ok c → (IsHeld r.limits c) × (find id r.channels ≡ some c))
        → (accept_found r token_id now x).0 ≡ ok info
        → (found (find id (accept_found r token_id now x).1.channels) ≡ ok info)
          × ((other ≡ id)
              ⊎ (found (find other (accept_found r token_id now x).1.channels)
                  ≡ found (find other r.channels)))
    go (err e) held p = cc
    go (ok c) held p =
        let (is_held, there) = held c refl in
        let d : SecureChannel = (accept_token c token_id now).1 in
        let (same_id, same_closed, _, _, _) = accept_token-changes c token_id now in
        let named : d.id ≡ id = same_id ∙ find-id id r.channels c there in
        let is_open : d.closed ≡ false = same_closed ∙ is_held.not_closed in
        let mine : find d.id (update d r.channels) ≡ some d =
          find-update_self d c r.channels (ap (λ k. find k r.channels) named ∙ there) in
        (
          ap (λ k. found (find k (update d r.channels))) (sym named)
              ∙ ap found mine
              ∙ ap (λ b. (if b then err closed_error else ok d) >>= (λ k. ok (snapshot k))) is_open
              ∙ ap ok (snapshot_of (accept_token c token_id now).0 d p),
          elim (Bool-cases (other == d.id)) [
            | inl e ↦ inl (let o : other ≡ d.id = ground arith in o ∙ named)
            | inr e ↦ inr (ap found (find-update d other r.channels (ground arith)))
          ],
        )
