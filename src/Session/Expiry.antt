-- ===== src/Session/Expiry.antt =====
-- Which sessions ExpireStale and TerminateAll of internal/opcua/session.go end: those whose time is
-- up, and all of them.
use opcda_access_adapter.Prelude.{
  ℕ, ◌+◌, ◌≤◌, ◌≡◌, refl, sym, ap, ◌∙◌, ◌⊎◌, inl, inr, Bool, true, false, Option, none, some, List,
  [], ◌∷◌, arith, Bool-cases,
}
use opcda_access_adapter.Prelude.Keys.{same, same→≡}
use opcda_access_adapter.NodeId.{NodeId}
use opcda_access_adapter.Session.State.{Session, key, expired}
use opcda_access_adapter.Session.Table.{
  find, put, held, one_if, find-key, find-put_self, find-remove_other, held_zero-find,
  find-some-held, find-none-held, held-remove, held-put_old,
}
use opcda_access_adapter.Session.Registry.{
  SessionRegistry, terminate_found, terminate, end_each, expire_stale, begin_found, begin_request,
}
use opcda_access_adapter.Session.Conserved.{told, terminate-Conserves, end_each-Conserves}

-- A session stays where no session under its key passes the test.
abbrev SparedIn : (Session → Bool) → List ℕ → List Session → Type 0
SparedIn test k [] = Unit
SparedIn test k (s ∷ ss) = ((same k (key s) ≡ false) ⊎ (test s ≡ false)) × SparedIn test k ss

terminate-find_other :
    (k : List ℕ) (r : SessionRegistry) (s : Session)
    → same k (key s) ≡ false
    → find k (terminate r s).1.sessions ≡ find k r.sessions
terminate-find_other k r s h = go (find (key s) r.sessions)
  where
    go : (x : Option Session) → find k (terminate_found r s x).1.sessions ≡ find k r.sessions
    go none = refl
    go (some live) = find-remove_other k (key s) r.sessions h

end_each-spared :
    (test : Session → Bool) (k : List ℕ) (ss : List Session) (r : SessionRegistry)
    → SparedIn test k ss
    → find k (end_each test ss r).1.sessions ≡ find k r.sessions
end_each-spared test k [] r h = refl
end_each-spared test k (s ∷ ss) r (spared, rest) = elim (Bool-cases (test s)) [
  | inl e ↦
      let other : same k (key s) ≡ false = elim spared [ inl o ↦ o | inr o ↦ cc ] in
      rw e (end_each-spared test k ss (terminate r s).1 rest ∙ terminate-find_other k r s other)
  | inr e ↦ rw e (end_each-spared test k ss r rest)
]

terminate-gone :
    (k : List ℕ) (r : SessionRegistry) (s : Session)
    → same k (key s) ≡ true
    → held (same k) r.sessions ≤ 1
    → held (same k) (terminate r s).1.sessions ≡ 0
terminate-gone k r s h single = go (find (key s) r.sessions) refl
  where
    go :
        (x : Option Session)
        → find (key s) r.sessions ≡ x
        → held (same k) (terminate_found r s x).1.sessions ≡ 0
    go none e = find-none-held k r.sessions (ap (λ j. find j r.sessions) (same→≡ k (key s) h) ∙ e)
    go (some live) e =
        let one : one_if (same k (key live)) ≡ 1 =
          ap (λ j. one_if (same k j)) (find-key (key s) r.sessions live e) ∙ rw h refl in
        omega (arith, held-remove (same k) (key s) live r.sessions e, one, single)

end_each-gone :
    (test : Session → Bool) (k : List ℕ) (s : Session) (ss : List Session) (r : SessionRegistry)
    → find k ss ≡ some s
    → test s ≡ true
    → held (same k) r.sessions ≤ 1
    → held (same k) (end_each test ss r).1.sessions ≡ 0
end_each-gone test k s [] r h t single = cc
end_each-gone test k s (x ∷ ss) r h t single = elim (Bool-cases (same k (key x))) [
  | inl e ↦
      let here : x ≡ s = cc (rw e at h) in
      let ends : test x ≡ true = ap test here ∙ t in
      rw ends (
        omega (
          arith,
          terminate-gone k r x e single,
          end_each-Conserves test ss (terminate r x).1 (same k),
        ))
  | inr e ↦
      let later : find k ss ≡ some s = rw e at h in
      elim (Bool-cases (test x)) [
        | inl ends ↦ rw ends (
            end_each-gone test k s ss (terminate r x).1 later t
              (omega (arith, terminate-Conserves r x (same k), single)))
        | inr stays ↦ rw stays (end_each-gone test k s ss r later t single)
      ]
]

-- Where there is one session under a key, sparing it is sparing the key.
SparedIn-single :
    (test : Session → Bool) (k : List ℕ) (s : Session) (ss : List Session)
    → find k ss ≡ some s
    → held (same k) ss ≤ 1
    → test s ≡ false
    → SparedIn test k ss
SparedIn-single test k s [] h single t = tt
SparedIn-single test k s (x ∷ ss) h single t = elim (Bool-cases (same k (key x))) [
  | inl e ↦
      let here : x ≡ s = cc (rw e at h) in
      let one : one_if (same k (key x)) ≡ 1 = rw e refl in
      (inr (ap test here ∙ t), absent ss (omega (arith, one, single)))
  | inr e ↦
      let later : find k ss ≡ some s = rw e at h in
      (inl e, SparedIn-single test k s ss later (omega (arith, single)) t)
]
  where
    absent : (ys : List Session) → held (same k) ys ≡ 0 → SparedIn test k ys
    absent [] n = tt
    absent (y ∷ ys) n = elim (Bool-cases (same k (key y))) [
      | inl e ↦ let one : one_if (same k (key y)) ≡ 1 = rw e refl in absurd (omega (arith, one, n))
      | inr e ↦ (inl e, absent ys (omega (arith, n)))
    ]

-- Expiry ends exactly the sessions whose time is up: of a registry with one session under a key, the
-- session leaves and is reported once where its timeout has passed, and stays as it is and is not
-- reported where it has not.
pub expire_stale_exactly :
    (r : SessionRegistry) (now : ℕ) (k : List ℕ) (s : Session)
    → held (same k) r.sessions ≤ 1
    → find k r.sessions ≡ some s
    → ((expired s now ≡ true)
        × (find k (expire_stale r now).1.sessions ≡ none)
        × (told (same k) (expire_stale r now).0 ≡ 1))
      ⊎ ((expired s now ≡ false)
          × (find k (expire_stale r now).1.sessions ≡ some s)
          × (told (same k) (expire_stale r now).0 ≡ 0))
unfolding expire_stale
expire_stale_exactly r now k s single h =
    let all : told (same k) (expire_stale r now).0 + held (same k) (expire_stale r now).1.sessions
        ≡ held (same k) r.sessions =
      end_each-Conserves (λ x. expired x now) r.sessions r (same k) in
    elim (Bool-cases (expired s now)) [
      | inl e ↦
          let gone : held (same k) (expire_stale r now).1.sessions ≡ 0 =
            end_each-gone (λ x. expired x now) k s r.sessions r h e single in
          inl (
            e,
            held_zero-find k (expire_stale r now).1.sessions gone,
            omega (arith, all, gone, single, find-some-held k s r.sessions h),
          )
      | inr e ↦
          let kept : find k (expire_stale r now).1.sessions ≡ some s =
            end_each-spared (λ x. expired x now) k r.sessions r
              (SparedIn-single (λ x. expired x now) k s r.sessions h single e)
            ∙ h in
          inr (
            e,
            kept,
            omega (arith, all, single, find-some-held k s (expire_stale r now).1.sessions kept),
          )
    ]

-- A request that is being served holds its session open: from a registry with one session under
-- the token, BeginRequest of a held session succeeds, and no expiry that comes before its end, at
-- whatever time, ends that session.
pub begin_request-expire_stale :
    (r : SessionRegistry) (token : NodeId) (s : Session) (now : ℕ)
    → held (same token.opaque_id) r.sessions ≤ 1
    → find token.opaque_id r.sessions ≡ some s
    → ((begin_request r token).0 ≡ true)
      × (find token.opaque_id (expire_stale (begin_request r token).1 now).1.sessions
          ≡ some (record s { in_flight = s.in_flight + 1 }))
unfolding begin_request expired
begin_request-expire_stale r token s now single h =
    let t : Session = record s { in_flight = s.in_flight + 1 } in
    let named : key s ≡ token.opaque_id = find-key token.opaque_id r.sessions s h in
    let after : SessionRegistry = record r { sessions = put t r.sessions } in
    let begun : begin_request r token ≡ (true, after) = ap (λ x. begin_found r x) h in
    let there : find token.opaque_id after.sessions ≡ some t =
      ap (λ j. find j (put t r.sessions)) (sym named) ∙ find-put_self t r.sessions in
    let one : held (same token.opaque_id) after.sessions ≤ 1 = omega (
      arith,
      single,
      held-put_old (same token.opaque_id) t s r.sessions (ap (λ j. find j r.sessions) named ∙ h),
    ) in
    let busy : expired t now ≡ false = ground arith in
    let stays : find token.opaque_id (expire_stale after now).1.sessions ≡ some t =
      elim (expire_stale_exactly after now token.opaque_id t one there) [
        | inl (e, gone, o) ↦ cc (busy, e)
        | inr (e, kept, o) ↦ kept
      ] in
    (
      ap (λ x. x.0) begun,
      ap (λ x. find token.opaque_id (expire_stale x.1 now).1.sessions) begun ∙ stays,
    )
