-- ===== src/Channel/Channels.antt =====
-- The map of channels of internal/opcua/channel.go, as the list of its values: every channel is held
-- under its own identifier.
use opcda_access_adapter.Prelude.{
  ℕ, suc, ◌≤◌, ◌≡◌, ◌≢◌, refl, sym, ap, subst, ◌∙◌, Bool, true, false, inl, inr, Option, none, some,
  List, [], ◌∷◌, ◌==◌, length, All, if◌then◌else◌, arith, Bool-cases,
}
use opcda_access_adapter.Prelude.{Distinct}
use opcda_access_adapter.Channel.Token.{SecureChannel}
use opcda_access_adapter.Prelude.{member}

abbrev pub ids : List SecureChannel → List ℕ
ids [] = []
ids (c ∷ cs) = c.id ∷ ids cs

-- `channels[id]`
abbrev pub find : ℕ → List SecureChannel → Option SecureChannel
find id [] = none
find id (c ∷ cs) = if id == c.id then some c else find id cs

-- A channel in the place of the one with its identifier, for a change through a pointer.
abbrev pub update : SecureChannel → List SecureChannel → List SecureChannel
update d [] = []
update d (c ∷ cs) = if d.id == c.id then d ∷ update d cs else c ∷ update d cs

-- The channels that stay where those that fail a test are deleted.
abbrev pub keep : (SecureChannel → Bool) → List SecureChannel → List SecureChannel
keep test [] = []
keep test (c ∷ cs) = if test c then c ∷ keep test cs else keep test cs

pub length-ids : (cs : List SecureChannel) → length (ids cs) ≡ length cs
length-ids [] = refl
length-ids (c ∷ cs) = ap suc (length-ids cs)

pub ids-update : (d : SecureChannel) (cs : List SecureChannel) → ids (update d cs) ≡ ids cs
ids-update d [] = refl
ids-update d (c ∷ cs) = elim (Bool-cases (d.id == c.id)) [
  | inl e ↦ let same : d.id ≡ c.id = ground arith in rw (e, ids-update d cs, same) refl
  | inr e ↦ rw (e, ids-update d cs) refl
]

pub length-update : (d : SecureChannel) (cs : List SecureChannel) → length (update d cs) ≡ length cs
length-update d cs = sym (length-ids (update d cs)) ∙ ap length (ids-update d cs) ∙ length-ids cs

pub length-keep_le :
    (test : SecureChannel → Bool) (cs : List SecureChannel) → length (keep test cs) ≤ length cs
length-keep_le test [] = omega arith
length-keep_le test (c ∷ cs) = ground (arith, length-keep_le test cs)

pub member-keep :
    (test : SecureChannel → Bool) (n : ℕ) (cs : List SecureChannel)
    → member n (ids cs) ≡ false
    → member n (ids (keep test cs)) ≡ false
member-keep test n [] h = h
member-keep test n (c ∷ cs) h =
    let rest : member n (ids cs) ≡ false = ground arith in
    elim (Bool-cases (test c)) [
      | inl e ↦
          let other : (n == c.id) ≡ false = ground arith in
          rw (e, other) (member-keep test n cs rest)
      | inr e ↦ rw e (member-keep test n cs rest)
    ]

pub Distinct-keep :
    (test : SecureChannel → Bool) (cs : List SecureChannel)
    → Distinct (ids cs)
    → Distinct (ids (keep test cs))
Distinct-keep test [] h = h
Distinct-keep test (c ∷ cs) h = elim (Bool-cases (test c)) [
  | inl e ↦ rw e (member-keep test c.id cs h.0, Distinct-keep test cs h.1)
  | inr e ↦ rw e (Distinct-keep test cs h.1)
]

module _ (P : SecureChannel → Type 0) where
  pub All-keep :
      (test : SecureChannel → Bool) (cs : List SecureChannel) → All P cs → All P (keep test cs)
  All-keep test [] h = h
  All-keep test (c ∷ cs) h = elim (Bool-cases (test c)) [
    | inl e ↦ rw e (h.0, All-keep test cs h.1)
    | inr e ↦ rw e (All-keep test cs h.1)
  ]

  pub All-update :
      (d : SecureChannel) (cs : List SecureChannel) → P d → All P cs → All P (update d cs)
  All-update d [] p h = h
  All-update d (c ∷ cs) p h = elim (Bool-cases (d.id == c.id)) [
    | inl e ↦ rw e (p, All-update d cs p h.1)
    | inr e ↦ rw e (h.0, All-update d cs p h.1)
  ]

  pub All-find :
      (n : ℕ) (cs : List SecureChannel) (c : SecureChannel) → All P cs → find n cs ≡ some c → P c
  All-find n [] c h f = cc
  All-find n (x ∷ cs) c h f = elim (Bool-cases (n == x.id)) [
    | inl e ↦ let same : x ≡ c = ground arith in subst P same h.0
    | inr e ↦ All-find n cs c h.1 (ground arith)
  ]

pub find-id : (n : ℕ) (cs : List SecureChannel) (c : SecureChannel) → find n cs ≡ some c → c.id ≡ n
find-id n [] c h = cc
find-id n (x ∷ cs) c h = elim (Bool-cases (n == x.id)) [
  | inl e ↦
      let same : x ≡ c = ground arith in
      let named : n ≡ x.id = ground arith in ap (λ k. k.id) (sym same) ∙ sym named
  | inr e ↦ find-id n cs c (ground arith)
]

pub find-member : (n : ℕ) (cs : List SecureChannel) → member n (ids cs) ≡ false → find n cs ≡ none
find-member n [] h = refl
find-member n (c ∷ cs) h =
    let other : (n == c.id) ≡ false = ground arith in
    let rest : member n (ids cs) ≡ false = ground arith in rw (other, find-member n cs rest) refl

pub find-update :
    (d : SecureChannel) (n : ℕ) (cs : List SecureChannel)
    → n ≢ d.id
    → find n (update d cs) ≡ find n cs
find-update d n [] h = refl
find-update d n (c ∷ cs) h = elim (Bool-cases (d.id == c.id)) [
  | inl e ↦
      let mine : (n == d.id) ≡ false = ground arith in
      let other : (n == c.id) ≡ false = ground arith in
      rw (e, mine, other, find-update d n cs h) refl
  | inr e ↦ rw (e, find-update d n cs h) refl
]

pub find-update_self :
    (d c : SecureChannel) (cs : List SecureChannel)
    → find d.id cs ≡ some c
    → find d.id (update d cs) ≡ some d
find-update_self d c [] h = cc
find-update_self d c (x ∷ cs) h =
    let me : (d.id == d.id) ≡ true = ground arith in
    elim (Bool-cases (d.id == x.id)) [
      | inl e ↦ rw (e, me) refl
      | inr e ↦ rw (e, e) (find-update_self d c cs (ground arith))
    ]

-- What a deletion leaves of the channel with an identifier.
abbrev pub kept : (SecureChannel → Bool) → Option SecureChannel → Option SecureChannel
kept test none = none
kept test (some c) = if test c then some c else none

pub find-keep :
    (test : SecureChannel → Bool) (n : ℕ) (cs : List SecureChannel)
    → Distinct (ids cs)
    → find n (keep test cs) ≡ kept test (find n cs)
find-keep test n [] h = refl
find-keep test n (c ∷ cs) h = elim (Bool-cases (n == c.id)) [
  | inl e ↦
      let same : c.id ≡ n = ground arith in
      let gone : find n cs ≡ none =
        find-member n cs (ap (λ k. member k (ids cs)) (sym same) ∙ h.0) in
      elim (Bool-cases (test c)) [
        | inl t ↦ rw (t, e, t) refl
        | inr t ↦ rw (t, e, t) (find-keep test n cs h.1 ∙ ap (kept test) gone)
      ]
  | inr e ↦ elim (Bool-cases (test c)) [
    | inl t ↦ rw (t, e) (find-keep test n cs h.1)
    | inr t ↦ rw (t, e) (find-keep test n cs h.1)
  ]
]
