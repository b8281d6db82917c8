-- ===== src/Session/Table.antt =====
-- The map of sessions of internal/opcua/session.go, as the list of its values: a session is held
-- under the bytes of its token. The change of a session through a pointer is a new value for its
-- key.
use opcda_access_adapter.Prelude.{
  ℕ, ◌+◌, ◌≤◌, ◌≡◌, refl, sym, ap, subst, ◌∙◌, Bool, true, false, inl, inr, Option, none, some,
  List, [], ◌∷◌, length, if◌then◌else◌, arith, Bool-cases,
}
use opcda_access_adapter.Prelude.Keys.{same, same_refl, same→≡}
use opcda_access_adapter.Session.State.{Session, key}

-- `sessions[k]`
abbrev pub find : List ℕ → List Session → Option Session
find k [] = none
find k (s ∷ ss) = if same k (key s) then some s else find k ss

-- `sessions[key(t)] = t`
abbrev pub put : Session → List Session → List Session
put t [] = t ∷ []
put t (s ∷ ss) = if same (key t) (key s) then t ∷ ss else s ∷ put t ss

-- `delete(sessions, k)`
abbrev pub remove : List ℕ → List Session → List Session
remove k [] = []
remove k (s ∷ ss) = if same k (key s) then ss else s ∷ remove k ss

abbrev pub one_if : Bool → ℕ
one_if true = 1
one_if false = 0

-- How many sessions are held under keys that pass a test.
abbrev pub held : (List ℕ → Bool) → List Session → ℕ
held f [] = 0
held f (s ∷ ss) = one_if (f (key s)) + held f ss

pub find-key : (k : List ℕ) (ss : List Session) (s : Session) → find k ss ≡ some s → key s ≡ k
find-key k [] s h = cc
find-key k (x ∷ ss) s h = elim (Bool-cases (same k (key x))) [
  | inl e ↦ let here : x ≡ s = cc (rw e at h) in ap key (sym here) ∙ sym (same→≡ k (key x) e)
  | inr e ↦ find-key k ss s (rw e at h)
]

pub find-put_self : (t : Session) (ss : List Session) → find (key t) (put t ss) ≡ some t
find-put_self t [] = rw (same_refl (key t)) refl
find-put_self t (s ∷ ss) = elim (Bool-cases (same (key t) (key s))) [
  | inl e ↦ rw (e, same_refl (key t)) refl
  | inr e ↦ rw (e, e) (find-put_self t ss)
]

pub find-put_other :
    (k : List ℕ) (t : Session) (ss : List Session)
    → same k (key t) ≡ false
    → find k (put t ss) ≡ find k ss
find-put_other k t [] h = rw h refl
find-put_other k t (s ∷ ss) h = elim (Bool-cases (same (key t) (key s))) [
  | inl e ↦
      let other : same k (key s) ≡ false =
        subst (λ x. same k x ≡ false) (same→≡ (key t) (key s) e) h in
      rw (e, h, other) refl
  | inr e ↦ rw (e, find-put_other k t ss h) refl
]

pub find-none-held : (k : List ℕ) (ss : List Session) → find k ss ≡ none → held (same k) ss ≡ 0
find-none-held k [] h = refl
find-none-held k (s ∷ ss) h = elim (Bool-cases (same k (key s))) [
  | inl e ↦ cc (rw e at h)
  | inr e ↦ rw e (omega (arith, find-none-held k ss (rw e at h)))
]

-- A session that is put in the place of the one with its key changes no count.
pub held-put_old :
    (f : List ℕ → Bool) (t s : Session) (ss : List Session)
    → find (key t) ss ≡ some s
    → held f (put t ss) ≡ held f ss
held-put_old f t s [] h = cc
held-put_old f t s (x ∷ ss) h = elim (Bool-cases (same (key t) (key x))) [
  | inl e ↦
      let alike : key t ≡ key x = same→≡ (key t) (key x) e in
      rw e (ap (λ b. one_if (f b) + held f ss) alike)
  | inr e ↦ rw e (ap (λ n. one_if (f (key x)) + n) (held-put_old f t s ss (rw e at h)))
]

pub held-put_new :
    (f : List ℕ → Bool) (t : Session) (ss : List Session)
    → find (key t) ss ≡ none
    → held f (put t ss) ≡ one_if (f (key t)) + held f ss
held-put_new f t [] h = refl
held-put_new f t (s ∷ ss) h = elim (Bool-cases (same (key t) (key s))) [
  | inl e ↦ cc (rw e at h)
  | inr e ↦
      let rest : held f (put t ss) ≡ one_if (f (key t)) + held f ss =
        held-put_new f t ss (rw e at h) in
      rw e (omega arith)
]

-- A session that leaves was counted once under its key.
pub held-remove :
    (f : List ℕ → Bool) (j : List ℕ) (s : Session) (ss : List Session)
    → find j ss ≡ some s
    → held f ss ≡ one_if (f (key s)) + held f (remove j ss)
held-remove f j s [] h = cc
held-remove f j s (x ∷ ss) h = elim (Bool-cases (same j (key x))) [
  | inl e ↦
      let here : x ≡ s = cc (rw e at h) in rw e (ap (λ y. one_if (f (key y)) + held f ss) here)
  | inr e ↦
      let rest : held f ss ≡ one_if (f (key s)) + held f (remove j ss) =
        held-remove f j s ss (rw e at h) in
      rw e (omega arith)
]

pub held_all : (ss : List Session) → held (λ k. true) ss ≡ length ss
held_all [] = refl
held_all (s ∷ ss) = omega (arith, held_all ss)

pub find-remove_other :
    (k j : List ℕ) (ss : List Session) → same k j ≡ false → find k (remove j ss) ≡ find k ss
find-remove_other k j [] h = refl
find-remove_other k j (s ∷ ss) h = elim (Bool-cases (same j (key s))) [
  | inl e ↦
      let other : same k (key s) ≡ false = subst (λ x. same k x ≡ false) (same→≡ j (key s) e) h in
      rw (e, other) refl
  | inr e ↦ rw (e, find-remove_other k j ss h) refl
]

pub held_zero-find : (k : List ℕ) (ss : List Session) → held (same k) ss ≡ 0 → find k ss ≡ none
held_zero-find k [] h = refl
held_zero-find k (s ∷ ss) h = elim (Bool-cases (same k (key s))) [
  | inl e ↦ absurd (omega (arith, rw e at h))
  | inr e ↦ rw e (held_zero-find k ss (omega (arith, rw e at h)))
]

pub find-some-held :
    (k : List ℕ) (s : Session) (ss : List Session) → find k ss ≡ some s → 1 ≤ held (same k) ss
find-some-held k s [] h = cc
find-some-held k s (x ∷ ss) h = elim (Bool-cases (same k (key x))) [
  | inl e ↦ rw e (omega arith)
  | inr e ↦ rw e (omega (arith, find-some-held k s ss (rw e at h)))
]
