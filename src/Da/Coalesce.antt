-- ===== src/Da/Coalesce.antt =====
-- What the coalescing set of internal/opcda/subscribe.go holds, described without it: of every handle
-- the newest value, in the order in which the handles were first seen.
use opcda_access_adapter.Prelude.{
  ℕ, ◌≡◌, refl, sym, ap, ap₂, subst, ◌∙◌, true, ◌||◌, inl, inr, Option, none, some, List, [], ◌∷◌,
  ◌++◌, append-nil, append_assoc, ◌==◌, member, Distinct, if◌then◌else◌, arith, Bool-cases,
}
use opcda_access_adapter.Prelude.Dict.{
  Dict, lookup, insert, lookup-insert_self, lookup-insert_ne, Distinct-snoc,
}
use opcda_access_adapter.Da.Pending.{value_or, values_of}

-- The numbers in the order in which each is first seen, those in `seen` left out.
abbrev pub firsts : List ℕ → List ℕ → List ℕ
firsts seen [] = []
firsts seen (k ∷ ks) = if member k seen then firsts seen ks else k ∷ firsts (seen ++ (k ∷ [])) ks

module _ {ℓ} {V : Type ℓ} where
  abbrev pub handles : List (ℕ × V) → List ℕ
  handles [] = []
  handles ((k, v) ∷ es) = k ∷ handles es

  abbrev pub or_else : Option V → Option V → Option V
  or_else none o = o
  or_else (some v) o = some v

  -- The newest value of a handle.
  abbrev pub newest : ℕ → List (ℕ × V) → Option V
  newest k [] = none
  newest k ((j, v) ∷ es) = or_else (newest k es) (if k == j then some v else none)

  abbrev pub newest_values : V → List (ℕ × V) → List ℕ → List V
  newest_values z es [] = []
  newest_values z es (k ∷ ks) = value_or z (newest k es) ∷ newest_values z es ks

  abbrev pub concat : List (List (ℕ × V)) → List (ℕ × V)
  concat [] = []
  concat (batch ∷ batches) = batch ++ concat batches

  or_else_assoc : (a b c : Option V) → or_else (or_else a b) c ≡ or_else a (or_else b c)
  or_else_assoc none b c = refl
  or_else_assoc (some v) b c = refl

  pub handles-append : (es fs : List (ℕ × V)) → handles (es ++ fs) ≡ handles es ++ handles fs
  handles-append [] fs = refl
  handles-append (e ∷ es) fs = ap (λ r. e.0 ∷ r) (handles-append es fs)

  pub newest-append :
      (k : ℕ) (es fs : List (ℕ × V)) → newest k (es ++ fs) ≡ or_else (newest k fs) (newest k es)
  newest-append k [] fs = or_else_none (newest k fs)
    where
      or_else_none : (o : Option V) → o ≡ or_else o none
      or_else_none none = refl
      or_else_none (some v) = refl
  newest-append k ((j, v) ∷ es) fs =
      ap (λ o. or_else o (if k == j then some v else none)) (newest-append k es fs)
      ∙ or_else_assoc (newest k fs) (newest k es) (if k == j then some v else none)

  pub lookup-insert :
      (k j : ℕ) (v : V) (d : Dict V)
      → lookup k (insert j v d) ≡ or_else (if k == j then some v else none) (lookup k d)
  lookup-insert k j v d = elim (Bool-cases (k == j)) [
    | inl e ↦
        let same : k ≡ j = ground arith in
        rw e (ap (λ i. lookup i (insert j v d)) same ∙ lookup-insert_self j v d)
    | inr e ↦ rw e (lookup-insert_ne k j v d (ground arith))
  ]

  pub values_of-newest :
      (z : V) (es : List (ℕ × V)) (d : Dict V) (ks : List ℕ)
      → ((k : ℕ) → lookup k d ≡ newest k es)
      → values_of z ks d ≡ newest_values z es ks
  values_of-newest z es d [] h = refl
  values_of-newest z es d (k ∷ ks) h =
      ap₂ (λ o r. value_or z o ∷ r) (h k) (values_of-newest z es d ks h)

pub firsts-append :
    (seen ks js : List ℕ)
    → firsts seen (ks ++ js) ≡ firsts seen ks ++ firsts (seen ++ firsts seen ks) js
firsts-append seen [] js = ap (λ s. firsts s js) (sym (append-nil seen))
firsts-append seen (k ∷ ks) js = elim (Bool-cases (member k seen)) [
  | inl e ↦ rw e (firsts-append seen ks js)
  | inr e ↦ rw e (
      ap (λ r. k ∷ r)
        (firsts-append (seen ++ (k ∷ [])) ks js
          ∙ ap (λ s. firsts (seen ++ (k ∷ [])) ks ++ firsts s js)
              (append_assoc seen (k ∷ []) (firsts (seen ++ (k ∷ [])) ks))))
]

pub firsts-Distinct : (seen ks : List ℕ) → Distinct seen → Distinct (seen ++ firsts seen ks)
firsts-Distinct seen [] d = subst Distinct (sym (append-nil seen)) d
firsts-Distinct seen (k ∷ ks) d = elim (Bool-cases (member k seen)) [
  | inl e ↦ rw e (firsts-Distinct seen ks d)
  | inr e ↦ rw e (
      subst Distinct (append_assoc seen (k ∷ []) (firsts (seen ++ (k ∷ [])) ks))
        (firsts-Distinct (seen ++ (k ∷ [])) ks (Distinct-snoc seen k d e)))
]

pub firsts-member :
    (seen ks : List ℕ) (n : ℕ) → member n (firsts seen ks) ≡ true → member n ks ≡ true
firsts-member seen [] n h = h
firsts-member seen (k ∷ ks) n h = elim (Bool-cases (n == k)) [
  | inl e ↦ rw e refl
  | inr e ↦ rw e (elim (Bool-cases (member k seen)) [
    | inl s ↦ firsts-member seen ks n (rw s at h)
    | inr s ↦ firsts-member (seen ++ (k ∷ [])) ks n (
        let there : (n == k) || member n (firsts (seen ++ (k ∷ [])) ks) ≡ true = rw s at h in
        rw e at there)
  ])
]
