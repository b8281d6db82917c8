-- ===== src/Prelude/Dict.antt =====
-- A Go map with unsigned keys, as the list of its entries in the order of their insertion.
use Prim.Native.Nat.{ℕ, zero, suc}
use mathlib.Core.Path.{◌≡◌, refl, ap, ◌∙◌}
use mathlib.Core.Logic.{◌≢◌, inl, inr}
use mathlib.Core.Bool.{true, false}
use mathlib.Core.Option.{Option, none, some}
use mathlib.Core.List.{List, [], ◌∷◌, ◌++◌}
use native.Mathlib.Omega.{arith}
use opcda_access_adapter.Prelude.Tests.{◌==◌, if◌then◌else◌, Bool-cases}
use opcda_access_adapter.Prelude.Lists.{drop}
use opcda_access_adapter.Prelude.Members.{member, Distinct, member-append}

abbrev pub Dict {ℓ} : Type ℓ → Type ℓ
Dict V = List (ℕ × V)

module _ {ℓ} {V : Type ℓ} where
  abbrev pub keys : Dict V → List ℕ
  keys [] = []
  keys ((k, v) ∷ d) = k ∷ keys d

  -- What `m[name]` answers as its second result too.
  abbrev pub lookup : ℕ → Dict V → Option V
  lookup name [] = none
  lookup name ((at, here) ∷ rest) = if name == at then some here else lookup name rest

  -- `delete(m, name)`
  abbrev pub erase : ℕ → Dict V → Dict V
  erase name [] = []
  erase name ((at, here) ∷ rest) =
      let later = erase name rest in if name == at then later else (at, here) ∷ later

  -- `m[name] = value`
  abbrev pub insert : ℕ → V → Dict V → Dict V
  insert name value [] = (name, value) ∷ []
  insert name value ((at, here) ∷ rest) =
      let later = insert name value rest in
      if name == at then (at, value) ∷ rest else (at, here) ∷ later

  pub lookup-erase_self : (name : ℕ) (m : Dict V) → lookup name (erase name m) ≡ none
  lookup-erase_self name [] = refl
  lookup-erase_self name ((at, here) ∷ rest) = ground (arith, lookup-erase_self name rest)

  pub lookup-insert_self :
      (name : ℕ) (value : V) (m : Dict V) → lookup name (insert name value m) ≡ some value
  lookup-insert_self name value [] = ground arith
  lookup-insert_self name value ((at, here) ∷ rest) =
      ground (arith, lookup-insert_self name value rest)

  -- The entry of another name is as it was.
  module _ (asked name : ℕ) (differs : asked ≢ name) where
    erase_elsewhere : (m : Dict V) → lookup asked (erase name m) ≡ lookup asked m
    erase_elsewhere [] = refl
    erase_elsewhere ((at, here) ∷ rest) = ground (arith, differs, erase_elsewhere rest)

    insert_elsewhere :
        (value : V) (m : Dict V) → lookup asked (insert name value m) ≡ lookup asked m
    insert_elsewhere value [] = ground (arith, differs)
    insert_elsewhere value ((at, here) ∷ rest) =
        ground (arith, differs, insert_elsewhere value rest)

  pub lookup-erase_ne :
      (asked name : ℕ) (m : Dict V) → asked ≢ name → lookup asked (erase name m) ≡ lookup asked m
  lookup-erase_ne asked name m differs = erase_elsewhere asked name differs m

  pub lookup-insert_ne :
      (asked name : ℕ) (value : V) (m : Dict V)
      → asked ≢ name
      → lookup asked (insert name value m) ≡ lookup asked m
  lookup-insert_ne asked name value m differs = insert_elsewhere asked name differs value m

  -- A key is there exactly where its lookup finds a value.
  pub lookup-none : (k : ℕ) (d : Dict V) → lookup k d ≡ none → member k (keys d) ≡ false
  lookup-none k [] h = refl
  lookup-none k ((j, w) ∷ d) h = ground (arith, lookup-none k d)

  pub lookup-some : (k : ℕ) (d : Dict V) (v : V) → lookup k d ≡ some v → member k (keys d) ≡ true
  lookup-some k [] v h = cc
  lookup-some k ((j, w) ∷ d) v h = ground (arith, lookup-some k d v)

  -- A new key goes to the end; a key that is there stays where it is.
  pub keys-insert_new :
      (k : ℕ) (v : V) (d : Dict V) → lookup k d ≡ none → keys (insert k v d) ≡ keys d ++ (k ∷ [])
  keys-insert_new k v [] h = refl
  keys-insert_new k v ((j, w) ∷ d) h = elim (Bool-cases (k == j)) [
    | inl e ↦ cc (rw e at h)
    | inr e ↦ rw e (ap (λ r. j ∷ r) (keys-insert_new k v d (rw e at h)))
  ]

  pub keys-insert_old :
      (k : ℕ) (v w : V) (d : Dict V) → lookup k d ≡ some w → keys (insert k v d) ≡ keys d
  keys-insert_old k v w [] h = cc
  keys-insert_old k v w ((j, x) ∷ d) h = elim (Bool-cases (k == j)) [
    | inl e ↦ rw e refl
    | inr e ↦ rw e (ap (λ r. j ∷ r) (keys-insert_old k v w d (rw e at h)))
  ]

  -- Removing a key from a map and from the list of its keys is one thing.
  pub keys-erase_absent : (k : ℕ) (d : Dict V) → member k (keys d) ≡ false → erase k d ≡ d
  keys-erase_absent k [] h = refl
  keys-erase_absent k ((j, w) ∷ d) h =
      let other : (k == j) ≡ false = ground arith in
      rw other (ap (λ r. (j, w) ∷ r) (keys-erase_absent k d (ground arith)))

pub Distinct-snoc :
    (xs : List ℕ) (k : ℕ) → Distinct xs → member k xs ≡ false → Distinct (xs ++ (k ∷ []))
Distinct-snoc [] k d h = (refl, tt)
Distinct-snoc (x ∷ xs) k d h =
    let other : (x == k) ≡ false = ground arith in
    (
      member-append x xs (k ∷ []) ∙ ground (arith, d.0, other),
      Distinct-snoc xs k d.1 (ground arith),
    )

module _ {ℓ} {V : Type ℓ} where
  pub insert_new :
      (k : ℕ) (v : V) (d : Dict V) → member k (keys d) ≡ false → insert k v d ≡ d ++ ((k, v) ∷ [])
  insert_new k v [] h = refl
  insert_new k v ((j, w) ∷ d) h =
      let other : (k == j) ≡ false = ground arith in
      rw other (ap (λ r. (j, w) ∷ r) (insert_new k v d (ground arith)))

  pub keys-append : (d e : Dict V) → keys (d ++ e) ≡ keys d ++ keys e
  keys-append [] e = refl
  keys-append ((k, v) ∷ d) e = ap (λ r. k ∷ r) (keys-append d e)

  pub keys-drop : (n : ℕ) (d : Dict V) → keys (drop n d) ≡ drop n (keys d)
  keys-drop zero d = refl
  keys-drop (suc n) [] = refl
  keys-drop (suc n) ((k, v) ∷ d) = keys-drop n d

pub member-drop : (k n : ℕ) (xs : List ℕ) → member k xs ≡ false → member k (drop n xs) ≡ false
member-drop k zero xs h = h
member-drop k (suc n) [] h = h
member-drop k (suc n) (x ∷ xs) h = member-drop k n xs (ground arith)

pub Distinct-drop : (n : ℕ) (xs : List ℕ) → Distinct xs → Distinct (drop n xs)
Distinct-drop zero xs h = h
Distinct-drop (suc n) [] h = h
Distinct-drop (suc n) (x ∷ xs) h = Distinct-drop n xs h.1
