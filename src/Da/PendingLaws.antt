-- ===== src/Da/PendingLaws.antt =====
-- The coalescing set of internal/opcda/subscribe.go against its description.
use opcda_access_adapter.Prelude.{
  ℕ, ◌≤◌, ◌≡◌, refl, sym, ap, subst, ◌∙◌, true, false, inl, inr, none, some, List, [], ◌∷◌, ◌++◌,
  append-nil, append_assoc, ◌==◌, length, length-le_zero, member, Distinct-fits, if◌then◌else◌,
  arith, Bool-cases, Option-cases,
}
use opcda_access_adapter.Prelude.Dict.{
  Dict, keys, lookup, insert, lookup-none, lookup-some, keys-insert_new, keys-insert_old,
}
use opcda_access_adapter.Da.Pending.{
  PendingUpdates, see, merge_entry, merge_entries, notify, merge, values_of, drain, invalidate,
  size,
}
use opcda_access_adapter.Da.Coalesce.{
  firsts, handles, or_else, newest, newest_values, concat, handles-append, newest-append,
  lookup-insert, values_of-newest, firsts-append, firsts-Distinct, firsts-member,
}

module _ {ℓ} {V : Type ℓ} where
  keys-see :
      (h : ℕ) (v : V) (d : Dict V) (order : List ℕ)
      → keys d ≡ order
      → (keys (insert h v d) ≡ see h (lookup h d) order)
        × (see h (lookup h d) order ≡ order ++ firsts order (h ∷ []))
  keys-see h v d order e = elim (Option-cases (lookup h d)) [
    | inl o ↦
        let new : member h order ≡ false = ap (member h) (sym e) ∙ lookup-none h d o in
        rw (o, new) (keys-insert_new h v d o ∙ ap (λ r. r ++ (h ∷ [])) e, refl)
    | inr (w, o) ↦
        let old : member h order ≡ true = ap (member h) (sym e) ∙ lookup-some h d w o in
        rw (o, old) (keys-insert_old h v w d o ∙ e, sym (append-nil order))
  ]

module _ {ℓ κ} {V : Type ℓ} {E : Type κ} where
  -- A set that is open and holds nothing: a new one, and one that was drained.
  pub record IsEmpty (p : PendingUpdates V E) : Type (ℓ ⊔ κ) where
    pub no_order : p.order ≡ []
    pub no_latest : p.latest ≡ []
    pub open_set : p.closed ≡ false

  -- The set holds what the batches `es` describe.
  record Shows (p : PendingUpdates V E) (es : List (ℕ × V)) : Type (ℓ ⊔ κ) where
    pub same_keys : keys p.latest ≡ p.order
    pub in_order : p.order ≡ firsts [] (handles es)
    pub latest_values : (k : ℕ) → lookup k p.latest ≡ newest k es
    pub open_set : p.closed ≡ false

  entry-Shows :
      (p : PendingUpdates V E) (es : List (ℕ × V)) (h : ℕ) (v : V)
      → Shows p es
      → Shows (merge_entry h v p) (es ++ ((h, v) ∷ []))
  unfolding merge_entry
  entry-Shows p es h v s =
      let (stays, seen) = keys-see h v p.latest p.order s.same_keys in
      record {
        same_keys = stays;
        in_order =
            seen
            ∙ ap (λ o. o ++ firsts o (h ∷ [])) s.in_order
            ∙ sym (firsts-append [] (handles es) (h ∷ []))
            ∙ ap (firsts []) (sym (handles-append es ((h, v) ∷ [])));
        latest_values = λ k.
            lookup-insert k h v p.latest
            ∙ ap (or_else (if k == h then some v else none)) (s.latest_values k)
            ∙ sym (newest-append k es ((h, v) ∷ []));
        open_set = s.open_set;
      }

  entries-Shows :
      (p : PendingUpdates V E) (es batch : List (ℕ × V))
      → Shows p es
      → Shows (merge_entries batch p) (es ++ batch)
  unfolding merge_entries
  entries-Shows p es [] s = subst (Shows p) (sym (append-nil es)) s
  entries-Shows p es ((h, v) ∷ batch) s =
      subst (Shows (merge_entries batch (merge_entry h v p))) (append_assoc es ((h, v) ∷ []) batch)
        (entries-Shows (merge_entry h v p) (es ++ ((h, v) ∷ [])) batch (entry-Shows p es h v s))

  notify-Shows : (p : PendingUpdates V E) (es : List (ℕ × V)) → Shows p es → Shows (notify p) es
  notify-Shows p es s = elim (Bool-cases (length p.latest == 0)) [
    | inl e ↦ rw e s
    | inr e ↦ rw e (record {
      same_keys = s.same_keys;
      in_order = s.in_order;
      latest_values = s.latest_values;
      open_set = s.open_set;
    })
  ]

  merge-Shows :
      (p : PendingUpdates V E) (es batch : List (ℕ × V))
      → Shows p es
      → Shows (merge batch p) (es ++ batch)
  unfolding merge
  merge-Shows p es [] s = subst (Shows p) (sym (append-nil es)) s
  merge-Shows p es ((h, v) ∷ batch) s =
      subst
        (λ b.
          Shows (if b then p else notify (merge_entries ((h, v) ∷ batch) p))
            (es ++ ((h, v) ∷ batch)))
        (sym s.open_set)
        (notify-Shows (merge_entries ((h, v) ∷ batch) p) _ (entries-Shows p es ((h, v) ∷ batch) s))

  -- Several batches, in the order in which they arrive.
  unfoldable pub merge_all : List (List (ℕ × V)) → PendingUpdates V E → PendingUpdates V E
  unfolding merge
  merge_all [] p = p
  merge_all (batch ∷ batches) p = merge_all batches (merge batch p)

  merge_all-Shows :
      (p : PendingUpdates V E) (es : List (ℕ × V)) (batches : List (List (ℕ × V)))
      → Shows p es
      → Shows (merge_all batches p) (es ++ concat batches)
  unfolding merge_all
  merge_all-Shows p es [] s = subst (Shows p) (sym (append-nil es)) s
  merge_all-Shows p es (batch ∷ batches) s =
      subst (Shows (merge_all batches (merge batch p))) (append_assoc es batch (concat batches))
        (merge_all-Shows (merge batch p) (es ++ batch) batches (merge-Shows p es batch s))

  empty-Shows : (p : PendingUpdates V E) → IsEmpty p → Shows p []
  empty-Shows p s = record {
    same_keys = ap keys s.no_latest ∙ sym s.no_order;
    in_order = s.no_order;
    latest_values = λ k. ap (lookup k) s.no_latest;
    open_set = s.open_set;
  }

  drain_values : (z : V) (p : PendingUpdates V E) → (drain z p).0 ≡ values_of z p.order p.latest
  unfolding drain
  drain_values z p = go p.order p.latest
    where
      chosen : List ℕ → Dict V → List V × PendingUpdates V E
      chosen o d =
          if length o == 0 then ([], p) else (values_of z o d, record p { order = []; latest = [] })

      go : (o : List ℕ) (d : Dict V) → (chosen o d).0 ≡ values_of z o d
      go [] d = refl
      go (k ∷ o) d = ground arith

  drain_empties :
      (z : V) (p : PendingUpdates V E) (es : List (ℕ × V)) → Shows p es → IsEmpty (drain z p).1
  unfolding drain
  drain_empties z p es s = elim (Bool-cases (length p.order == 0)) [
    | inl e ↦
        let none_left : p.order ≡ [] = length-le_zero p.order (ground arith) in
        rw e (record {
          no_order = none_left;
          no_latest = no_keys p.latest (s.same_keys ∙ none_left);
          open_set = s.open_set;
        })
    | inr e ↦ rw e (record { no_order = refl; no_latest = refl; open_set = s.open_set })
  ]
    where
      no_keys : (d : Dict V) → keys d ≡ [] → d ≡ []
      no_keys [] h = refl
      no_keys ((k, v) ∷ d) h = cc

module _ {ℓ κ} {V : Type ℓ} {E : Type κ} where
  invalidate_closes :
      (e : E) (p : PendingUpdates V E) → p.closed ≡ false → (invalidate e p).closed ≡ true
  unfolding invalidate
  invalidate_closes e p c = ap (λ b. (if b then p else shut).closed) c
    where
      shut : PendingUpdates V E
      shut = record p { closed = true; failure = some e; order = []; latest = [] }

  merge_closed : (p : PendingUpdates V E) (b : List (ℕ × V)) → p.closed ≡ true → merge b p ≡ p
  unfolding merge
  merge_closed p [] c = refl
  merge_closed p ((h, v) ∷ b) c = ap (λ t. if t then p else notify (merge_entries ((h, v) ∷ b) p)) c

  merge_all_closed :
      (p : PendingUpdates V E) (bs : List (List (ℕ × V))) → p.closed ≡ true → merge_all bs p ≡ p
  unfolding merge_all
  merge_all_closed p [] c = refl
  merge_all_closed p (b ∷ bs) c = ap (merge_all bs) (merge_closed p b c) ∙ merge_all_closed p bs c

-- A set that is open and holds nothing, and into which batches are merged, is drained of one value
-- for each handle of the batches: its newest one, in the order in which the handles were first seen;
-- the set is then open and empty again.
pub drain-merge_all {ℓ κ} :
    {V : Type ℓ} {E : Type κ} (z : V) (p : PendingUpdates V E) (batches : List (List (ℕ × V)))
    → IsEmpty p
    → ((drain z (merge_all batches p)).0
        ≡ newest_values z (concat batches) (firsts [] (handles (concat batches))))
      × IsEmpty (drain z (merge_all batches p)).1
drain-merge_all z p batches h =
    let after : PendingUpdates _ _ = merge_all batches p in
    let s = merge_all-Shows p [] batches (empty-Shows p h) in
    (
      drain_values z after
          ∙ values_of-newest z (concat batches) after.latest after.order s.latest_values
          ∙ ap (newest_values z (concat batches)) s.in_order,
      drain_empties z after (concat batches) s,
    )

-- However many batches are merged into a set that is open and holds nothing, it holds at most as
-- many entries as there are handles that the batches may name.
pub size-merge_all {ℓ κ} :
    {V : Type ℓ} {E : Type κ} (p : PendingUpdates V E) (batches : List (List (ℕ × V)))
    (active : List ℕ)
    → IsEmpty p
    → ((n : ℕ) → member n (handles (concat batches)) ≡ true → member n active ≡ true)
    → size (merge_all batches p) ≤ length active
size-merge_all p batches active h named =
    let s = merge_all-Shows p [] batches (empty-Shows p h) in
    let ks : List ℕ = handles (concat batches) in
    let few : length (firsts [] ks) ≤ length active =
      Distinct-fits (firsts [] ks) active (firsts-Distinct [] ks tt)
        (λ n m. named n (firsts-member [] ks n m)) in
    omega (arith, few, ap length s.in_order)

-- Behind an invalidation nothing that was pending is delivered, no later batch changes the set, and a
-- later invalidation keeps the first reason.
pub invalidate_final {ℓ κ} :
    {V : Type ℓ} {E : Type κ} (z : V) (p : PendingUpdates V E) (batches : List (List (ℕ × V)))
    (first later : E)
    → p.closed ≡ false
    → ((drain z (merge_all batches (invalidate first p))).0 ≡ [])
      × (merge_all batches (invalidate first p) ≡ invalidate first p)
      × ((invalidate later (invalidate first p)).failure ≡ some first)
unfolding invalidate drain
invalidate_final z p batches first later h =
    let shut = merge_all_closed (invalidate first p) batches (invalidate_closes first p h) in
    (ap (λ q. (drain z q).0) shut ∙ rw h refl, shut, rw h refl)
