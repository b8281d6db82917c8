-- ===== src/Da/ArrayLaws.antt =====
-- The shape of an array of internal/opcda/array.go against the product of its dimensions.
use opcda_access_adapter.Prelude.{
  ℕ, zero, suc, ◌*◌, ◌%◌, ◌^◌, ◌≤◌, ◌<◌, ◌≡◌, ◌≢◌, refl, sym, ap, ◌∙◌, ◌↔◌, ltb→lt, true, false,
  inl, inr, List, [], ◌∷◌, ltb, leb, ◌==◌, length, arith, Bool-cases,
}
use opcda_access_adapter.Da.Arrays.{
  passed, DaDimension, count_elements, element_count, describe, matches_its_shape,
}

-- The number of elements that the dimensions describe, with no bound.
abbrev pub volume : List DaDimension → ℕ
volume [] = 1
volume (d ∷ ds) = d.length * volume ds

-- Every dimension has a length, as a uint32 above 0.
abbrev pub AllLong : List DaDimension → Type 0
AllLong [] = Unit
AllLong (d ∷ ds) = (0 < d.length) × AllLong ds

abbrev pub AllUint32 : List DaDimension → Type 0
AllUint32 [] = Unit
AllUint32 (d ∷ ds) = (d.length < 2 ^ 32) × AllUint32 ds

volume_pos : (ds : List DaDimension) → AllLong ds → 1 ≤ volume ds
volume_pos [] h = omega arith
volume_pos (d ∷ ds) h = mul_pos d.length (volume ds) h.0 (volume_pos ds h.1)
  where
    mul_pos : (a b : ℕ) → 0 < a → 1 ≤ b → 1 ≤ a * b
    mul_pos zero b p q = absurd (omega arith)
    mul_pos (suc a) b p q = omega (arith, q)

mul_assoc : (a b c : ℕ) → a * (b * c) ≡ a * b * c
mul_assoc a b c = omega arith

le_mul : (a b : ℕ) → 1 ≤ b → a ≤ a * b
le_mul zero b h = omega arith
le_mul (suc a) b h = omega (arith, le_mul a b h)

mul_lt : (a b : ℕ) → a ≤ 2 ^ 32 → b < 2 ^ 32 → a * b < 2 ^ 64
mul_lt a b h k = omega (arith, mul_mono a (2 ^ 32) b h)
  where
    mul_mono : (a m b : ℕ) → a ≤ m → a * b ≤ m * b
    mul_mono a m zero h = omega arith
    mul_mono a m (suc b) h = omega (arith, mul_mono a m b h)

-- The product that the loop reaches, where it stays in the bound.
abbrev Counts : ℕ → List DaDimension → ℕ → ℕ → Type 0
Counts maximum ds c n = AllLong ds × (c * volume ds ≤ maximum) × (n ≡ c * volume ds)

count_elements_exactly :
    (maximum : ℕ) (ds : List DaDimension) (c n : ℕ)
    → maximum ≤ 2 ^ 32
    → c ≤ maximum
    → AllUint32 ds
    → (count_elements maximum ds c ≡ passed n) ↔ Counts maximum ds c n
unfolding count_elements
count_elements_exactly maximum [] c n hm hc u =
    (λ e. (tt, omega arith, ground arith), λ h. ap passed (omega (arith, h.2)))
count_elements_exactly maximum (d ∷ ds) c n hm hc u =
    let whole : (c * d.length) % 2 ^ 64 ≡ c * d.length =
      let small : c * d.length < 2 ^ 64 = mul_lt c d.length (omega arith) u.0 in
      omega (arith, small) in
    elim (Bool-cases (d.length == 0)) [
      | inl e ↦ rw (whole, e) (λ p. cc (p), λ h. absurd (ground (arith, h.0.0)))
      | inr e ↦ elim (Bool-cases (ltb maximum (c * d.length))) [
        | inl over ↦ rw (whole, e, over) (λ p. cc (p), λ h. absurd (too_large over h))
        | inr under ↦
            let rest = count_elements_exactly maximum ds (c * d.length) n hm (ground arith) u.1 in
            rw (whole, e, under)
              (
                λ p.
                    let (long, bound, same) = rest.0 p in
                    (
                      (ground arith, long),
                      omega (arith, bound, mul_assoc c d.length (volume ds)),
                      same ∙ sym (mul_assoc c d.length (volume ds)),
                    ),
                λ h. rest.1 (
                  h.0.1,
                  omega (arith, h.1, mul_assoc c d.length (volume ds)),
                  h.2 ∙ mul_assoc c d.length (volume ds),
                ),
              )
      ]
    ]
  where
    too_large : ltb maximum (c * d.length) ≡ true → Counts maximum (d ∷ ds) c n → ⊥
    too_large over h = omega (
      arith,
      ltb→lt maximum (c * d.length) over,
      h.1,
      mul_assoc c d.length (volume ds),
      le_mul (c * d.length) (volume ds) (volume_pos ds h.0.1),
    )

-- Under a bound of at most 2 ^ 32 elements, ElementCount answers a count exactly where every dimension
-- has a length and the product of the lengths, with no wrap, is within the bound; the count is then
-- that product.
pub element_count_exactly :
    (maximum n : ℕ) (ds : List DaDimension)
    → 0 < maximum
    → maximum ≤ 2 ^ 32
    → AllUint32 ds
    → (element_count ds maximum ≡ passed n) ↔ (AllLong ds × (volume ds ≤ maximum) × (n ≡ volume ds))
unfolding element_count
element_count_exactly maximum n ds h hm u =
    let some_bound : leb maximum 0 ≡ false = ground arith in
    let counted = count_elements_exactly maximum ds 1 n hm (omega arith) u in
    rw some_bound (
      λ p. let (a, b, c) = counted.0 p in (a, omega (arith, b), omega (arith, c)),
      λ q. counted.1 (q.0, omega (arith, q.1), omega (arith, q.2)),
    )

describe_exactly :
    (carried : ℕ) (ds : List DaDimension) (c : ℕ)
    → carried ≤ 2 ^ 32
    → c ≤ carried
    → AllUint32 ds
    → (describe carried ds c ≡ passed tt) ↔ (AllLong ds × (c * volume ds ≡ carried))
unfolding describe
describe_exactly carried [] c hm hc u = ground arith
describe_exactly carried (d ∷ ds) c hm hc u =
    let whole : (c * d.length) % 2 ^ 64 ≡ c * d.length =
      let small : c * d.length < 2 ^ 64 = mul_lt c d.length (omega arith) u.0 in
      omega (arith, small) in
    elim (Bool-cases (d.length == 0)) [
      | inl e ↦ rw (whole, e) (λ p. cc (p), λ h. absurd (ground (arith, h.0.0)))
      | inr e ↦ elim (Bool-cases (ltb carried (c * d.length))) [
        | inl over ↦ rw (whole, e, over) (λ p. cc (p), λ h. absurd (too_large over h))
        | inr under ↦
            let rest = describe_exactly carried ds (c * d.length) hm (ground arith) u.1 in
            rw (whole, e, under)
              (
                λ p.
                    let (long, same) = rest.0 p in
                    ((ground arith, long), mul_assoc c d.length (volume ds) ∙ same),
                λ h. rest.1 (h.0.1, sym (mul_assoc c d.length (volume ds)) ∙ h.1),
              )
      ]
    ]
  where
    too_large :
        ltb carried (c * d.length) ≡ true → AllLong (d ∷ ds) × (c * volume (d ∷ ds) ≡ carried) → ⊥
    too_large over h = omega (
      arith,
      ltb→lt carried (c * d.length) over,
      h.1,
      mul_assoc c d.length (volume ds),
      le_mul (c * d.length) (volume ds) (volume_pos ds h.0.1),
    )

-- An array of no elements is not described by any dimensions.
describe_empty :
    (carried : ℕ) (d : DaDimension) (ds : List DaDimension)
    → carried ≡ 0
    → AllUint32 (d ∷ ds)
    → describe carried (d ∷ ds) 1 ≢ passed tt
unfolding describe
describe_empty carried d ds empty u p =
    let whole : (1 * d.length) % 2 ^ 64 ≡ d.length =
      let small : d.length < 2 ^ 32 = u.0 in omega arith in
    elim (Bool-cases (d.length == 0)) [
      | inl e ↦ cc (rw e at p)
      | inr e ↦
          let over : ltb carried d.length ≡ true = ground arith in cc (rw (whole, e, over) at p)
    ]

-- An array of at most 2 ^ 32 elements, an empty one included, whose dimensions have lengths that
-- are UInt32, matches its shape exactly where it has a dimension, every dimension has a length,
-- and the product of the lengths, with no wrap, is the number of elements.
pub matches_its_shape_exactly {ℓ} :
    {A : Type ℓ} (ds : List DaDimension) (elements : List A)
    → length elements ≤ 2 ^ 32
    → AllUint32 ds
    → (matches_its_shape ds elements ≡ passed tt)
      ↔ ((ds ≢ []) × AllLong ds × (volume ds ≡ length elements))
unfolding matches_its_shape
matches_its_shape_exactly [] elements hm u = (λ p. cc (p), λ h. absurd (h.0 refl))
matches_its_shape_exactly (d ∷ ds) elements hm u = elim (Bool-cases (length elements == 0)) [
  | inl e ↦
      let empty : length elements ≡ 0 = ground arith in
      (
        λ p. absurd (describe_empty (length elements) d ds empty u p),
        λ q. absurd (omega (arith, empty, q.2, volume_pos (d ∷ ds) q.1)),
      )
  | inr e ↦
      let described = describe_exactly (length elements) (d ∷ ds) 1 hm (ground arith) u in
      (
        λ p. let (a, b) = described.0 p in (λ e. cc (e), a, omega (arith, b)),
        λ q. described.1 (q.1, omega (arith, q.2)),
      )
]
