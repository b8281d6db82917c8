-- ===== src/Da/Arrays.antt =====
-- internal/opcda/array.go: the shape of a SAFEARRAY. A count is a uint64, which wraps.
use opcda_access_adapter.Prelude.{
  ℕ, ◌*◌, ◌%◌, ◌^◌, not, List, [], ◌∷◌, ltb, leb, ◌==◌, length, if◌then◌else◌,
}
use opcda_access_adapter.Prelude.Int.{ℤ}

-- The codes of an AdapterError that this file answers.
pub data ArrayError : Type 0 where
  invalid_value array_too_large : ArrayError

pub data Checked {ℓ} (A : Type ℓ) : Type ℓ where
  refused : ArrayError → Checked A
  passed : A → Checked A

pub record DaDimension : Type 0 where
  pub lower_bound : ℤ
  pub length : ℕ

-- The loop of ElementCount.
unfoldable pub count_elements : ℕ → List DaDimension → ℕ → Checked ℕ
count_elements maximum [] count = passed count
count_elements maximum (d ∷ ds) count =
    let product = (count * d.length) % 2 ^ 64 in
    let rest = count_elements maximum ds product in
    if d.length == 0
    then refused invalid_value
    else if ltb maximum product
    then refused array_too_large
    else rest

unfoldable pub element_count : List DaDimension → ℕ → Checked ℕ
unfolding count_elements
element_count dimensions maximum =
    if leb maximum 0 then refused invalid_value else count_elements maximum dimensions 1

-- The loop of MatchesItsShape, and the comparison behind it.
unfoldable pub describe : ℕ → List DaDimension → ℕ → Checked (Unit {0})
describe carried [] described =
    if not (described == carried) then refused invalid_value else passed tt
describe carried (d ∷ ds) described =
    let product = (described * d.length) % 2 ^ 64 in
    let rest = describe carried ds product in
    if d.length == 0
    then refused invalid_value
    else if ltb carried product
    then refused invalid_value
    else rest

unfoldable pub matches_its_shape {ℓ} : {A : Type ℓ} → List DaDimension → List A → Checked (Unit {0})
unfolding describe
matches_its_shape [] elements = refused invalid_value
matches_its_shape (d ∷ ds) elements = describe (length elements) (d ∷ ds) 1
