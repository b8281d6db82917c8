-- ===== src/Binary/Optional.antt =====
-- Parts of a structure that internal/opcua/nodeid.go writes only where they are present, and whose
-- presence a bit of an encoding mask tells the decoder.
use opcda_access_adapter.Prelude.{
  arith, ℕ, ◌≡◌, Bool, true, false, not, Option, none, some, List, [], ◌∷◌, bit_and, ◌==◌,
}
use opcda_access_adapter.Binary.Limits.{BinaryLimits}
use opcda_access_adapter.Binary.Encoder.{Encoder, skip}
use opcda_access_adapter.Binary.Decoder.{Reader, ◌>>=◌, give}
use opcda_access_adapter.Binary.Emits.{Emits, Emits-skip}
use opcda_access_adapter.Binary.Reads.{Reads, Reads-map, Reads-give}
use opcda_access_adapter.Binary.Steady.{Steady, Steady-bind, Steady-give}

abbrev pub is_some {ℓ} : {A : Type ℓ} → Option A → Bool
is_some none = false
is_some (some a) = true

-- mask&bit != 0
abbrev pub has_bit : ℕ → ℕ → Bool
has_bit mask bit = not (bit_and mask bit == 0)

abbrev pub flag_if : Bool → ℕ → ℕ
flag_if true bit = bit
flag_if false bit = 0

-- A Go string of length 0 counts as absent.
abbrev pub non_empty : List ℕ → Option (List ℕ)
non_empty [] = none
non_empty (b ∷ bs) = some (b ∷ bs)

-- Some test over every Boolean, and what it shows.
abbrev pub all_bools : (Bool → Bool) → Bool
all_bools p = elim (p true) [ true ↦ p false | false ↦ false ]

pub all_bools_sound : (p : Bool → Bool) (b : Bool) → all_bools p ≡ true → p b ≡ true
all_bools_sound p true h = ground arith
all_bools_sound p false h = ground arith

module _ {ℓ} {A : Type ℓ} where
  abbrev pub write_optional : (A → Encoder → Encoder) → Option A → Encoder → Encoder
  write_optional w none = skip
  write_optional w (some a) = w a

  abbrev pub read_if : Bool → Reader A → Reader (Option A)
  read_if true m = do a ← m; give (some a)
  read_if false m = give none

  abbrev pub optional_wire : (A → List ℕ) → Option A → List ℕ
  optional_wire wire none = []
  optional_wire wire (some a) = wire a

  abbrev pub Optionally : (A → Type 0) → Option A → Type 0
  Optionally P none = Unit {0}
  Optionally P (some a) = P a

module _ {ℓ} {A : Type ℓ} {l : BinaryLimits} where
  pub Emits-optional :
      (w : A → Encoder → Encoder) (wire : A → List ℕ) (C : A → Type 0)
      → ((a : A) → Emits l (w a) (wire a) (C a))
      → (o : Option A) → Emits l (write_optional w o) (optional_wire wire o) (Optionally C o)
  Emits-optional w wire C m none = Emits-skip
  Emits-optional w wire C m (some a) = m a

  pub Reads-if :
      (m : Reader A) (wire : A → List ℕ) (C : A → Type 0)
      → ((a : A) → C a → Reads l m (wire a) a)
      → (o : Option A) → Optionally C o
      → Reads l (read_if (is_some o) m) (optional_wire wire o) o
  Reads-if m wire C p none c = Reads-give none
  Reads-if m wire C p (some a) c = Reads-map some (p a c)

pub Steady-if {ℓ} : {A : Type ℓ} (b : Bool) (m : Reader A) → Steady m → Steady (read_if b m)
Steady-if true m p = Steady-bind p (λ _. Steady-give _)
Steady-if false m p = Steady-give _
