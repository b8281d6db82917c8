-- ===== src/Prelude/Bytes.antt =====
-- Little-endian words of k bytes, as encoding/binary of Go's standard library reads and writes them.
use Prim.Native.Nat.{ℕ, zero, suc, ◌+◌, ◌*◌, ◌/◌, ◌%◌, ◌^◌, ◌<◌}
use mathlib.Core.Path.{◌≡◌, refl, ap}
use mathlib.Core.List.{List, [], ◌∷◌}
use native.Mathlib.Omega.{arith}
use native.Mathlib.Nat.{pow-suc}
use opcda_access_adapter.Prelude.Lists.{length, All}

abbrev pub IsByte : ℕ → Type 0
IsByte b = b < 256

-- The bytes of `n`, lowest first: byte(n), byte(n >> 8), ...
unfoldable pub le : ℕ → ℕ → List ℕ
le zero n = []
le (suc k) n = n % 256 ∷ le k (n / 256)

-- The number that such bytes stand for; the shifted bytes have no bit in common, so that their
-- bitwise or is their sum.
unfoldable pub un_le : List ℕ → ℕ
un_le [] = 0
un_le (b ∷ bs) = b + 256 * un_le bs

pub length-le : (k n : ℕ) → length (le k n) ≡ k
unfolding le
length-le zero n = refl
length-le (suc k) n = ap suc (length-le k (n / 256))

pub le-IsByte : (k n : ℕ) → All IsByte (le k n)
unfolding le
le-IsByte zero n = tt
le-IsByte (suc k) n = (omega arith, le-IsByte k (n / 256))

pub un_le-le : (k n : ℕ) → n < 256 ^ k → un_le (le k n) ≡ n
unfolding le un_le
un_le-le zero n h = omega arith
un_le-le (suc k) n h = omega (arith, un_le-le k (n / 256) (below k n h))
  where
    below : (k n : ℕ) → n < 256 ^ suc k → n / 256 < 256 ^ k
    below k n h = omega (arith, pow-suc 256 k)

pub un_le-lt : (bs : List ℕ) → All IsByte bs → un_le bs < 256 ^ length bs
unfolding un_le
un_le-lt [] h = omega arith
un_le-lt (b ∷ bs) (hb, hs) = omega (arith, un_le-lt bs hs, pow-suc 256 (length bs))
