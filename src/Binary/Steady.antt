-- ===== src/Binary/Steady.antt =====
-- What every method of the decoder of internal/opcua/binary.go keeps on any input, and the rule that
-- carries it over a sequence of methods: the offset never passes the end of the buffer and never
-- moves back, and the buffer, the limits and the depth stay.
use opcda_access_adapter.Prelude.{ℕ, ◌≤◌, ◌≡◌, refl, ◌∙◌, arith, length, Bool, true, false}
use opcda_access_adapter.Errors.{Error}
use opcda_access_adapter.Binary.Decoder.{
  Decoder, Reading, Reader, got, failed, and_then, give, give_up, unless, take_bytes, remaining,
}

pub record Stays (d d' : Decoder) : Type 0 where
  pub same_buffer : d'.buffer ≡ d.buffer
  pub same_limits : d'.limits ≡ d.limits
  pub same_depth : d'.depth ≡ d.depth
  pub forward : d.offset ≤ d'.offset
  pub inside : d'.offset ≤ length d'.buffer

-- The decoder that a call leaves, on success and on failure.
abbrev pub left {ℓ} : {A : Type ℓ} → Reading A → Decoder
left (got a d) = d
left (failed e d) = d

pub record Steady {ℓ} {A : Type ℓ} (m : Reader A) : Type 0 where
  pub stays : (d : Decoder) → d.offset ≤ length d.buffer → Stays d (left (m d))

Stays-refl : (d : Decoder) → d.offset ≤ length d.buffer → Stays d d
Stays-refl d h = record {
  same_buffer = refl;
  same_limits = refl;
  same_depth = refl;
  forward = omega arith;
  inside = h;
}

Stays-trans : {a b c : Decoder} → Stays a b → Stays b c → Stays a c
Stays-trans s t = record {
  same_buffer = t.same_buffer ∙ s.same_buffer;
  same_limits = t.same_limits ∙ s.same_limits;
  same_depth = t.same_depth ∙ s.same_depth;
  forward = omega (arith, s.forward, t.forward);
  inside = t.inside;
}

module _ {ℓ} {A : Type ℓ} where
  pub Steady-give : (a : A) → Steady (give a)
  Steady-give a = record { stays = λ d h. Stays-refl d h }

  pub Steady-give_up : (e : Error) → Steady (give_up {A = A} e)
  Steady-give_up e = record { stays = λ d h. Stays-refl d h }

pub Steady-unless : (b : Bool) (e : Error) → Steady (unless b e)
Steady-unless true e = record { stays = λ d h. Stays-refl d h }
Steady-unless false e = record { stays = λ d h. Stays-refl d h }

module _ {ℓ κ} {A : Type ℓ} {B : Type κ} where
  and_then-Stays :
      {f : A → Reader B} (d : Decoder) (r : Reading A)
      → Stays d (left r)
      → ((a : A) → Steady (f a))
      → Stays d (left (and_then r f))
  and_then-Stays {f = f} d (got a d') s h = Stays-trans s ((h a).stays d' s.inside)
  and_then-Stays d (failed e d') s h = s

  pub Steady-bind :
      {m : Reader A} {f : A → Reader B}
      → Steady m
      → ((a : A) → Steady (f a))
      → Steady (λ d. and_then (m d) f)
  Steady-bind {m = m} p h = record {
    stays = λ d inside. and_then-Stays d (m d) (p.stays d inside) h;
  }

pub Steady-take : (n : ℕ) → Steady (take_bytes n)
unfolding take_bytes remaining
Steady-take n = record { stays = λ d h. ground arith }

-- A method that looks at its decoder first.
pub Steady-look {ℓ κ} :
    {K : Type κ} {A : Type ℓ} (look : Decoder → K) (m : K → Reader A)
    → ((k : K) → Steady (m k))
    → Steady (λ d. m (look d) d)
Steady-look look m h = record { stays = λ d inside. (h (look d)).stays d inside }
