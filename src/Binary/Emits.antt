-- ===== src/Binary/Emits.antt =====
-- What a method of the encoder of internal/opcua/binary.go does, in one record, and the rules that
-- build it for a sequence of methods. `Emits l w bs C`: under the limits `l` the method `w` appends
-- exactly the bytes `bs`, and it succeeds exactly if `C` holds and the message stays in bounds.
use opcda_access_adapter.Prelude.{
  ℕ, ◌+◌, ◌≤◌, ◌≡◌, refl, sym, ap, ◌∙◌, inl, inr, none, some, List, [], ◌++◌, append-nil,
  append_assoc, arith, length, length-append, Option-cases,
}
use opcda_access_adapter.Errors.{Error, Result, ok, ◌>>=◌}
use opcda_access_adapter.Binary.Limits.{BinaryLimits, IsValid, IsValid-validate}
use opcda_access_adapter.Binary.Encoder.{Encoder, new_encoder, bytes, write, skip}

abbrev pub emit : List ℕ → Encoder → Encoder
emit bs e = record e { buffer = e.buffer ++ bs }

pub record Emits (l : BinaryLimits) (w : Encoder → Encoder) (bs : List ℕ) (C : Type 0)
    : Type 0 where
  pub sticky : (e : Encoder) (x : Error) → e.failure ≡ some x → w e ≡ e
  pub emits :
      (e : Encoder)
      → e.limits ≡ l
      → e.failure ≡ none
      → C
      → length e.buffer + length bs ≤ l.max_message_bytes
      → w e ≡ emit bs e
  pub only_if :
      (e : Encoder)
      → e.limits ≡ l
      → e.failure ≡ none
      → length e.buffer ≤ l.max_message_bytes
      → (w e).failure ≡ none
      → C × (length e.buffer + length bs ≤ l.max_message_bytes)

-- A failed encoder stays as it is, so a later success shows an earlier one.
sticky_none :
    {l : BinaryLimits} {w : Encoder → Encoder} {bs : List ℕ} {C : Type 0}
    → Emits l w bs C
    → (e : Encoder) → (w e).failure ≡ none
    → e.failure ≡ none
sticky_none m e h = elim (Option-cases e.failure) [ inl p ↦ p | inr (x, p) ↦ cc (m.sticky e x p) ]

module _ {l : BinaryLimits} where
  pub Emits-write : (bs : List ℕ) → Emits l (write bs) bs (Unit {0})
  unfolding write
  Emits-write bs = record {
    sticky = λ e x h. ground arith;
    emits = λ e hl hf c fits. ground arith;
    only_if = λ e hl hf hb h. ground arith;
  }

  pub Emits-skip : Emits l skip [] (Unit {0})
  Emits-skip = record {
    sticky = λ e x h. refl;
    emits = λ e hl hf c fits. ap (λ b. record e { buffer = b }) (sym (append-nil e.buffer));
    only_if = λ e hl hf hb h. (tt, omega arith);
  }

  -- The condition may be stated in any equivalent way.
  pub Emits-iff :
      {w : Encoder → Encoder} {bs : List ℕ} {C D : Type 0}
      → (D → C)
      → (C → D)
      → Emits l w bs C
      → Emits l w bs D
  Emits-iff f g m = record {
    sticky = m.sticky;
    emits = λ e hl hf d fits. m.emits e hl hf (f d) fits;
    only_if = λ e hl hf hb h. let (c, fits) = m.only_if e hl hf hb h in (g c, fits);
  }

  module _ {v w : Encoder → Encoder} {xs ys : List ℕ} {C D : Type 0} where
    pub Emits-then : Emits l v xs C → Emits l w ys D → Emits l (λ e. w (v e)) (xs ++ ys) (C × D)
    Emits-then m n = record {
      sticky = λ e x h. ap w (m.sticky e x h) ∙ n.sticky e x h;
      emits = λ e hl hf c fits. sequence e hl hf c fits;
      only_if = λ e hl hf hb h. both e hl hf hb h;
    }
      where
        size : length (xs ++ ys) ≡ length xs + length ys
        size = length-append xs ys

        sequence :
            (e : Encoder)
            → e.limits ≡ l
            → e.failure ≡ none
            → C × D
            → length e.buffer + length (xs ++ ys) ≤ l.max_message_bytes
            → w (v e) ≡ emit (xs ++ ys) e
        sequence e hl hf c fits =
            ap w (m.emits e hl hf c.0 (omega (arith, size)))
            ∙ n.emits (emit xs e) hl hf c.1 (omega (arith, size, length-append e.buffer xs))
            ∙ ap (λ b. record e { buffer = b }) (append_assoc e.buffer xs ys)

        both :
            (e : Encoder)
            → e.limits ≡ l
            → e.failure ≡ none
            → length e.buffer ≤ l.max_message_bytes
            → (w (v e)).failure ≡ none
            → (C × D) × (length e.buffer + length (xs ++ ys) ≤ l.max_message_bytes)
        both e hl hf hb h =
            let hv : (v e).failure ≡ none = sticky_none n (v e) h in
            let (c, fits) = m.only_if e hl hf hb hv in
            let ran : v e ≡ emit xs e = m.emits e hl hf c fits in
            let (d, fits') =
              n.only_if (emit xs e) hl hf (omega (arith, length-append e.buffer xs))
                (ap (λ r. (w r).failure) (sym ran) ∙ h) in
            ((c, d), omega (arith, size, length-append e.buffer xs))

-- A whole message: NewEncoder, the writes, and Bytes.
unfoldable pub encode : BinaryLimits → (Encoder → Encoder) → Result (List ℕ)
encode l w = do e ← new_encoder l; bytes (w e)

abbrev fresh : BinaryLimits → Encoder
fresh l = record { buffer = []; limits = l; depth = 0; failure = none }

encode-fresh :
    (l : BinaryLimits) (w : Encoder → Encoder) → IsValid l → encode l w ≡ bytes (w (fresh l))
unfolding encode new_encoder
encode-fresh l w v = rw (IsValid-validate l v, new_encoder)

no_failure : {r : List ℕ} (e : Encoder) → bytes e ≡ ok r → e.failure ≡ none
unfolding bytes
no_failure e h = ground arith

bytes_buffer : {r : List ℕ} (e : Encoder) → bytes e ≡ ok r → e.buffer ≡ r
unfolding bytes
bytes_buffer e h = ground arith

module _ {l : BinaryLimits} {w : Encoder → Encoder} {bs : List ℕ} {C : Type 0} where
  pub encode-emits :
      IsValid l → Emits l w bs C → C → length bs ≤ l.max_message_bytes → encode l w ≡ ok bs
  unfolding bytes
  encode-emits v m c fits =
      encode-fresh l w v ∙ ap bytes (m.emits (fresh l) refl refl c (omega arith))

  pub encode-only_if :
      {r : List ℕ}
      → IsValid l
      → Emits l w bs C
      → encode l w ≡ ok r
      → C × (r ≡ bs) × (length bs ≤ l.max_message_bytes)
  encode-only_if v m h =
      let ran = sym (encode-fresh l w v) ∙ h in
      let hf = no_failure (w (fresh l)) ran in
      let (c, fits) = m.only_if (fresh l) refl refl (omega arith) hf in
      let out = m.emits (fresh l) refl refl c fits in
      (c, sym (bytes_buffer _ ran) ∙ ap (λ e. e.buffer) out, omega arith)
