-- ===== src/Binary/Reads.antt =====
-- What a method of the decoder of internal/opcua/binary.go reads from well-formed input, and the
-- rules that build it for a sequence of methods. `Reads l m bs a`: wherever the bytes `bs` come
-- next, the method `m` answers `a` and moves the offset past exactly those bytes.
use opcda_access_adapter.Prelude.{
  ℕ, ◌+◌, ◌-◌, ◌≤◌, ◌≡◌, refl, ap, ◌∙◌, List, [], ◌++◌, append_assoc, arith, length, drop,
  length-append, length-drop, drop-drop, take-append_self, drop-append_self, le→ltb_false,
}
use mathlib.Core.Path.{subst₂}
use opcda_access_adapter.Errors.{Error, Result, ok, err}
use opcda_access_adapter.Errors
use opcda_access_adapter.Binary.Limits.{BinaryLimits, IsValid, IsValid-validate}
use opcda_access_adapter.Binary.Decoder.{
  Decoder, Reading, Reader, got, failed, and_then, give, new_decoder, remaining, take_bytes,
}

-- The bytes that have not been read.
abbrev pub pending : Decoder → List ℕ
pending d = drop d.offset d.buffer

abbrev pub advance : ℕ → Decoder → Decoder
advance n d = record d { offset = d.offset + n }

pub record Reads {ℓ} (l : BinaryLimits) {A : Type ℓ} (m : Reader A) (bs : List ℕ) (a : A)
    : Type ℓ where
  pub runs :
      (d : Decoder) (tail : List ℕ)
      → d.limits ≡ l
      → pending d ≡ bs ++ tail
      → m d ≡ got a (advance (length bs) d)

module _ {l : BinaryLimits} where
  pub Reads-take : (bs : List ℕ) (n : ℕ) → length bs ≡ n → Reads l (take_bytes n) bs bs
  unfolding take_bytes remaining
  Reads-take bs n e = record {
    runs = λ d tail hl hp.
        let room : n ≤ length d.buffer - d.offset =
          omega (arith, length-drop d.offset d.buffer, ap length hp, length-append bs tail) in
        rw (le→ltb_false _ _ room, hp, ← e, take-append_self bs tail);
  }

  pub Reads-give {ℓ} : {A : Type ℓ} (a : A) → Reads l (give a) [] a
  Reads-give a = record {
    runs = λ d tail hl hp. ap (λ k. got a (record d { offset = k })) (omega arith);
  }

  pub Reads-bind {ℓ κ} :
      {A : Type ℓ} {B : Type κ} {m : Reader A} (f : A → Reader B) {xs ys : List ℕ} {a : A} {b : B}
      → Reads l m xs a
      → Reads l (f a) ys b
      → Reads l (λ d. and_then (m d) f) (xs ++ ys) b
  Reads-bind f {xs = xs} {ys = ys} {a = a} {b = b} p q = record {
    runs = λ d tail hl hp.
        let here : pending d ≡ xs ++ (ys ++ tail) = hp ∙ append_assoc xs ys tail in
        let next : pending (advance (length xs) d) ≡ ys ++ tail =
          drop-drop d.offset (length xs) d.buffer
          ∙ ap (drop (length xs)) here
          ∙ drop-append_self xs (ys ++ tail) in
        ap (λ r. and_then r f) (p.runs d (ys ++ tail) hl here)
        ∙ q.runs (advance (length xs) d) tail hl next
        ∙ ap (λ k. got b (record d { offset = k })) (omega (arith, length-append xs ys));
  }

  -- The last step of a method: a value made from what was read.
  pub Reads-map {ℓ κ} :
      {A : Type ℓ} {B : Type κ} {m : Reader A} (g : A → B) {xs : List ℕ} {a : A}
      → Reads l m xs a
      → Reads l (λ d. and_then (m d) (λ x. give (g x))) xs (g a)
  Reads-map g p = record {
    runs = λ d tail hl hp. ap (λ r. and_then r (λ x. give (g x))) (p.runs d tail hl hp);
  }

  pub Reads-eq {ℓ} :
      {A : Type ℓ} {m : Reader A} {xs ys : List ℕ} {a b : A}
      → xs ≡ ys
      → a ≡ b
      → Reads l m xs a
      → Reads l m ys b
  Reads-eq {m = m} e h p = subst₂ (λ bs v. Reads l m bs v) e h p

  -- A method that looks at the limits of its decoder.
  pub Reads-limits {ℓ} :
      {A : Type ℓ} (m : BinaryLimits → Reader A) {xs : List ℕ} {a : A}
      → Reads l (m l) xs a
      → Reads l (λ d. m d.limits d) xs a
  Reads-limits m p = record { runs = λ d tail hl hp. ap (λ k. m k d) hl ∙ p.runs d tail hl hp }

-- A whole message: NewDecoder and the reads, with the bytes that are left over.
abbrev pub outcome {ℓ} : {A : Type ℓ} → Reading A → Result (A × List ℕ)
outcome (got a d) = ok (a, pending d)
outcome (failed e d) = err e

unfoldable pub decode {ℓ} : {A : Type ℓ} → BinaryLimits → Reader A → List ℕ → Result (A × List ℕ)
decode l m input = Errors.◌>>=◌ (new_decoder input l) (λ d. outcome (m d))

pub decode-Reads {ℓ} :
    {A : Type ℓ} {l : BinaryLimits} {m : Reader A} {bs : List ℕ} {a : A} (tail : List ℕ)
    → IsValid l
    → Reads l m bs a
    → length (bs ++ tail) ≤ l.max_message_bytes
    → decode l m (bs ++ tail) ≡ ok (a, tail)
unfolding decode new_decoder
decode-Reads {l = l} {bs = bs} {a = a} tail v m fits =
    rw (IsValid-validate l v, new_decoder, le→ltb_false _ _ fits)
      (ap outcome (m.runs _ tail refl refl)
        ∙ ap (λ t. ok (a, t))
            (ap (λ k. drop k (bs ++ tail)) (omega arith) ∙ drop-append_self bs tail))
