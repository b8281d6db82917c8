-- ===== src/Binary/Body.antt =====
-- A body that is decoded as a whole, as the decoding functions of internal/opcua/uacp.go and
-- internal/opcua/uasc.go do: NewDecoder, the reads, and a check that nothing is left over.
use opcda_access_adapter.Prelude.{
  ℕ, suc, ◌-◌, ◌≤◌, ◌≡◌, refl, ap, subst, ◌∙◌, true, false, not, List, [], ◌∷◌, ◌++◌, append-nil,
  append_assoc, arith, length, drop, length-drop, drop-drop, drop-append_self, le→ltb_false,
}
use opcda_access_adapter.Errors.{Error, Result, ok, err}
use opcda_access_adapter.Errors
use opcda_access_adapter.Binary.Limits.{BinaryLimits, IsValid, IsValid-validate}
use opcda_access_adapter.Binary.Decoder.{
  Decoder, Reading, Reader, got, failed, and_then, give, unless, new_decoder, done, remaining,
}
use opcda_access_adapter.Binary.Reads.{Reads, pending, advance}

-- The answer of a method on a decoder that nothing else uses afterwards.
abbrev pub answer {ℓ} : {A : Type ℓ} → Reading A → Result A
answer (got a d) = ok a
answer (failed e d) = err e

-- NewDecoder on a body, and a method on it.
unfoldable pub decode_body {ℓ} : {A : Type ℓ} → Reader A → List ℕ → BinaryLimits → Result A
decode_body m body l = Errors.◌>>=◌ (new_decoder body l) (λ d. answer (m d))

-- `if !decoder.Done() { return error }`
unfoldable pub require_done : Error → Reader (Unit {0})
require_done e d = unless (not (done d)) e d

-- One of two outcomes, by whether bytes are left over.
abbrev pub by_tail {ℓ} : {A : Type ℓ} → List ℕ → A → A → A
by_tail [] a b = a
by_tail (x ∷ xs) a b = b

-- Where the bytes `bs` come next, the method answers `a` if they are the last ones, and else the
-- error `e`.
pub record Ends {ℓ} (l : BinaryLimits) {A : Type ℓ} (m : Reader A) (bs : List ℕ) (a : A) (e : Error)
    : Type ℓ where
  pub runs :
      (d : Decoder) (tail : List ℕ)
      → d.limits ≡ l
      → pending d ≡ bs ++ tail
      → answer (m d) ≡ by_tail tail (ok a) (err e)

done-by_tail :
    (d : Decoder) (tail : List ℕ) → pending d ≡ tail → not (done d) ≡ by_tail tail false true
unfolding done remaining
done-by_tail d [] h =
    let e : length d.buffer - d.offset ≡ 0 =
      omega (arith, length-drop d.offset d.buffer, ap length h) in
    rw e
done-by_tail d (x ∷ xs) h =
    let e : length d.buffer - d.offset ≡ suc (length xs) =
      omega (arith, length-drop d.offset d.buffer, ap length h) in
    rw e (ground arith)

module _ {l : BinaryLimits} where
  pub Ends-done {ℓ} :
      {A : Type ℓ} (a : A) (e : Error)
      → Ends l (λ d. and_then (require_done e d) (λ _. give a)) [] a e
  unfolding require_done
  Ends-done a e = record { runs = λ d tail hl hp. rw (done-by_tail d tail hp) (finish d tail) }
    where
      finish :
          (d : Decoder) (tail : List ℕ)
          → answer (and_then (unless (by_tail tail false true) e d) (λ _. give a))
            ≡ by_tail tail (ok a) (err e)
      finish d [] = refl
      finish d (x ∷ xs) = refl

  pub Ends-bind {ℓ κ} :
      {A : Type ℓ} {B : Type κ} {m : Reader A} (f : A → Reader B) {xs ys : List ℕ} {a : A} {b : B}
      {e : Error}
      → Reads l m xs a
      → Ends l (f a) ys b e
      → Ends l (λ d. and_then (m d) f) (xs ++ ys) b e
  Ends-bind f {xs = xs} {ys = ys} p q = record {
    runs = λ d tail hl hp.
        let here : pending d ≡ xs ++ (ys ++ tail) = hp ∙ append_assoc xs ys tail in
        let next : pending (advance (length xs) d) ≡ ys ++ tail =
          drop-drop d.offset (length xs) d.buffer
          ∙ ap (drop (length xs)) here
          ∙ drop-append_self xs (ys ++ tail) in
        ap (λ r. answer (and_then r f)) (p.runs d (ys ++ tail) hl here)
        ∙ q.runs (advance (length xs) d) tail hl next;
  }

  pub Ends-last {ℓ κ} :
      {A : Type ℓ} {B : Type κ} {m : Reader A} (f : A → Reader B) {xs : List ℕ} {a : A} {b : B}
      {e : Error}
      → Reads l m xs a
      → Ends l (f a) [] b e
      → Ends l (λ d. and_then (m d) f) xs b e
  Ends-last {m = m} f {xs = xs} {b = b} {e = e} p q =
      subst (λ bs. Ends l (λ d. and_then (m d) f) bs b e) (append-nil xs) (Ends-bind f p q)

module _ {ℓ} {A : Type ℓ} {l : BinaryLimits} {m : Reader A} {bs : List ℕ} {a : A} where
  pub decode_body-Ends :
      {e : Error} (tail : List ℕ)
      → IsValid l
      → Ends l m bs a e
      → length (bs ++ tail) ≤ l.max_message_bytes
      → decode_body m (bs ++ tail) l ≡ by_tail tail (ok a) (err e)
  unfolding decode_body new_decoder
  decode_body-Ends tail v p fits =
      rw (IsValid-validate l v, new_decoder, le→ltb_false _ _ fits) (p.runs _ tail refl refl)

  pub decode_body-Reads :
      (tail : List ℕ)
      → IsValid l
      → Reads l m bs a
      → length (bs ++ tail) ≤ l.max_message_bytes
      → decode_body m (bs ++ tail) l ≡ ok a
  unfolding decode_body new_decoder
  decode_body-Reads tail v p fits =
      rw (IsValid-validate l v, new_decoder, le→ltb_false _ _ fits)
        (ap answer (p.runs _ tail refl refl))
