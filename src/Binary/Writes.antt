-- ===== src/Binary/Writes.antt =====
-- The bytes that each method of the encoder of internal/opcua/binary.go appends, by the wire format
-- of OPC 10000-6 clause 5.2.
use mathlib.Core.Path.{fun_ext}
use opcda_access_adapter.Prelude.{
  subst, ℕ, ◌+◌, ◌%◌, ◌^◌, ◌≤◌, ◌<◌, ◌≡◌, ap, List, [], ◌∷◌, ◌++◌, arith, length, ltb, le→ltb_false,
  if◌then◌else◌, inl, inr, Bool-cases, ltb_false→le, some, ◌∙◌,
}
use opcda_access_adapter.Prelude.Int.{ℤ, pos, word, word-signed_32}
use opcda_access_adapter.Prelude.Bytes.{le}
use opcda_access_adapter.Errors.{Error, limits_error}
use opcda_access_adapter.Binary.Limits.{BinaryLimits, IsValid}
use opcda_access_adapter.Binary.Encoder.{
  Encoder, ◌>>◌, write, fail, write_byte_value, write_uint16, write_uint32, write_int32,
  write_uint64, write_int64, write_status_code, narrow32, write_string, write_byte_string,
  write_null_string, write_null_array, write_array_length, write_guid, Guid, null_length,
  write_null_byte_string,
}
use opcda_access_adapter.Binary.Emits.{Emits, Emits-write, Emits-then, Emits-iff}

-- A String and a ByteString: an Int32 length, then the bytes. An array count is such a length.
abbrev pub string_wire : List ℕ → List ℕ
string_wire s = le 4 (length s) ++ s

-- The Int32 length -1 marks a null value.
abbrev pub null_wire : List ℕ
null_wire = le 4 0xffff_ffff

abbrev pub guid_wire : Guid → List ℕ
guid_wire g = le 4 g.data1 ++ (le 2 g.data2 ++ (le 2 g.data3 ++ g.data4))

pub word-narrow32 : (n : ℕ) → n < 2 ^ 31 → word 32 (narrow32 n) ≡ n
unfolding narrow32
word-narrow32 n h = word-signed_32 (n % 2 ^ 32) (omega arith) ∙ omega arith

module _ {l : BinaryLimits} where
  pub Emits-byte : (n : ℕ) → Emits l (write_byte_value n) (n ∷ []) (Unit {0})
  unfolding write_byte_value
  Emits-byte n = Emits-write (n ∷ [])

  pub Emits-uint16 : (n : ℕ) → Emits l (write_uint16 n) (le 2 n) (Unit {0})
  unfolding write_uint16
  Emits-uint16 n = Emits-write (le 2 n)

  pub Emits-uint32 : (n : ℕ) → Emits l (write_uint32 n) (le 4 n) (Unit {0})
  unfolding write_uint32
  Emits-uint32 n = Emits-write (le 4 n)

  pub Emits-int32 : (z : ℤ) → Emits l (write_int32 z) (le 4 (word 32 z)) (Unit {0})
  unfolding write_int32
  Emits-int32 z = Emits-uint32 (word 32 z)

  pub Emits-uint64 : (n : ℕ) → Emits l (write_uint64 n) (le 8 n) (Unit {0})
  unfolding write_uint64
  Emits-uint64 n = Emits-write (le 8 n)

  pub Emits-int64 : (z : ℤ) → Emits l (write_int64 z) (le 8 (word 64 z)) (Unit {0})
  unfolding write_int64
  Emits-int64 z = Emits-uint64 (word 64 z)

  pub Emits-status_code : (n : ℕ) → Emits l (write_status_code n) (le 4 n) (Unit {0})
  unfolding write_status_code
  Emits-status_code n = Emits-uint32 n

  -- Two methods in a row, where the first cannot be refused for its argument.
  pub Emits-after :
      {v w : Encoder → Encoder} {xs ys : List ℕ} {D : Type 0}
      → Emits l v xs (Unit {0})
      → Emits l w ys D
      → Emits l (λ e. w (v e)) (xs ++ ys) D
  Emits-after m n = Emits-iff (λ d. (tt, d)) (λ c. c.1) (Emits-then m n)

  -- A guard on a bound of the limits in front of a method.
  pub Emits-checked :
      (bound : BinaryLimits → ℕ) (k : ℕ) (x : Error) {w : Encoder → Encoder} {bs : List ℕ}
      → ((e : Encoder) (y : Error) → e.failure ≡ some y → w e ≡ e)
      → (k ≤ bound l → Emits l w bs (Unit {0}))
      → Emits l (λ e. if ltb (bound e.limits) k then fail x e else w e) bs (k ≤ bound l)
  unfolding fail
  Emits-checked bound k x {w = w} sticks m = record {
    sticky = λ e y h. ground (arith, sticks e y h);
    emits = λ e hl hf c fits. rw (ap bound hl, le→ltb_false _ _ c) ((m c).emits e hl hf tt fits);
    only_if = λ e hl hf hb. elim (Bool-cases (ltb (bound e.limits) k)) [
      | inl over ↦ rw over (rw (hf, fail) (λ h. cc))
      | inr under ↦ rw under (λ h.
          let c : k ≤ bound l = rw hl at (ltb_false→le _ _ under) in
          (c, ((m c).only_if e hl hf hb h).1))
    ];
  }

  Emits-counted : (n : ℕ) → n < 2 ^ 31 → Emits l (write_int32 (narrow32 n)) (le 4 n) (Unit {0})
  Emits-counted n h = rw (word-narrow32 n h) at (Emits-int32 (narrow32 n))

  pub Emits-prefixed :
      (s : List ℕ)
      → length s < 2 ^ 31
      → Emits l (write_int32 (narrow32 (length s)) >> write s) (string_wire s) (Unit {0})
  Emits-prefixed s h = Emits-after (Emits-counted (length s) h) (Emits-write s)

  Emits-within :
      (bound : BinaryLimits → ℕ) (s : List ℕ)
      → bound l < 2 ^ 31
      → Emits l
          (λ e.
            if ltb (bound e.limits) (length s)
            then fail limits_error e
            else (write_int32 (narrow32 (length s)) >> write s) e)
          (string_wire s)
          (length s ≤ bound l)
  Emits-within bound s fits =
      Emits-checked bound (length s) limits_error
        ((Emits-then (Emits-int32 (narrow32 (length s))) (Emits-write s)).sticky)
        (λ c. Emits-prefixed s (omega arith))

  -- A string within its bound is written as its length and its bytes; a longer one is refused.
  pub Emits-string :
      (v : IsValid l) (s : List ℕ)
      → Emits l (write_string s) (string_wire s) (length s ≤ l.max_string_bytes)
  unfolding write_string
  Emits-string v s = Emits-within (λ k. k.max_string_bytes) s (omega arith)

  pub Emits-byte_string :
      (v : IsValid l) (s : List ℕ)
      → Emits l (write_byte_string s) (string_wire s) (length s ≤ l.max_byte_string_bytes)
  unfolding write_byte_string
  Emits-byte_string v s = Emits-within (λ k. k.max_byte_string_bytes) s (omega arith)

  pub Emits-null_string : Emits l write_null_string null_wire (Unit {0})
  unfolding write_null_string word
  Emits-null_string = Emits-int32 null_length

  pub Emits-null_byte_string : Emits l write_null_byte_string null_wire (Unit {0})
  unfolding write_null_byte_string word
  Emits-null_byte_string = Emits-int32 null_length

  pub Emits-null_array : Emits l write_null_array null_wire (Unit {0})
  unfolding write_null_array word
  Emits-null_array = Emits-int32 null_length

  pub Emits-array_length :
      (v : IsValid l) (n : ℕ)
      → Emits l (write_array_length (pos n)) (le 4 n) (n ≤ l.max_array_length)
  unfolding write_array_length
  Emits-array_length v n =
      subst (λ w. Emits l w (le 4 n) (n ≤ l.max_array_length))
        (fun_ext (λ e. rw (le→ltb_false (n + 0) 0 (omega arith), write_array_length)))
        (Emits-checked (λ k. k.max_array_length) n limits_error ((Emits-int32 (narrow32 n)).sticky)
          (λ c. Emits-counted n (omega arith)))

  pub Emits-guid : (g : Guid) → Emits l (write_guid g) (guid_wire g) (Unit {0})
  unfolding write_guid
  Emits-guid g = Emits-after (Emits-uint32 g.data1) (
      Emits-after (Emits-uint16 g.data2) (Emits-after (Emits-uint16 g.data3) (Emits-write g.data4)))
