-- ===== src/Uasc/SequenceLaws.antt =====
-- The numbering of chunks of internal/opcua/uasc.go: which numbers a receiver takes, and that it
-- takes those that a sender counts.
use opcda_access_adapter.Prelude.{
  ℕ, zero, suc, ◌+◌, ◌^◌, ◌<◌, ◌≡◌, refl, ap, ◌∙◌, Bool, true, false, ◌⊎◌, List, [], ◌∷◌,
  if◌then◌else◌, arith,
}
use opcda_access_adapter.Errors.{Result, ok, err, ◌>>=◌, codec, status_bad_security_checks_failed}
use opcda_access_adapter.Uasc.Sequence.{
  SequenceNumbering, legacy, zero_based, legacy_sequence_wrap_floor, max_uint32, SequenceValidator,
  started_at, is_valid_wrap, accept, next_number, next,
}

-- The numbers that OPC 10000-6 6.7.2.4 allows first.
abbrev pub Starts : SequenceNumbering → ℕ → Type 0
Starts zero_based number = number ≡ 0
Starts legacy number = Unit

-- The numbers that it allows behind the number `last`: the next one, or one behind a wrap.
abbrev pub Follows : SequenceNumbering → ℕ → ℕ → Type 0
Follows zero_based last number = (number ≡ last + 1) ⊎ ((last ≡ max_uint32) × (number ≡ 0))
Follows legacy last number =
    (number ≡ last + 1) ⊎ ((legacy_sequence_wrap_floor < last) × (number < 1024))

abbrev pub Allowed : SequenceValidator → ℕ → Type 0
Allowed v number =
    if v.started then Follows v.numbering v.last number else Starts v.numbering number

abbrev validator : SequenceNumbering → Bool → ℕ → SequenceValidator
validator n s k = record { numbering = n; started = s; last = k }

-- The outcome of a validator with these fields.
exactly :
    (numbering : SequenceNumbering) (started : Bool) (last number : ℕ)
    → last < 2 ^ 32
    → number < 2 ^ 32
    → let v : SequenceValidator = validator numbering started last in
      (Allowed v number × (accept v number ≡ ok (started_at number v)))
      ⊎ ((¬ Allowed v number) × (accept v number ≡ err (codec status_bad_security_checks_failed)))
unfolding accept is_valid_wrap
exactly legacy true last number hl hn = ground arith
exactly legacy false last number hl hn = ground arith
exactly zero_based true last number hl hn = ground arith
exactly zero_based false last number hl hn = ground arith

-- For numbers that fit a UInt32, a receiver takes a number exactly where the numbering allows it
-- next, and it remembers it; every other one is answered with the security checks error.
pub accept_exactly :
    (v : SequenceValidator) (number : ℕ)
    → v.last < 2 ^ 32
    → number < 2 ^ 32
    → (Allowed v number × (accept v number ≡ ok (started_at number v)))
      ⊎ ((¬ Allowed v number) × (accept v number ≡ err (codec status_bad_security_checks_failed)))
accept_exactly v number hl hn = exactly v.numbering v.started v.last number hl hn

next_in_range :
    (numbering : SequenceNumbering) (started : Bool) (last : ℕ)
    → next_number (validator numbering started last) < 2 ^ 32
unfolding next_number
next_in_range legacy true last = ground arith
next_in_range legacy false last = ground arith
next_in_range zero_based true last = ground arith
next_in_range zero_based false last = ground arith

next_taken :
    (numbering : SequenceNumbering) (started : Bool) (last : ℕ)
    → last < 2 ^ 32
    → let v : SequenceValidator = validator numbering started last in
      accept v (next_number v) ≡ ok (started_at (next_number v) v)
unfolding accept next_number is_valid_wrap
next_taken legacy true last h = ground arith
next_taken legacy false last h = ground arith
next_taken zero_based true last h = ground arith
next_taken zero_based false last h = ground arith

-- The numbers of the next `k` chunks of a sender, and the sender behind them.
unfoldable pub send_all : ℕ → SequenceValidator → List ℕ × SequenceValidator
unfolding next
send_all zero v = ([], v)
send_all (suc k) v =
    let (number, w) = next v in let (numbers, final) = send_all k w in (number ∷ numbers, final)

-- The numbers of chunks in the order in which a receiver gets them.
unfoldable pub accept_all : SequenceValidator → List ℕ → Result SequenceValidator
accept_all v [] = ok v
accept_all v (number ∷ numbers) = do w ← accept v number; accept_all w numbers

-- However many chunks a sender counts from a number that fits a UInt32, a receiver in the same
-- state takes their numbers in that order, wraps included, and ends in the state of the sender.
pub accept_all-send_all :
    (v : SequenceValidator) (k : ℕ)
    → v.last < 2 ^ 32
    → accept_all v (send_all k v).0 ≡ ok (send_all k v).1
unfolding accept_all send_all next
accept_all-send_all v zero h = refl
accept_all-send_all v (suc k) h =
    ap (λ r. r >>= (λ w. accept_all w (send_all k (started_at (next_number v) v)).0))
      (next_taken v.numbering v.started v.last h)
    ∙ accept_all-send_all (started_at (next_number v) v) k
        (next_in_range v.numbering v.started v.last)

taken_once :
    (numbering : SequenceNumbering) (last : ℕ)
    → last < 2 ^ 32
    → accept (validator numbering true last) last ≡ err (codec status_bad_security_checks_failed)
unfolding accept is_valid_wrap
taken_once legacy last h = ground arith
taken_once zero_based last h = ground arith

accepted : (v w : SequenceValidator) (number : ℕ) → accept v number ≡ ok w → w ≡ started_at number v
unfolding accept
accepted v w number h = ground arith

-- A number that fits a UInt32 and that a receiver has taken is refused where it comes again at
-- once: a chunk is not replayed.
pub accept-replay :
    (v w : SequenceValidator) (number : ℕ)
    → number < 2 ^ 32
    → accept v number ≡ ok w
    → accept w number ≡ err (codec status_bad_security_checks_failed)
accept-replay v w number hn h =
    ap (λ r. accept r number) (accepted v w number h) ∙ taken_once v.numbering number hn
