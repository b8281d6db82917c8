-- ===== src/Uasc/Sequence.antt =====
-- internal/opcua/uasc.go: the numbering of chunks, SequenceValidator, and the security modes.
use opcda_access_adapter.Prelude.{
  ℕ, ◌+◌, ◌%◌, ◌^◌, Bool, true, false, ◌&&◌, not, ltb, ◌==◌, if◌then◌else◌,
}
use opcda_access_adapter.Errors.{
  Result, ok, err, codec, status_bad_security_checks_failed, status_bad_security_mode_rejected,
}

pub data SequenceNumbering : Type 0 where
  legacy : SequenceNumbering
  zero_based : SequenceNumbering

-- UInt32.MaxValue - 1024
abbrev pub legacy_sequence_wrap_floor : ℕ
legacy_sequence_wrap_floor = 4294966271

abbrev pub max_uint32 : ℕ
max_uint32 = 4294967295

pub record SequenceValidator : Type 0 where
  pub numbering : SequenceNumbering
  pub started : Bool
  pub last : ℕ

abbrev pub new_sequence_validator : SequenceNumbering → SequenceValidator
new_sequence_validator n = record { numbering = n; started = false; last = 0 }

abbrev pub must_start_at_zero : SequenceNumbering → Bool
must_start_at_zero legacy = false
must_start_at_zero zero_based = true

-- `number` in the place of the last one, by a validator that has started.
abbrev pub started_at : ℕ → SequenceValidator → SequenceValidator
started_at number v = record v { started = true; last = number }

-- isValidWrap, by the numbering and the last number.
abbrev pub wraps : SequenceNumbering → ℕ → ℕ → Bool
wraps zero_based last number = (last == max_uint32) && (number == 0)
wraps legacy last number = ltb legacy_sequence_wrap_floor last && ltb number 1024

unfoldable pub is_valid_wrap : SequenceValidator → ℕ → Bool
is_valid_wrap v number = wraps v.numbering v.last number

-- The validator is as it was where a number is refused.
unfoldable pub accept : SequenceValidator → ℕ → Result SequenceValidator
unfolding is_valid_wrap
accept v number =
    if not v.started
    then (if must_start_at_zero v.numbering && not (number == 0)
        then err (codec status_bad_security_checks_failed)
        else ok (started_at number v))
    else if (number == (v.last + 1) % 2 ^ 32) && not (number == 0)
    then ok (started_at number v)
    else if is_valid_wrap v number
    then ok (started_at number v)
    else err (codec status_bad_security_checks_failed)

abbrev pub first_number : SequenceNumbering → ℕ
first_number zero_based = 0
first_number legacy = 1

abbrev pub sender_wraps : SequenceNumbering → ℕ → Bool
sender_wraps zero_based last = last == max_uint32
sender_wraps legacy last = ltb legacy_sequence_wrap_floor last

-- Next, as the number that it answers.
unfoldable pub next_number : SequenceValidator → ℕ
next_number v =
    if not v.started
    then first_number v.numbering
    else if sender_wraps v.numbering v.last
    then 0
    else (v.last + 1) % 2 ^ 32

-- Next, as the number and the state behind it.
unfoldable pub next : SequenceValidator → ℕ × SequenceValidator
unfolding next_number
next v = (next_number v, started_at (next_number v) v)

-- MessageSecurityMode, by its value on the wire.
abbrev pub security_mode_none : ℕ
security_mode_none = 1

unfoldable pub require_supported_security_mode : ℕ → Result (Unit {0})
require_supported_security_mode mode =
    if mode == security_mode_none then ok tt else err (codec status_bad_security_mode_rejected)
