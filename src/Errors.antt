-- ===== src/Errors.antt =====
-- The errors of internal/opcua: a CodecError carries the status code that a peer is told; the text
-- of its message is not modelled. An error made by fmt.Errorf carries no status code.
-- An operation that may fail answers a `Result`, for Go's pair of a value and an error.
use opcda_access_adapter.Prelude.{ℕ, ◌≡◌, refl, Bool, true, false}

pub data Error : Type 0 where
  codec : ℕ → Error
  plain : Error

-- Go's pair of a value and an error: one of the two.
pub data Result {ℓ} (T : Type ℓ) : Type ℓ where
  err : Error → Result T
  ok : T → Result T

infixl 5 ◌>>=◌
-- `if err != nil { return err }` between two steps.
abbrev pub ◌>>=◌ {ℓ κ} : {S : Type ℓ} {T : Type κ} → Result S → (S → Result T) → Result T
err reason >>= step = err reason
ok value >>= step = step value

-- `if test { return error }`
abbrev pub refuse_if : Bool → Error → Result (Unit {0})
refuse_if true reason = err reason
refuse_if false reason = ok tt

infixl 5 ◌>>◌
abbrev pub ◌>>◌ {ℓ} : {T : Type ℓ} → Result (Unit {0}) → Result T → Result T
check >> after = check >>= (λ passed. after)

-- What a chain that succeeded shows of its first step.
pub >>=-eq-ok {ℓ κ} :
    {S : Type ℓ} {T : Type κ} (first : Result S) (step : S → Result T) {value : T}
    → (first >>= step) ≡ ok value
    → (passed : S) × (first ≡ ok passed) × (step passed ≡ ok value)
>>=-eq-ok (err reason) step h = cc
>>=-eq-ok (ok passed) step h = (passed, refl, h)

-- binary.go
abbrev pub status_bad_encoding_error : ℕ
status_bad_encoding_error = 0x8006_0000

abbrev pub status_bad_decoding_error : ℕ
status_bad_decoding_error = 0x8007_0000

abbrev pub status_bad_encoding_limits_exceeded : ℕ
status_bad_encoding_limits_exceeded = 0x8008_0000

-- uacp.go
abbrev pub status_bad_tcp_message_type_invalid : ℕ
status_bad_tcp_message_type_invalid = 0x807e_0000

abbrev pub status_bad_tcp_secure_channel_unknown : ℕ
status_bad_tcp_secure_channel_unknown = 0x807f_0000

abbrev pub status_bad_tcp_message_too_large : ℕ
status_bad_tcp_message_too_large = 0x8080_0000

abbrev pub status_bad_tcp_not_enough_resources : ℕ
status_bad_tcp_not_enough_resources = 0x8081_0000

abbrev pub status_bad_tcp_internal_error : ℕ
status_bad_tcp_internal_error = 0x8082_0000

abbrev pub status_bad_tcp_endpoint_url_invalid : ℕ
status_bad_tcp_endpoint_url_invalid = 0x8083_0000

abbrev pub status_bad_protocol_version_unsupport : ℕ
status_bad_protocol_version_unsupport = 0x80be_0000

-- uasc.go and channel.go
abbrev pub status_bad_security_checks_failed : ℕ
status_bad_security_checks_failed = 0x8013_0000

abbrev pub status_bad_security_mode_rejected : ℕ
status_bad_security_mode_rejected = 0x8054_0000

abbrev pub status_bad_secure_channel_closed : ℕ
status_bad_secure_channel_closed = 0x8086_0000

abbrev pub status_bad_secure_channel_token_unknown : ℕ
status_bad_secure_channel_token_unknown = 0x8087_0000

abbrev pub decoding_error : Error
decoding_error = codec status_bad_decoding_error

abbrev pub limits_error : Error
limits_error = codec status_bad_encoding_limits_exceeded

abbrev pub encoding_error : Error
encoding_error = codec status_bad_encoding_error

-- channel.go and session.go
abbrev pub status_bad_secure_channel_id_invalid : ℕ
status_bad_secure_channel_id_invalid = 0x8022_0000

abbrev pub status_bad_identity_token_invalid : ℕ
status_bad_identity_token_invalid = 0x8020_0000

abbrev pub status_bad_identity_token_rejected : ℕ
status_bad_identity_token_rejected = 0x8021_0000

abbrev pub status_bad_nonce_invalid : ℕ
status_bad_nonce_invalid = 0x8024_0000

abbrev pub status_bad_session_id_invalid : ℕ
status_bad_session_id_invalid = 0x8025_0000

abbrev pub status_bad_session_closed : ℕ
status_bad_session_closed = 0x8026_0000

abbrev pub status_bad_too_many_sessions : ℕ
status_bad_too_many_sessions = 0x8056_0000

-- subscription.go and statuscode.go
abbrev pub status_bad_nothing_to_do : ℕ
status_bad_nothing_to_do = 0x800f_0000

abbrev pub status_bad_subscription_id_invalid : ℕ
status_bad_subscription_id_invalid = 0x8028_0000

abbrev pub status_bad_monitored_item_id_invalid : ℕ
status_bad_monitored_item_id_invalid = 0x8042_0000

abbrev pub status_bad_too_many_subscriptions : ℕ
status_bad_too_many_subscriptions = 0x8077_0000

abbrev pub status_bad_no_subscription : ℕ
status_bad_no_subscription = 0x8079_0000

abbrev pub status_bad_sequence_number_unknown : ℕ
status_bad_sequence_number_unknown = 0x807a_0000

abbrev pub status_bad_message_not_available : ℕ
status_bad_message_not_available = 0x807b_0000

abbrev pub status_bad_not_readable : ℕ
status_bad_not_readable = 0x803a_0000

abbrev pub status_bad_not_connected : ℕ
status_bad_not_connected = 0x808a_0000
