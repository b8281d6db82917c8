-- ===== src/Session/Identity.antt =====
-- internal/opcua/session.go: requireAnonymousIdentity, the check of a user identity token, which
-- decodes the token's body.
use opcda_access_adapter.Prelude.{ℕ, ◌||◌, ◌&&◌, not, Option, List, ◌==◌, if◌then◌else◌}
use opcda_access_adapter.Prelude.Keys.{same}
use opcda_access_adapter.Errors.{
  Error, Result, ok, err, codec, ◌>>=◌, status_bad_identity_token_invalid,
  status_bad_identity_token_rejected,
}
use opcda_access_adapter.Binary.Limits.{default_binary_limits}
use opcda_access_adapter.Binary.Decoder.{Reading, got, failed, new_decoder, read_string}
use opcda_access_adapter.Binary.Texts.{or_empty}
use opcda_access_adapter.NodeId.{is_null, is_numeric}
use opcda_access_adapter.Structures.{ExtensionObject}

abbrev pub anonymous_identity_token_encoding_id : ℕ
anonymous_identity_token_encoding_id = 321

abbrev pub token_invalid : Error
token_invalid = codec status_bad_identity_token_invalid

-- What follows ReadString of the token's policy identifier.
abbrev pub compare_policy : List ℕ → Reading (Option (List ℕ)) → Result (Unit {0})
compare_policy published (failed e d) = err token_invalid
compare_policy published (got policy d) =
    if not (same (or_empty policy) published)
    then err (codec status_bad_identity_token_rejected)
    else ok tt

abbrev pub read_policy : List ℕ → List ℕ → Result (Unit {0})
read_policy body published =
    new_decoder body default_binary_limits >>= (λ d. compare_policy published (read_string d))

unfoldable pub require_anonymous_identity : ExtensionObject → List ℕ → Result (Unit {0})
unfolding is_null
require_anonymous_identity token published =
    if is_null token.type_id && (token.encoding == 0x00)
    then ok tt
    else if not (token.type_id.namespace == 0)
        || not (is_numeric token.type_id.type)
        || not (token.type_id.numeric_id == anonymous_identity_token_encoding_id)
    then err token_invalid
    else if token.encoding == 0x00
    then ok tt
    else if not (token.encoding == 0x01)
    then err token_invalid
    else read_policy token.body published
