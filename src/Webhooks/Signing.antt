-- ===== src/Webhooks/Signing.antt =====
-- The signatures of deliveries (app/services/webhook_signing.py). The HMAC, the clock and the
-- reading of timestamps belong to the standard library. A moment is a number of microseconds.
use Prim.Native.String.{◌++◌ as append}
use apex_chainx_backend.Common.{
  ℕ, ◌+◌, ◌*◌, String, Bool, false, Option, none, some, str_eq, leb, ◌==◌, ◌&&◌, not, if◌then◌else◌,
  get_or,
}

-- `fromisoformat` is `none` where it raises; a moment without a zone is read as UTC.
unfoldable pub is_timestamp_fresh : (String → Option ℕ) → String → ℕ → ℕ → Bool
is_timestamp_fresh fromisoformat timestamp max_skew_seconds now = elim (fromisoformat timestamp) [
  | none ↦ false
  | some sent_at ↦
      leb now (sent_at + max_skew_seconds * 1000000)
      && leb sent_at (now + max_skew_seconds * 1000000)
]

module _ (hmac : String → String → String) where
  unfoldable pub sign_payload_v1 : String → String → String
  sign_payload_v1 secret payload = hmac secret payload

  unfoldable pub verify_signature_v1 : String → String → String → Bool
  unfolding sign_payload_v1
  verify_signature_v1 secret payload signature = str_eq (sign_payload_v1 secret payload) signature

  unfoldable pub signing_input_v2 : String → String → String
  signing_input_v2 timestamp payload = append timestamp (append "." payload)

  unfoldable pub sign_payload_v2 : String → String → String → String
  sign_payload_v2 secret payload timestamp = hmac secret (signing_input_v2 timestamp payload)

  unfoldable pub verify_signature_v2 : String → String → String → String → Bool
  verify_signature_v2 secret payload signature timestamp =
      str_eq (sign_payload_v2 secret payload timestamp) signature

  -- `clock` is `datetime.now(UTC).isoformat()`, `none` the ValueError.
  unfoldable pub sign_payload :
      String → String → ℕ → Option String → String → Option (String × ℕ × String)
  sign_payload secret payload version timestamp clock =
      let given = get_or timestamp "" in
      let ts = if str_eq given "" then clock else given in
      if version == 1
      then some (sign_payload_v1 secret payload, version, given)
      else if version == 2
      then some (sign_payload_v2 secret payload ts, version, ts)
      else none

  unfoldable pub verify_signature : String → String → String → ℕ → Option String → Bool
  verify_signature secret payload signature version timestamp =
      let given = get_or timestamp "" in
      if version == 1
      then verify_signature_v1 secret payload signature
      else if version == 2
      then not (str_eq given "") && verify_signature_v2 secret payload signature given
      else false

  unfoldable pub verify_delivery_signature :
      (String → Option ℕ) → String → String → String → ℕ → Option String → ℕ → ℕ → Bool
  verify_delivery_signature fromisoformat secret payload signature version timestamp skew now =
      let given = get_or timestamp "" in
      if version == 1
      then verify_signature_v1 secret payload signature
      else not (str_eq given "")
        && is_timestamp_fresh fromisoformat given skew now
        && verify_signature_v2 secret payload signature given
