-- ===== src/Webhooks/Verified.antt =====
-- What a receiver finds of a signed delivery (app/services/webhook_signing.py).
use apex_chainx_backend.Common.{
  ℕ, ◌≡◌, inl, inr, String, true, false, Option, some, str_eq, str_eq_refl, ◌==◌, if◌then◌else◌,
  Bool-cases, arith,
}
use apex_chainx_backend.Webhooks.Signing.{
  sign_payload, sign_payload_v1, sign_payload_v2, verify_signature, verify_signature_v1,
  verify_signature_v2, is_timestamp_fresh, verify_delivery_signature,
}

-- A signature that was made is valid for its payload and the timestamp returned with it, and a
-- receiver accepts the delivery exactly while that timestamp is fresh; of version 1, at any time.
pub sign_payload-verified :
    (hmac : String → String → String) (fromisoformat : String → Option ℕ) (secret payload : String)
    (version : ℕ) (timestamp : Option String) (clock : String) (sig stamp : String) (v skew now : ℕ)
    → str_eq clock "" ≡ false
    → sign_payload hmac secret payload version timestamp clock ≡ some (sig, v, stamp)
    → (verify_signature hmac secret payload sig v (some stamp) ≡ true)
      × (verify_delivery_signature hmac fromisoformat secret payload sig v (some stamp) skew now
          ≡ (if v == 1 then true else is_timestamp_fresh fromisoformat stamp skew now))
unfolding sign_payload verify_signature verify_delivery_signature verify_signature_v1
    verify_signature_v2
sign_payload-verified hmac fromisoformat secret payload version timestamp clock sig stamp v skew now
      h signed =
    elim (Bool-cases (version == 1)) [
      | inl legacy ↦
          let valid : str_eq (sign_payload_v1 hmac secret payload) sig ≡ true =
            ground (arith, str_eq_refl sig, signed) in
          let same : v == 1 ≡ true = ground (arith, signed) in
          (ground (arith, valid, same), ground (arith, valid, same))
      | inr newer ↦ elim (Bool-cases (version == 2)) [
        | inr unknown ↦ ground arith
        | inl stamped ↦
            let present : str_eq stamp "" ≡ false = ground (arith, signed, h) in
            let valid : str_eq (sign_payload_v2 hmac secret payload stamp) sig ≡ true =
              ground (arith, str_eq_refl sig, signed) in
            let same : v ≡ 2 = ground (arith, signed) in
            (ground (arith, valid, same, present), ground (arith, valid, same, present))
      ]
    ]
