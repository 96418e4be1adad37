-- ===== src/Startup/Kms.antt =====
-- pkg/app/encryption/gcpkms.go: encryption by the key management service of the cloud.
use cloud_android_orchestrat.Encryption.{EncryptionService}
use cloud_android_orchestrat.Database.{Bytes}
use cloud_android_orchestrat.Prelude.{String, arith, inl, inr, refl, ◌∙◌, ◌≡◌}
use cloud_android_orchestrat.Exec.{then_value, Result, Result-cases, ok, wrap_result}

-- The client of the key management library: its creation, and the two requests by the key's name.
pub record KmsClient : Type 0 where
  pub new_key_management_client : Result (Unit {0})
  pub encrypt : String → Bytes → Result Bytes
  pub decrypt : String → Bytes → Result Bytes

module _ (kms : KmsClient) (key_name : String) where
  abbrev with_client : Result Bytes → Result Bytes
  with_client request =
      then_value (wrap_result "Failed to instantiate KMS client" kms.new_key_management_client)
        (λ u. request)

  -- `Encrypt`
  unfoldable pub kms_encrypt : Bytes → Result Bytes
  kms_encrypt plaintext =
      with_client (wrap_result "Failed encryption request" (kms.encrypt key_name plaintext))

  -- `Decrypt`
  unfoldable pub kms_decrypt : Bytes → Result Bytes
  kms_decrypt ciphertext =
      with_client (wrap_result "Failed encryption request" (kms.decrypt key_name ciphertext))

  -- `NewGCPKMSEncryptionService`
  unfoldable pub gcp_kms_encryption_service : EncryptionService
  gcp_kms_encryption_service = record { encrypt = kms_encrypt; decrypt = kms_decrypt }

  -- What the service encrypts it decrypts again, if the key management decrypts with a key what it
  -- encrypted with it.
  kms_decrypt-kms_encrypt :
      (plaintext ciphertext : Bytes)
      → ((p c : Bytes) → kms.encrypt key_name p ≡ ok c → kms.decrypt key_name c ≡ ok p)
      → kms_encrypt plaintext ≡ ok ciphertext
      → kms_decrypt ciphertext ≡ ok plaintext
  unfolding kms_encrypt kms_decrypt
  kms_decrypt-kms_encrypt p c undone e = elim (Result-cases kms.new_key_management_client) [
    | inl (u, f) ↦ elim (Result-cases (kms.encrypt key_name p)) [
      | inl (d, g) ↦
          let same : ok d ≡ ok c = (rw (f, g) at (e)) in
          let back = undone p c (g ∙ same) in rw (f, back) refl
      | inr (inl (x, g)) ↦ let bad = (rw (f, g) at (e)) in absurd (ground arith)
      | inr (inr (x, g)) ↦ let bad = (rw (f, g) at (e)) in absurd (ground arith)
    ]
    | inr (inl (x, f)) ↦ let bad = (rw f at (e)) in absurd (ground arith)
    | inr (inr (x, f)) ↦ let bad = (rw f at (e)) in absurd (ground arith)
  ]
