-- ===== src/Encryption.antt =====
-- pkg/app/encryption: the service's interface and the fake implementation (fake.go). The other one
-- (gcpkms.go) is in Startup.Kms.
pub mod Laws
use Prim.Native.Nat.{bit_xor}
use cloud_android_orchestrat.Prelude.{map}
use cloud_android_orchestrat.Exec.{Result, ok}
use cloud_android_orchestrat.Database.{Bytes}

-- `encryption.Service`
pub record EncryptionService : Type 0 where
  pub encrypt : Bytes → Result Bytes
  pub decrypt : Bytes → Result Bytes

-- Every byte is flipped by the mask 255.
unfoldable pub fake_encrypt : Bytes → Result Bytes
fake_encrypt plaintext = ok (map (λ b. bit_xor b 255) plaintext)

-- Same procedure to decrypt
unfoldable pub fake_decrypt : Bytes → Result Bytes
unfolding fake_encrypt
fake_decrypt ciphertext = fake_encrypt ciphertext

unfoldable pub fake_encryption : EncryptionService
unfolding fake_encrypt fake_decrypt
fake_encryption = record { encrypt = fake_encrypt; decrypt = fake_decrypt }
