-- ===== src/Encryption/Laws.antt =====
-- The fake encryption gives back what it took.
use Prim.Native.Nat.{bit_xor}
use cloud_android_orchestrat.Prelude.{
  every_below, every_below-true, ℕ, ◌<◌, ◌≡◌, ◌≢◌, refl, ap, true, ◌&&◌, [], ◌∷◌, map, arith, ◌==◌,
  not, All,
}
use cloud_android_orchestrat.Exec.{Result, ok}
use cloud_android_orchestrat.Database.{Bytes}
use cloud_android_orchestrat.Encryption.{fake_encrypt, fake_decrypt}

flip_table :
    every_below (λ x. bit_xor (bit_xor x 255) 255 == x && not (bit_xor x 255 == x)) 256 ≡ true
unfolding every_below
flip_table = refl

flip_twice : (x : ℕ) → x < 256 → (bit_xor (bit_xor x 255) 255 ≡ x) × (bit_xor x 255 ≢ x)
flip_twice x h = let e = every_below-true _ 256 x h flip_table in ground (arith, e)

flip-All :
    (b : Bytes) → All (λ x. x < 256) b → map (λ x. bit_xor x 255) (map (λ x. bit_xor x 255) b) ≡ b
flip-All [] h = refl
flip-All (x ∷ b) (h, hs) = cc ((flip_twice x h).0, flip-All b hs)

abbrev decrypt_result : Result Bytes → Result Bytes
decrypt_result (ok b) = fake_decrypt b
decrypt_result r = r

-- Decrypting what was encrypted gives the plaintext back, for any bytes.
decrypt-encrypt : (b : Bytes) → All (λ x. x < 256) b → decrypt_result (fake_encrypt b) ≡ ok b
unfolding fake_encrypt fake_decrypt
decrypt-encrypt b h = ap ok (flip-All b h)

-- No message but the empty one is its own ciphertext.
encrypt-ne : (x : ℕ) (b : Bytes) → x < 256 → fake_encrypt (x ∷ b) ≢ ok (x ∷ b)
unfolding fake_encrypt
encrypt-ne x b h e = ground (arith, flip_twice x h)
