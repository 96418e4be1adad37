-- ===== src/App/Random.antt =====
-- pkg/app/app.go: session keys and OAuth2 states are texts of 64 digits.
use cloud_android_orchestrat.Prelude.{arith, ℕ, ◌+◌, ◌^◌, ◌<◌, ◌≡◌}
use cloud_android_orchestrat.Text.{hex_onto, text_length}
use cloud_android_orchestrat.Text.Digits.{text_length-hex_onto, hex_onto_injective}
use cloud_android_orchestrat.App.Defs.{App, hex_string_at}

module _ {D C : Type 0} (app : App D C) where
  -- The text has 64 characters, whatever the generator gives.
  text_length-hex_string_at : (n : ℕ) → text_length (hex_string_at app n) ≡ 64
  unfolding hex_string_at
  text_length-hex_string_at n = omega (
    arith,
    text_length-hex_onto 16 (app.rng n) (
        hex_onto 16 (app.rng (n + 1))
          (hex_onto 16 (app.rng (n + 2)) (hex_onto 16 (app.rng (n + 3)) ""))),
    text_length-hex_onto 16 (app.rng (n + 1))
        (hex_onto 16 (app.rng (n + 2)) (hex_onto 16 (app.rng (n + 3)) "")),
    text_length-hex_onto 16 (app.rng (n + 2)) (hex_onto 16 (app.rng (n + 3)) ""),
    text_length-hex_onto 16 (app.rng (n + 3)) "",
  )

  -- A generator of 64-bit values that gives equal texts gave the same four values: no bit of
  -- them is lost.
  hex_string_at_injective :
      (n m : ℕ)
      → ((i : ℕ) → app.rng i < 2 ^ 64)
      → hex_string_at app n ≡ hex_string_at app m
      → (app.rng n ≡ app.rng m)
        × (app.rng (n + 1) ≡ app.rng (m + 1))
        × (app.rng (n + 2) ≡ app.rng (m + 2))
        × (app.rng (n + 3) ≡ app.rng (m + 3))
  unfolding hex_string_at
  hex_string_at_injective n m u e =
      let (a, e1) = hex_onto_injective 16 (app.rng n) (app.rng m) _ _ (u n) (u m) e in
      let (b, e2) =
        hex_onto_injective 16 (app.rng (n + 1)) (app.rng (m + 1)) _ _ (u (n + 1)) (u (m + 1)) e1 in
      let (c, e3) =
        hex_onto_injective 16 (app.rng (n + 2)) (app.rng (m + 2)) _ _ (u (n + 2)) (u (m + 2)) e2 in
      let (d, e4) =
        hex_onto_injective 16 (app.rng (n + 3)) (app.rng (m + 3)) _ _ (u (n + 3)) (u (m + 3)) e3 in
      (a, b, c, d)
