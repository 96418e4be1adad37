-- ===== src/Cli/Adb/Framing.antt =====
-- The frames of the ADB server's messages, which can be told apart in a stream.
use text.Mathlib.TextLemmas.{nil-append, cons-append, head-eq_of_cons-eq, tail-eq_of_cons-eq}
use cloud_android_orchestrat.Cli.Adb.{framed}
use cloud_android_orchestrat.Prelude.{
  String, ap, arith, refl, suc, sym, zero, ℕ, ◌%◌, ◌/◌, ◌<>◌, ◌<◌, ◌∙◌, ◌≡◌,
}
use cloud_android_orchestrat.Text.{hex_char, hex_onto, text_length}
use cloud_android_orchestrat.Text.Digits.{hex_onto_injective}

hex_onto-append : (w n : ℕ) (s t : String) → hex_onto w n s <> t ≡ hex_onto w n (s <> t)
unfolding hex_onto
hex_onto-append zero n s t = refl
hex_onto-append (suc w) n s t =
    hex_onto-append w (n / 16) (String.◌∷◌ (hex_char (n % 16)) s) t
    ∙ ap (hex_onto w (n / 16)) (cons-append (hex_char (n % 16)) s t)

pub append-cancel :
    (s t u v : String) → text_length s ≡ text_length t → s <> u ≡ t <> v → (s ≡ t) × (u ≡ v)
append-cancel String.[] String.[] u v l e = (refl, sym (nil-append u) ∙ e ∙ nil-append v)
append-cancel String.[] (String.◌∷◌ d t) u v l e = absurd (omega arith)
append-cancel (String.◌∷◌ c s) String.[] u v l e = absurd (omega arith)
append-cancel (String.◌∷◌ c s) (String.◌∷◌ d t) u v l e =
    let cons = sym (cons-append c s u) ∙ e ∙ cons-append d t v in
    let (p, q) = append-cancel s t u v (omega arith) (tail-eq_of_cons-eq cons) in
    (ap (λ x. String.◌∷◌ x s) (head-eq_of_cons-eq cons) ∙ ap (String.◌∷◌ d) p, q)

-- Messages below 65536 characters are framed so that a stream of frames is read in one way only:
-- where two streams that begin with a frame are equal, so are the framed messages and what follows.
framed_prefix_free :
    (m n rest more : String)
    → text_length m < 65536
    → text_length n < 65536
    → framed m <> rest ≡ framed n <> more
    → (m ≡ n) × (rest ≡ more)
unfolding framed
framed_prefix_free m n rest more h k e =
    let streams =
      sym (hex_onto-append 4 (text_length m) m rest)
      ∙ e
      ∙ hex_onto-append 4 (text_length n) n more in
    let (lengths, tails) =
      hex_onto_injective 4 (text_length m) (text_length n) (m <> rest) (n <> more) h k streams in
    append-cancel m n rest more lengths tails
