-- ===== src/Cli/Adb/Writing.antt =====
-- The loop that writes all of a text writes it once and in order, and ends.
use text.Mathlib.TextLemmas.{nil-append, cons-append, append-nil, append_assoc}
use cloud_android_orchestrat.Cli.Selection.{take_text}
use cloud_android_orchestrat.Text.{text_length, text_length_zero}
use cloud_android_orchestrat.Cli.Adb.{drop_text, write_all}
use cloud_android_orchestrat.Prelude.{
  Bool-cases, String, ap, arith, inl, inr, suc, sym, zero, ℕ, ◌-◌, ◌<>◌, ◌<◌, ◌==◌, ◌∙◌, ◌≡◌, ◌≢◌,
}
use cloud_android_orchestrat.Exec.{Exec, Result-cases, ok, panic}

take_text-drop_text : (n : ℕ) (s : String) → take_text n s <> drop_text n s ≡ s
unfolding take_text drop_text
take_text-drop_text zero s = nil-append s
take_text-drop_text (suc n) String.[] = nil-append ""
take_text-drop_text (suc n) (String.◌∷◌ c s) =
    cons-append c (take_text n s) (drop_text n s) ∙ ap (String.◌∷◌ c) (take_text-drop_text n s)

text_length-drop_text : (n : ℕ) (s : String) → text_length (drop_text n s) ≡ text_length s - n
unfolding drop_text
text_length-drop_text zero s = omega arith
text_length-drop_text (suc n) String.[] = omega arith
text_length-drop_text (suc n) (String.◌∷◌ c s) = omega (arith, text_length-drop_text n s)

-- The contract of `io.Writer` for a text that is not empty: without an error something was written,
-- the first so many characters, which the other side has received.
pub record IsWriter {W : Type 0} (write : String → Exec W ℕ) (received : W → String) : Type 0 where
  pub writes :
      (s : String) (w : W) (n : ℕ)
      → 0 < text_length s
      → (write s w).0 ≡ ok n
      → (0 < n) × (received (write s w).1 ≡ received w <> take_text n s)
  pub returns : (s : String) (w : W) (p : String) → (write s w).0 ≢ panic p

module _ {W : Type 0} (write : String → Exec W ℕ) (received : W → String)
    (writer : IsWriter write received) where
  -- With more calls allowed than there are characters, the loop ends without a panic; and where no
  -- call fails, the other side has received the whole text behind what it had.
  pub write_all_lem :
      (fuel : ℕ) (s : String) (w : W)
      → text_length s < fuel
      → ((p : String) → (write_all write fuel s w).0 ≢ panic p)
        × ((write_all write fuel s w).0 ≡ ok tt
            → received (write_all write fuel s w).1 ≡ received w <> s)
  unfolding write_all
  write_all_lem zero s w h = absurd (omega arith)
  write_all_lem (suc fuel) s w h = elim (Bool-cases (text_length s == 0)) [
    | inl done ↦ rw done (
      λ p bad. absurd (ground arith),
      λ e. rw (text_length_zero s (ground arith)) (sym (append-nil (received w))),
    )
    | inr some_left ↦ elim (Result-cases (write s w).0) [
      | inl (n, e) ↦
          let (positive, got) = writer.writes s w n (ground arith) e in
          let (calm, all) =
            write_all_lem fuel (drop_text n s) (write s w).1
              (grind (arith, text_length-drop_text n s)) in
          rw (some_left, e)
            (
              calm,
              λ f.
                  all f
                  ∙ ap (λ t. t <> drop_text n s) got
                  ∙ append_assoc (received w) (take_text n s) (drop_text n s)
                  ∙ ap (λ t. received w <> t) (take_text-drop_text n s),
            )
      | inr (inl (x, e)) ↦
          rw (some_left, e) (λ p bad. absurd (ground arith), λ f. absurd (ground arith))
      | inr (inr (p, e)) ↦ absurd (writer.returns s w p e)
    ]
  ]
