-- ===== src/Cli/Selection/Laws.antt =====
-- What a prompt, a filter and a fixed length give.
use cloud_android_orchestrat.Text.{text_length}
use text.Mathlib.TextLemmas.{nil-append, cons-append}
use Prim.Native.Char.{Char}
use cloud_android_orchestrat.Exec.{ok}
use cloud_android_orchestrat.Cli.Selection.{
  repeat_onto, take_text, to_fixed_length, Chosen, filter_map, prompt_selection_from_slice,
}
use cloud_android_orchestrat.Exec.{panic}
use cloud_android_orchestrat.Prelude.{
  String, ap, ◌++◌, ◌+◌, ◌-◌, ◌<>◌, ◌∙◌, ◌≤◌, Bool, Bool-cases, List, [], arith, false, get_elem?,
  inl, inr, length, ltb, none, not, refl, some, suc, true, zero, ℕ, ◌&&◌, ◌<◌, ◌↔◌, ◌∷◌, ◌≡◌, ◌⊎◌,
}

abbrev none_matches : {K T : Type 0} → List (K × T) → (K → T → Bool) → Bool
none_matches [] pred = true
none_matches ((k, t) ∷ m) pred = not (pred k t) && none_matches m pred

-- Filtering a map works exactly when no entry passes the filter, and then gives the empty map: the
-- result is a nil map, so that the first entry that passes ends the program.
pub filter_map_ok_iff :
    {K T : Type 0} (m : List (K × T)) (pred : K → T → Bool) (r : List (K × T))
    → (filter_map m pred ≡ ok r) ↔ ((none_matches m pred ≡ true) × (r ≡ []))
unfolding filter_map
filter_map_ok_iff [] pred r = (λ e. (refl, ground arith), λ h. ground arith)
filter_map_ok_iff ((k, t) ∷ m) pred r = elim (Bool-cases (pred k t)) [
  | inl passes ↦ rw passes (λ e. absurd (ground arith), λ h. absurd (ground arith))
  | inr filtered ↦ rw filtered (filter_map_ok_iff m pred r)
]

-- An entry that passes is the end of it.
pub filter_map_panics :
    {K T : Type 0} (before after : List (K × T)) (k : K) (t : T) (pred : K → T → Bool)
    → pred k t ≡ true
    → filter_map (before ++ (k, t) ∷ after) pred ≡ panic "assignment to entry in nil map"
unfolding filter_map
filter_map_panics [] after k t pred e = rw e refl
filter_map_panics ((l, u) ∷ before) after k t pred e = elim (Bool-cases (pred l u)) [
  | inl passes ↦ rw passes refl
  | inr filtered ↦ rw filtered (filter_map_panics before after k t pred e)
]

get_elem?-below :
    {T : Type 0} (xs : List T) (n : ℕ) → n < length xs → (x : T) × (get_elem? xs n ≡ some x)
get_elem?-below [] n h = absurd (omega arith)
get_elem?-below (x ∷ xs) zero h = (x, refl)
get_elem?-below (x ∷ xs) (suc n) h = get_elem?-below xs n (omega arith)

get_elem?-beyond : {T : Type 0} (xs : List T) → get_elem? xs (length xs) ≡ none
get_elem?-beyond [] = refl
get_elem?-beyond (x ∷ xs) = get_elem?-beyond xs

-- What a prompt gives is the one choice with the number that was typed, or all of them where that
-- is offered and the number behind the last was typed.
prompt_selection_sound :
    {T : Type 0} (choices : List T) (allow_all : Bool) (c : Chosen) (sel : List T)
    → prompt_selection_from_slice choices allow_all (ok c) ≡ ok sel
    → (c.negative ≡ false)
      × (((t : T) × (get_elem? choices c.magnitude ≡ some t) × (sel ≡ t ∷ []))
          ⊎ ((allow_all ≡ true) × (c.magnitude ≡ length choices) × (sel ≡ choices)))
unfolding prompt_selection_from_slice
prompt_selection_sound choices allow_all c sel e =
    elim (Bool-cases (ltb c.magnitude (length choices))) [
      | inl below ↦
          let (t, g) = get_elem?-below choices c.magnitude (ground arith) in
          (ground arith, inl (t, g, ground arith))
      | inr above ↦
          (ground arith, inr (ground arith, ground arith, ground (arith, get_elem?-beyond choices)))
    ]

text_length-take_text : (n : ℕ) (s : String) → n ≤ text_length s → text_length (take_text n s) ≡ n
unfolding take_text
text_length-take_text zero s h = refl
text_length-take_text (suc n) String.[] h = absurd (omega arith)
text_length-take_text (suc n) (String.◌∷◌ c s) h = omega (arith, text_length-take_text n s)

text_length-repeat_onto : (n : ℕ) (c : Char) → text_length (repeat_onto n c) ≡ n
unfolding repeat_onto
text_length-repeat_onto zero c = refl
text_length-repeat_onto (suc n) c = omega (arith, text_length-repeat_onto n c)

pub text_length-append : (s t : String) → text_length (s <> t) ≡ text_length s + text_length t
text_length-append String.[] t = ap text_length (nil-append t) ∙ omega arith
text_length-append (String.◌∷◌ c s) t =
    ap text_length (cons-append c s t) ∙ omega (arith, text_length-append s t)

-- A text of a fixed length has that length, whether it is cut or filled.
to_fixed_length_lem :
    (v : String) (l : ℕ) (filling : Char) → text_length (to_fixed_length v l filling) ≡ l
unfolding to_fixed_length
to_fixed_length_lem v l filling = elim (Bool-cases (ltb l (text_length v))) [
  | inl long ↦ rw long (text_length-take_text l v (ground arith))
  | inr short ↦ rw short (
      text_length-append v (repeat_onto (l - text_length v) filling)
      ∙ ground (arith, text_length-repeat_onto (l - text_length v) filling))
]
