-- ===== src/Instances/TargetLink/Laws.antt =====
-- What a match of the pattern shows of the link.
use Prim.Native.Char.{Char, code}
use Prim.Native.String.append
use text.Mathlib.TextEquality.{Char-path}
use cloud_android_orchestrat.Prelude.{
  String, ◌≡◌, ◌≢◌, refl, ap, ◌∙◌, Option, some, List, [], ◌∷◌, arith, ◌==◌, ◌<>◌, inl, inr,
  Bool-cases, Option-cases,
}
use cloud_android_orchestrat.Instances.TargetLink.{
  Piece, fixed, some_text, group, strip_prefix, greedy, submatches, instance_target_link,
  find_submatch,
}

-- The text is made of the pieces in order, with these texts for the groups; `.+` stands for no
-- empty text.
abbrev pub Renders : List Piece → String → List String → Type 0
Renders [] s gs = (s ≡ "") × (gs ≡ [])
Renders (fixed p ∷ ps) s gs = (u : String) × (s ≡ p <> u) × Renders ps u gs
Renders (some_text ∷ ps) s gs =
    (t : String) × (u : String) × (s ≡ t <> u) × (t ≢ "") × Renders ps u gs
Renders (group ∷ ps) s gs =
    (t : String) × (u : String) × (hs : List String) × (s ≡ t <> u)
    × (t ≢ "")
    × (gs ≡ t ∷ hs)
    × Renders ps u hs

strip_prefix_sound : (p s rest : String) → strip_prefix p s ≡ some rest → s ≡ p <> rest
unfolding strip_prefix
strip_prefix_sound String.[] s rest e = cc (append.nil rest)
strip_prefix_sound (String.◌∷◌ c p) String.[] rest e = cc
strip_prefix_sound (String.◌∷◌ c p) (String.◌∷◌ d s) rest e = elim (Bool-cases (code c == code d)) [
  | inl same ↦
      let eq : c ≡ d = Char-path c d (ground arith) in
      let tail : s ≡ p <> rest = strip_prefix_sound p s rest (ground arith) in
      cc (append.cons c p rest, eq, tail)
  | inr other ↦ ground arith
]

cons-ne-nil : (c : Char) (s : String) → String.◌∷◌ c s ≢ ""
cons-ne-nil c s e = cc e

-- What `.+` took, what it left, and that the rest of the pattern matches that.
abbrev Taken {ℓ} : {R : Type ℓ} → (String → Option R) → String → String → R → Type ℓ
Taken rest s t r = (u : String) × (s ≡ t <> u) × (t ≢ "") × (rest u ≡ some r)

greedy_sound {ℓ} :
    {R : Type ℓ} (rest : String → Option R) (s t : String) (r : R)
    → greedy rest s ≡ some (t, r)
    → Taken rest s t r
unfolding greedy
greedy_sound rest String.[] t r e = ground arith
greedy_sound rest (String.◌∷◌ c s) t r e = elim (Bool-cases (code c == 10)) [
  | inl newline ↦ ground arith
  | inr other ↦ elim (Option-cases (greedy rest s)) [
    | inl nothing ↦ elim (Option-cases (rest s)) [
      | inl stuck ↦ ground arith
      | inr (q, here) ↦
          let e' : t ≡ String.◌∷◌ c String.[] = ground arith in
          (
            s,
            cc (append.cons c String.[] s, append.nil s, e'),
            rw e' (cons-ne-nil c _),
            ground arith,
          )
    ]
    | inr ((t', r'), longer) ↦
        let e' : t ≡ String.◌∷◌ c t' = ground arith in
        let e'' : r' ≡ r = ground arith in
        let (u, eq, nonempty, left) = greedy_sound rest s t' r' longer in
        (u, cc (append.cons c t' u, e', eq), rw e' (cons-ne-nil c _), left ∙ ap some e'')
  ]
]

-- The pattern's groups, where a text matches, are parts of that text in the places that the
-- pattern gives them.
submatches_sound :
    (ps : List Piece) (s : String) (gs : List String) → submatches ps s ≡ some gs → Renders ps s gs
unfolding submatches
submatches_sound [] String.[] gs e = (refl, ground arith)
submatches_sound [] (String.◌∷◌ c s) gs e = ground arith
submatches_sound (fixed p ∷ ps) s gs e = elim (Option-cases (strip_prefix p s)) [
  | inl missed ↦ ground arith
  | inr (u, found) ↦ (u, strip_prefix_sound p s u found, submatches_sound ps u gs (ground arith))
]
submatches_sound (some_text ∷ ps) s gs e = elim (Option-cases (greedy (submatches ps) s)) [
  | inl missed ↦ ground arith
  | inr ((t, hs), found) ↦
      let (u, eq, nonempty, left) = greedy_sound (submatches ps) s t hs found in
      (t, u, eq, nonempty, submatches_sound ps u gs (ground arith))
]
submatches_sound (group ∷ ps) s gs e = elim (Option-cases (greedy (submatches ps) s)) [
  | inl missed ↦ ground arith
  | inr ((t, hs), found) ↦
      let (u, eq, nonempty, left) = greedy_sound (submatches ps) s t hs found in
      (t, u, hs, eq, nonempty, ground arith, submatches_sound ps u hs left)
]

-- A link that matches the pattern names exactly a project, a zone and an instance, none of them
-- empty, in the places where the pattern has them.
pub find_submatch_sound :
    (link : String) (gs : List String)
    → find_submatch link ≡ some gs
    → Renders instance_target_link link gs
unfolding find_submatch
find_submatch_sound link gs e = submatches_sound instance_target_link link gs e
