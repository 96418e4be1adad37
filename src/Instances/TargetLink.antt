-- ===== src/Instances/TargetLink.antt =====
-- pkg/app/instances/gce.go: the pattern `instanceTargetLinkRe`. Each `.+` takes as much as it can
-- and gives back only what the rest of the pattern needs.
pub mod Laws
use Prim.Native.Char.{code}
use cloud_android_orchestrat.Prelude.{
  String, Option, none, some, List, [], ◌∷◌, ◌==◌, if◌then◌else◌,
}

-- A piece of the pattern: a fixed text, or `.+` or `(.+)`.
pub data Piece : Type 0 where
  fixed : String → Piece
  some_text : Piece
  group : Piece

-- The text behind a given prefix.
unfoldable pub strip_prefix : String → String → Option String
strip_prefix String.[] s = some s
strip_prefix (String.◌∷◌ c p) String.[] = none
strip_prefix (String.◌∷◌ c p) (String.◌∷◌ d s) = if code c == code d then strip_prefix p s else none

-- `.+` before what `rest` matches: the longest text that leaves `rest` a match.
unfoldable pub greedy {ℓ} : {R : Type ℓ} → (String → Option R) → String → Option (String × R)
greedy rest String.[] = none
greedy rest (String.◌∷◌ c s) = if code c == 10 then none else elim (greedy rest s) [
  | some (taken, r) ↦ some (String.◌∷◌ c taken, r)
  | none ↦ elim (rest s) [ none ↦ none | some r ↦ some (String.◌∷◌ c String.[], r) ]
]

abbrev at_end : String → Option (List String)
at_end String.[] = some []
at_end (String.◌∷◌ c s) = none

-- The texts of the groups, if the whole text matches.
unfoldable pub submatches : List Piece → String → Option (List String)
unfolding strip_prefix greedy
submatches [] s = at_end s
submatches (fixed p ∷ ps) s = elim (strip_prefix p s) [ none ↦ none | some r ↦ submatches ps r ]
submatches (some_text ∷ ps) s = elim (greedy (submatches ps) s) [
  | none ↦ none
  | some (t, gs) ↦ some gs
]
submatches (group ∷ ps) s = elim (greedy (submatches ps) s) [
  | none ↦ none
  | some (t, gs) ↦ some (t ∷ gs)
]

abbrev pub instance_target_link : List Piece
instance_target_link =
    fixed "https://"
    ∷ some_text
    ∷ fixed "/compute/v1/projects/"
    ∷ group
    ∷ fixed "/zones/"
    ∷ group
    ∷ fixed "/instances/"
    ∷ group
    ∷ []

-- `FindStringSubmatch` without the whole match: project, zone and instance.
unfoldable pub find_submatch : String → Option (List String)
unfolding submatches
find_submatch link = submatches instance_target_link link
