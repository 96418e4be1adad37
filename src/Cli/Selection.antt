-- ===== src/Cli/Selection.antt =====
-- pkg/cli/cli.go: the prompts for a choice, the filters, and texts of a fixed length.
pub mod Laws
use cloud_android_orchestrat.Prelude.{Map}
use cloud_android_orchestrat.Errors.{plain, wrap}
use cloud_android_orchestrat.Text.{itoa, text_length}
use cloud_android_orchestrat.Exec.{Result, err, ok, panic}
use cloud_android_orchestrat.Prelude.{
  Bool, List, String, [], get_elem?, if◌then◌else◌, leb, length, ltb, none, some, suc, zero, ℕ, ◌-◌,
  ◌<>◌, ◌||◌, ◌∷◌,
}
use Prim.Native.Char.{Char}
use Prim.Native.String

-- A number that was read from the terminal.
pub record Chosen : Type 0 where
  pub negative : Bool
  pub magnitude : ℕ

abbrev chosen_text : Chosen → String
chosen_text c = if c.negative then "-" <> itoa c.magnitude else itoa c.magnitude

-- `chosen > maxChoice` of a number that is not negative
abbrev is_above : Bool → ℕ → ℕ → Bool
is_above allow_all len n = if allow_all then ltb len n else leb len n

module _ {T : Type 0} where
  abbrev picked : List T → ℕ → List T
  picked choices n = elim (get_elem? choices n) [ some t ↦ t ∷ [] | none ↦ choices ]

  -- `PromptSelectionFromSlice`, behind the printing; `scanned` is what `Fscanln` gives.
  unfoldable pub prompt_selection_from_slice : List T → Bool → Result Chosen → Result (List T)
  prompt_selection_from_slice choices allow_all (err e) = err (wrap "Failed to read choice" e)
  prompt_selection_from_slice choices allow_all (panic p) = panic p
  prompt_selection_from_slice choices allow_all (ok c) =
      if c.negative || is_above allow_all (length choices) c.magnitude
      then err (plain ("Choice out of range: " <> chosen_text c))
      else ok (picked choices c.magnitude)

  -- `filterSlice`
  unfoldable pub filter_slice : List T → (T → Bool) → List T
  filter_slice [] pred = []
  filter_slice (t ∷ s) pred = let rest = filter_slice s pred in if pred t then t ∷ rest else rest

-- `filterMap`: the result is a nil map, into which no entry can be written.
unfoldable pub filter_map : {K T : Type 0} → List (K × T) → (K → T → Bool) → Result (List (K × T))
filter_map [] pred = ok []
filter_map ((k, t) ∷ m) pred =
    let rest = filter_map m pred in
    if pred k t then panic "assignment to entry in nil map" else rest

unfoldable pub take_text : ℕ → String → String
take_text zero s = ""
take_text (suc n) String.[] = ""
take_text (suc n) (String.◌∷◌ c s) = String.◌∷◌ c (take_text n s)

unfoldable pub repeat_onto : ℕ → Char → String
repeat_onto zero c = ""
repeat_onto (suc n) c = String.◌∷◌ c (repeat_onto n c)

-- `toFixedLength`
unfoldable pub to_fixed_length : String → ℕ → Char → String
unfolding take_text repeat_onto
to_fixed_length v l filling =
    if ltb l (text_length v) then take_text l v else v <> repeat_onto (l - text_length v) filling
