-- ===== src/Cli/Commands/Prompts.antt =====
-- pkg/cli/cli.go: the prompts of commands.
use cloud_android_orchestrat.Cli.Selection.{prompt_selection_from_slice}
use cloud_android_orchestrat.Text.{itoa}
use cloud_android_orchestrat.Cli.Service.{Service}
use cloud_android_orchestrat.Cli.Locators.{Statuses}
use cloud_android_orchestrat.Cli.Commands.{CommandEnv}
use cloud_android_orchestrat.Cli.Creation.{hostnames}
use cloud_android_orchestrat.Cli.Console.{Console, outside, print_err}
use cloud_android_orchestrat.Exec.{Exec, crash, pure, wrapped, ◌>>=◌, ◌>>◌}
use cloud_android_orchestrat.Prelude.{
  Bool, List, String, [], false, if◌then◌else◌, length, map, suc, true, ℕ, ◌<>◌, ◌∷◌,
}

-- The lines of the choices, numbered from `i`
abbrev choice_lines : ℕ → List String → String
choice_lines i [] = ""
choice_lines i (x ∷ xs) = itoa i <> ") " <> x <> "\n" <> choice_lines (suc i) xs

abbrev all_line : Bool → ℕ → String
all_line allow_all n = if allow_all then itoa n <> ") All\n" else ""

module _ {W C : Type 0} (env : CommandEnv W C) where
  -- The text of a prompt, the number that is read, and the choice
  unfoldable pub prompt : {T : Type 0} → List T → (T → String) → Bool → Exec (Console W) (List T)
  prompt choices to_str allow_all = do
    print_err (choice_lines 0 (map to_str choices))
    print_err (all_line allow_all (length choices))
    print_err "Choose an option: "
    (λ c.
        let (scanned, c') = outside env.scan c in
        (prompt_selection_from_slice choices allow_all scanned, c'))

  -- `PromptSelectionFromMap`, on the entries in the order in which they are visited
  unfoldable pub prompt_selection_from_map :
      {K T : Type 0} → List (K × T) → (K → T → String) → Bool → Exec (Console W) (List (K × T))
  prompt_selection_from_map choices to_str allow_all =
      prompt choices (λ e. to_str e.0 e.1) allow_all

  -- `promptConnectionSelection`
  unfoldable pub prompt_connection_selection : Statuses → Exec (Console W) Statuses
  prompt_connection_selection devices = do
    print_err "Multiple connections match:\n"
    prompt_selection_from_map devices (λ cvd s. cvd.host <> " " <> cvd.name) true

  -- `sel[0]`
  abbrev first_choice : List String → Exec (Console W) String
  first_choice [] = crash "index out of range"
  first_choice (name ∷ names) = pure name

  abbrev chosen_name : List String → Exec (Console W) String
  chosen_name [] = pure ""
  chosen_name (name ∷ names) = prompt (name ∷ names) (λ s. s) false >>= first_choice

  -- `promptHostNameSelection`
  unfoldable pub prompt_host_name_selection : Service W → Exec (Console W) String
  prompt_host_name_selection service = do
    names ← wrapped "Failed to list hosts" (outside (hostnames service))
    chosen_name names
