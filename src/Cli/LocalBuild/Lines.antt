-- ===== src/Cli/LocalBuild/Lines.antt =====
-- The lines of the list of required files.
use cloud_android_orchestrat.Cli.LocalBuild.{is_newline}
use cloud_android_orchestrat.Prelude.{Bool, List, String, [], false, ◌<>◌, ◌||◌, ◌∷◌}

-- Lines put together again.
abbrev pub joined_lines : List String → String
joined_lines [] = ""
joined_lines (line ∷ []) = line
joined_lines (line ∷ next ∷ lines) = line <> "\n" <> joined_lines (next ∷ lines)

abbrev pub has_newline : String → Bool
has_newline String.[] = false
has_newline (String.◌∷◌ c s) = is_newline c || has_newline s
