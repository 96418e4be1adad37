-- ===== src/Startup/Cvdr.antt =====
-- cmd/cvdr/main.go and pkg/cli/config.go: the command line's configuration and its exit code.
use Prim.Native.Char.{Char}
use cloud_android_orchestrat.Exec.{on_error}
use cloud_android_orchestrat.Errors.{GoError, error_text}
use cloud_android_orchestrat.Startup.{getenv}
use cloud_android_orchestrat.Cli.Console.{Console, print_err}
use cloud_android_orchestrat.Exec.{
  Exec, Result, deferring, err, ok, panic, raise, then_value, wrap_result, wrapped, ◌>>◌,
}
use cloud_android_orchestrat.Prelude.{
  Bool, Bool-cases, List, Option, String, arith, false, if◌then◌else◌, inl, inr, refl, str_eq, true,
  ℕ, ◌<>◌, ◌||◌, ◌≡◌,
}

-- `cli.Config`; a number of days that is not positive counts as 0
record CliConfig : Type 0 where
  pub service_url : String
  pub zone : String
  pub http_proxy : String
  connection_control_dir : String
  pub keep_log_files_days : ℕ
  pub machine_type : String
  pub min_cpu_platform : String

-- `DefaultConfig`
abbrev default_config : CliConfig
default_config = record {
  service_url = "";
  zone = "";
  http_proxy = "";
  connection_control_dir = "~/.cvdr/connections";
  keep_log_files_days = 30;
  machine_type = "";
  min_cpu_platform = "";
}

-- `readConfig`: the strict decoder, which changes the values that the file has, is a parameter
-- (`ParseConfigFile`).
unfoldable read_config :
    (String → Option String)
    → (String → Result String)
    → (String → CliConfig → Result CliConfig)
    → CliConfig
    → Result CliConfig
read_config env open_file parse_config_file config =
    let path = getenv env "CVDR_CONFIG_PATH" in
    if str_eq path ""
    then ok config
    else then_value (wrap_result "Error opening config file" (open_file path))
        (λ text. wrap_result "Error parsing config file" (parse_config_file text config))

abbrev is_tilde : Char → Bool
is_tilde c = str_eq (String.◌∷◌ c "") "~"

unfoldable has_tilde : String → Bool
has_tilde String.[] = false
has_tilde (String.◌∷◌ c s) = is_tilde c || has_tilde s

-- `strings.ReplaceAll(path, "~", home)`
unfoldable replace_tilde : String → String → String
replace_tilde home String.[] = ""
replace_tilde home (String.◌∷◌ c s) =
    let rest = replace_tilde home s in if is_tilde c then home <> rest else String.◌∷◌ c rest

-- `expandPath`, with what `os.UserHomeDir` gives
unfoldable expand_path : Result String → String → Result String
expand_path home path =
    if has_tilde path
    then elim home [
      | ok dir ↦ ok (replace_tilde dir path)
      | err e ↦ panic ("Unable to expand path \"" <> path <> "\": " <> error_text e)
      | panic p ↦ panic p
    ]
    else ok path

-- `ConnectionControlDirExpanded`
unfoldable connection_control_dir_expanded : Result String → CliConfig → Result String
connection_control_dir_expanded home c = expand_path home c.connection_control_dir

-- The calls of `os/exec` and `io` that start a process and read its output.
pub record Processes (W : Type 0) : Type 0 where
  stdout_pipe : List String → Exec W (Unit {0})
  pub start : Exec W (Unit {0})
  read_all : Exec W String
  release : Exec W (Unit {0})
  close_pipe : Exec W (Unit {0})

-- `StartBgCommand`
unfoldable pub start_bg_command : {W : Type 0} → Processes W → List String → Exec W String
start_bg_command os args = do
  wrapped "Failed to create pipe" (os.stdout_pipe args)
  deferring os.close_pipe (do
    wrapped "Unable to start command" os.start
    deferring os.release (wrapped "Error reading command output" os.read_all))

-- `Execute`: the command runs once the directories of the connections are there; an error is
-- printed.
unfoldable execute :
    {W : Type 0}
    → Exec (Console W) (Unit {0})
    → Exec (Console W) (Unit {0})
    → Exec (Console W) (Unit {0})
execute ensure_dirs command =
    on_error (ensure_dirs >> command) (λ e. print_err (error_text e <> "\n") >> raise e)

-- What a process ends with: its exit code, or a panic
data Exit : Type 0 where
  exit_code : ℕ → Exit
  panicked : String → Exit

abbrev exit_of : Result (Unit {0}) → Exit
exit_of (ok u) = exit_code 0
exit_of (err e) = exit_code 1
exit_of (panic p) = panicked p

abbrev after_config :
    {W : Type 0}
    → (CliConfig → Exec (Console W) (Unit {0}))
    → Result CliConfig
    → Console W
    → Exit × Console W
after_config command (ok config) c = let (r, c') = command config c in (exit_of r, c')
after_config command (err e) c = (exit_code 2, (print_err (error_text e <> "\n") c).1)
after_config command (panic p) c = (panicked p, c)

-- `main`
unfoldable cvdr_main :
    {W : Type 0}
    → (String → Option String)
    → (String → Result String)
    → (String → CliConfig → Result CliConfig)
    → (CliConfig → Exec (Console W) (Unit {0}))
    → Console W
    → Exit × Console W
cvdr_main env open_file parse_config_file command =
    after_config command (read_config env open_file parse_config_file default_config)

replace_tilde-id : (home path : String) → has_tilde path ≡ false → replace_tilde home path ≡ path
unfolding replace_tilde has_tilde
replace_tilde-id home String.[] h = refl
replace_tilde-id home (String.◌∷◌ c s) h = ground (arith, replace_tilde-id home s)

-- A path is expanded by putting the home directory for each "~": without one it stays as it is and
-- the home directory is not asked for, and with one but no home directory the program panics.
expand_path_lem :
    (home : Result String) (path : String)
    → (has_tilde path ≡ false → expand_path home path ≡ ok path)
      × ((dir : String) → home ≡ ok dir → expand_path home path ≡ ok (replace_tilde dir path))
      × ((e : GoError)
          → home ≡ err e
          → has_tilde path ≡ true
          → (p : String) × (expand_path home path ≡ panic p))
unfolding expand_path
expand_path_lem home path = elim (Bool-cases (has_tilde path)) [
  | inl tilde ↦ (
    λ h. absurd (ground arith),
    λ dir h. rw (tilde, h) refl,
    λ e h t. ("Unable to expand path \"" <> path <> "\": " <> error_text e, rw (tilde, h) refl),
  )
  | inr no_tilde ↦ (
    λ h. rw no_tilde refl,
    λ dir h. rw (no_tilde, replace_tilde-id dir path no_tilde) refl,
    λ e h t. absurd (ground arith),
  )
]

-- A configuration file that is named but cannot be read or parsed ends the command line with exit
-- code 2 before any command runs; without a name the defaults are used and the file system is not
-- asked.
cvdr_main_config :
    {W : Type 0} (env : String → Option String) (open_file : String → Result String)
    (parse_config_file : String → CliConfig → Result CliConfig)
    (command : CliConfig → Exec (Console W) (Unit {0})) (c : Console W)
    → ((e : GoError)
        → read_config env open_file parse_config_file default_config ≡ err e
        → cvdr_main env open_file parse_config_file command c
          ≡ (exit_code 2, record c { err_out = c.err_out <> error_text e <> "\n" }))
      × (str_eq (getenv env "CVDR_CONFIG_PATH") "" ≡ true
          → (command default_config c).0 ≡ ok tt
          → (cvdr_main env open_file parse_config_file command c).0 ≡ exit_code 0)
unfolding cvdr_main read_config
cvdr_main_config env open_file parse_config_file command c =
    (λ e h. rw h refl, λ none_named h. rw (none_named, h) refl)
