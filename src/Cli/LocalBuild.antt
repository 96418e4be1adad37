-- ===== src/Cli/LocalBuild.antt =====
-- pkg/cli/cvd.go: the files of a build that was made locally.
pub mod Lines
use Prim.Native.Char.{Char}
use cloud_android_orchestrat.Exec.{then_value, Result, err, ok, panic, wrap_result}
use cloud_android_orchestrat.Errors.{GoError, plain, wrap}
use cloud_android_orchestrat.Prelude.{
  Bool, List, Option, String, [], if◌then◌else◌, ltb, map, none, some, str_eq, ℕ, ◌&&◌, ◌++◌, ◌<>◌,
  ◌∷◌,
}

-- `os.Stat` of a file: its modification time, that it does not exist, or another error
pub data Stat : Type 0 where
  modified : ℕ → Stat
  not_exist : Stat
  stat_error : GoError → Stat

-- The environment and the files: variables, whether a file can be opened, its content, and `Stat`.
pub record Local : Type 0 where
  pub lookup_env : String → Option String
  pub open_file : String → Result (Unit {0})
  pub read_file : String → Result String
  pub stat : String → Stat

-- `AndroidEnvVars`
pub record AndroidEnvVars : Type 0 where
  pub build_top : String
  pub product_out : String
  pub host_out : String

abbrev pub required_images_filename : String
required_images_filename = "device/google/cuttlefish/required_images"

abbrev cvd_host_package_dir_name : String
cvd_host_package_dir_name = "cvd-host_package"

abbrev cvd_host_package_name : String
cvd_host_package_name = "cvd-host_package.tar.gz"

-- `MissingEnvVarErr`
abbrev missing_env_var_err : String → GoError
missing_env_var_err name = plain ("Missing environment variable: \"" <> name <> "\"")

abbrev env_or_missing : String → Option String → Result String
env_or_missing name none = err (missing_env_var_err name)
env_or_missing name (some v) = ok v

module _ (l : Local) where
  -- `GetAndroidEnvVarValues`
  unfoldable pub get_android_env_var_values : Result AndroidEnvVars
  get_android_env_var_values =
      then_value (env_or_missing "ANDROID_BUILD_TOP" (l.lookup_env "ANDROID_BUILD_TOP")) (λ top.
        then_value (env_or_missing "ANDROID_PRODUCT_OUT" (l.lookup_env "ANDROID_PRODUCT_OUT"))
          (λ product.
            then_value (env_or_missing "ANDROID_HOST_OUT" (l.lookup_env "ANDROID_HOST_OUT"))
              (λ host. ok (record { build_top = top; product_out = product; host_out = host }))))

abbrev pub is_newline : Char → Bool
is_newline c = str_eq (String.◌∷◌ c "") "\n"

-- `strings.TrimRight(s, "\n")`
unfoldable pub trim_right_newlines : String → String
trim_right_newlines String.[] = ""
trim_right_newlines (String.◌∷◌ c s) =
    let rest = trim_right_newlines s in
    if is_newline c && str_eq rest "" then "" else String.◌∷◌ c rest

-- A character before the first of the lines.
abbrev pub onto_first : Char → List String → List String
onto_first c [] = String.◌∷◌ c "" ∷ []
onto_first c (line ∷ lines) = String.◌∷◌ c line ∷ lines

-- `strings.Split(s, "\n")`
unfoldable pub split_lines : String → List String
split_lines String.[] = "" ∷ []
split_lines (String.◌∷◌ c s) =
    let rest = split_lines s in if is_newline c then "" ∷ rest else onto_first c rest

-- The paths of the loop
abbrev pub under : String → List String → List String
under dir lines = map (λ line. dir <> "/" <> line) lines

module _ (l : Local) where
  -- `ListLocalImageRequiredFiles`
  unfoldable pub list_local_image_required_files : AndroidEnvVars → Result (List String)
  list_local_image_required_files vars =
      let file = vars.build_top <> "/" <> required_images_filename in
      then_value (wrap_result "Error opening the required images list file" (l.open_file file))
        (λ u.
          then_value (wrap_result "Error reading the required images list file" (l.read_file file))
            (λ content. ok (under vars.product_out (split_lines (trim_right_newlines content)))))

  abbrev verified : Stat → Stat → Result (Unit {0})
  verified not_exist dir =
      err (plain ("\"" <> cvd_host_package_name <> "\" not found. Please run `m hosttar`."))
  verified tar not_exist =
      err (wrap "Failed getting cvd host package directory info" (plain "file does not exist"))
  verified tar (stat_error e) = err (wrap "Failed getting cvd host package directory info" e)
  verified (stat_error e) (modified t) = panic "nil pointer dereference"
  verified (modified s) (modified t) =
      if ltb s t
      then err (plain ("\"" <> cvd_host_package_name <> "\" out of date. Please run `m hosttar`."))
      else ok tt

  -- `verifyCVDHostPackageTar`
  unfoldable pub verify_cvd_host_package_tar : String → Result (Unit {0})
  verify_cvd_host_package_tar dir =
      verified (l.stat (dir <> "/" <> cvd_host_package_name))
        (l.stat (dir <> "/" <> cvd_host_package_dir_name))

  -- The first part of `createCVDFromLocalBuild`: the files to upload.
  unfoldable pub local_build_files : Result (List String)
  local_build_files =
      then_value
        (wrap_result "Error retrieving Android Build environment variables"
          (get_android_env_var_values l))
        (λ vars.
          then_value
            (wrap_result "Error building list of required image files"
              (list_local_image_required_files vars))
            (λ names.
              then_value
                (wrap_result "Invalid cvd host package" (verify_cvd_host_package_tar vars.host_out))
                (λ u. ok (names ++ (vars.host_out <> "/" <> cvd_host_package_name) ∷ []))))
