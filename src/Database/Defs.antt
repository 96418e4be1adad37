-- ===== src/Database/Defs.antt =====
-- pkg/app/database/database.go and pkg/app/session/session.go: the stored data and the interface.
use cloud_android_orchestrat.Prelude.{ℕ, String, Option, List}
use cloud_android_orchestrat.Exec.{Exec}

-- `[]byte`; its nil is `none` of an `Option Bytes`.
abbrev pub Bytes : Type 0
Bytes = List ℕ

pub record Session : Type 0 where
  pub key : String
  pub oauth2_state : String

-- `database.Service`, over an unknown state.
pub record DatabaseService (S : Type 0) : Type 0 where
  pub fetch_build_api_credentials : String → Exec S (Option Bytes)
  pub store_build_api_credentials : String → Bytes → Exec S (Unit {0})
  pub delete_build_api_credentials : String → Exec S (Unit {0})
  pub create_or_update_session : Session → Exec S (Unit {0})
  pub fetch_session : String → Exec S (Option Session)
  pub delete_session : String → Exec S (Unit {0})
