-- ===== src/Database/Spanner.antt =====
-- pkg/app/database/spanner.go: the Cloud Spanner database. The Spanner client library is not part
-- of the repository: it is the parameter `SpannerApi`, over an unknown state of the tables.
use cloud_android_orchestrat.Prelude.{ℕ, ◌-◌, ◌*◌, String, Bool, Option, none, some, if◌then◌else◌}
use cloud_android_orchestrat.Errors.{GoError}
use cloud_android_orchestrat.Exec.{Exec, Result, pure, raise, lift, wrapped, on_error, ◌>>=◌, ◌>>◌}
use cloud_android_orchestrat.Database.Defs.{Bytes, Session, DatabaseService}

-- `spanner.Mutation`: `InsertOrUpdate` and `Delete` on the two tables.
pub data Mutation : Type 0 where
  put_credentials : String → Bytes → Mutation
  remove_credentials : String → Mutation
  put_session : String → String → ℕ → Mutation
  remove_session : String → Mutation

-- The calls of the client library. A read gives the wanted column as it decodes (or fails to).
pub record SpannerApi (T : Type 0) : Type 0 where
  pub new_client : String → Exec T (Unit {0})
  pub read_credentials : String → Exec T (Result (Option Bytes))
  pub read_session : String → Exec T (Result (Option String))
  pub apply : Mutation → Exec T (Unit {0})
  -- `delete from Sessions where accessed_at < @threshold`, in a transaction; the row count
  pub delete_sessions_before : ℕ → Exec T ℕ
  -- `spanner.ErrCode(err) == codes.NotFound`
  pub is_not_found : GoError → Bool
  -- `time.Now()`, in seconds
  pub now : Exec T ℕ

abbrev pub session_state_validity_hours : ℕ
session_state_validity_hours = 48

module _ {T : Type 0} (api : SpannerApi T) (db : String) where
  abbrev connect : Exec T (Unit {0})
  connect = api.new_client db

  -- A read whose `NotFound` error is no error, and gives nil.
  abbrev found_or_nil : {A : Type 0} → String → Exec T A → Exec T (Option A)
  found_or_nil msg m =
      on_error (do a ← m; pure (some a))
        (λ e. if api.is_not_found e then pure none else raise (GoError.wrap msg e))

  abbrev pub apply_unless_missing : Mutation → Exec T (Unit {0})
  apply_unless_missing m =
      on_error (api.apply m) (λ e. if api.is_not_found e then pure tt else raise e)

  abbrev column : {A : Type 0} → Option (Result (Option A)) → Exec T (Option A)
  column none = pure none
  column (some r) = lift r

  unfoldable pub fetch_build_api_credentials : String → Exec T (Option Bytes)
  fetch_build_api_credentials username = do
    wrapped "Failed to create db client" connect
    row ← found_or_nil "Error querying database" (api.read_credentials username)
    column row

  unfoldable pub store_build_api_credentials : String → Bytes → Exec T (Unit {0})
  store_build_api_credentials username credentials = do
    connect
    api.apply (put_credentials username credentials)

  unfoldable pub delete_build_api_credentials : String → Exec T (Unit {0})
  delete_build_api_credentials username = do
    connect
    apply_unless_missing (remove_credentials username)

  -- Runs in a goroutine of its own: its errors are logged.
  unfoldable pub delete_expired_sessions : Exec T (Unit {0})
  delete_expired_sessions =
      on_error
        (do
          connect
          t ← api.now
          api.delete_sessions_before (t - session_state_validity_hours * 3600)
          pure tt)
        (λ _. pure tt)

  -- The goroutine is taken to run when the method returns.
  unfoldable pub create_or_update_session : Session → Exec T (Unit {0})
  unfolding delete_expired_sessions
  create_or_update_session s = do
    connect
    t ← api.now
    deferring_expiry (api.apply (put_session s.key s.oauth2_state t))
    where
      deferring_expiry : Exec T (Unit {0}) → Exec T (Unit {0})
      deferring_expiry m s' = let (r, s'') = m s' in (r, (delete_expired_sessions s'').1)

  abbrev pub session_of : String → Option (Result (Option String)) → Exec T (Option Session)
  session_of key none = pure none
  session_of key (some r) = do
    state ← lift r
    pure (some (record { key = key; oauth2_state = valid_or_empty state }))
    where
      valid_or_empty : Option String → String
      valid_or_empty none = ""
      valid_or_empty (some s) = s

  unfoldable pub fetch_session : String → Exec T (Option Session)
  fetch_session key = do
    connect
    row ← found_or_nil "Failed to retrive session" (api.read_session key)
    session_of key row

  unfoldable pub delete_session : String → Exec T (Unit {0})
  delete_session key = do connect; apply_unless_missing (remove_session key)

  unfoldable pub spanner_db : DatabaseService T
  unfolding fetch_build_api_credentials store_build_api_credentials delete_build_api_credentials
      create_or_update_session fetch_session delete_session
  spanner_db = record {
    fetch_build_api_credentials = fetch_build_api_credentials;
    store_build_api_credentials = store_build_api_credentials;
    delete_build_api_credentials = delete_build_api_credentials;
    create_or_update_session = create_or_update_session;
    fetch_session = fetch_session;
    delete_session = delete_session;
  }
