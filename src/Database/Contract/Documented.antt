-- ===== src/Database/Contract/Documented.antt =====
-- What the Spanner client library documents, as far as the database (pkg/app/database/spanner.go)
-- relies on it for the table of credentials.
use cloud_android_orchestrat.Prelude.{String, Option, true, none, some, ℕ, ◌≡◌}
use cloud_android_orchestrat.Errors.{GoError}
use cloud_android_orchestrat.Exec.{err, ok}
use cloud_android_orchestrat.Database.Defs.{Bytes}
use cloud_android_orchestrat.Database.Spanner.{
  Mutation, SpannerApi, put_credentials, put_session, remove_credentials, remove_session,
}
use cloud_android_orchestrat.Database.Refinement.{update}
use cloud_android_orchestrat.Database.Contract.{Credentials}

-- What a mutation does to the table of credentials.
abbrev pub applied : Mutation → Credentials → Credentials
applied (put_credentials u b) c = update c u (some b)
applied (remove_credentials u) c = update c u none
applied (put_session k state t) c = c
applied (remove_session k) c = c

-- The documented behaviour of the client library, for the table of credentials: only mutations that
-- are applied change it, a row is read as it is stored, and a row that is not found, when it is read
-- or is to be deleted, is not there.
pub record SpannerLaws {T : Type 0} (api : SpannerApi T) (table : T → Credentials) : Type 0 where
  pub opening : (db : String) (t : T) → table (api.new_client db t).1 ≡ table t
  pub telling_time : (t : T) → table (api.now t).1 ≡ table t
  pub reading : (u : String) (t : T) → table (api.read_credentials u t).1 ≡ table t
  pub reading_session : (k : String) (t : T) → table (api.read_session k t).1 ≡ table t
  pub expiring : (n : ℕ) (t : T) → table (api.delete_sessions_before n t).1 ≡ table t
  pub reads :
      (u : String) (t : T) (b : Option Bytes)
      → (api.read_credentials u t).0 ≡ ok (ok b)
      → b ≡ table t u
  pub misses :
      (u : String) (t : T) (e : GoError)
      → (api.read_credentials u t).0 ≡ err e
      → api.is_not_found e ≡ true
      → table t u ≡ none
  pub applies :
      (m : Mutation) (t : T)
      → (api.apply m t).0 ≡ ok tt
      → table (api.apply m t).1 ≡ applied m (table t)
  pub nothing_to_remove :
      (u : String) (t : T) (e : GoError)
      → (api.apply (remove_credentials u) t).0 ≡ err e
      → api.is_not_found e ≡ true
      → (table (api.apply (remove_credentials u) t).1 ≡ table t) × (table t u ≡ none)
  pub no_session_to_remove :
      (k : String) (t : T) (e : GoError)
      → (api.apply (remove_session k) t).0 ≡ err e
      → api.is_not_found e ≡ true
      → table (api.apply (remove_session k) t).1 ≡ table t
