-- ===== src/Database/Memory.antt =====
-- pkg/app/database/memorydb.go: the in-memory database. It has room for one session, and the
-- session with the empty key stands for none.
use cloud_android_orchestrat.Prelude.{
  String, Option, none, some, [], Map, lookup, insert, erase, str_eq, if◌then◌else◌,
}
use cloud_android_orchestrat.Exec.{Exec, ok}
use cloud_android_orchestrat.Database.Defs.{Bytes, Session, DatabaseService}

pub record InMemoryDbService : Type 0 where
  pub credentials : Map Bytes
  pub session : Session

-- `session.Session{}`
abbrev pub zero_session : Session
zero_session = record { key = ""; oauth2_state = "" }

abbrev pub new_in_memory_db_service : InMemoryDbService
new_in_memory_db_service = record { credentials = []; session = zero_session }

unfoldable pub fetch_build_api_credentials : String → Exec InMemoryDbService (Option Bytes)
fetch_build_api_credentials username dbs = (ok (lookup username dbs.credentials), dbs)

unfoldable pub store_build_api_credentials : String → Bytes → Exec InMemoryDbService (Unit {0})
store_build_api_credentials username credentials dbs =
    (ok tt, record dbs { credentials = insert username credentials dbs.credentials })

unfoldable pub delete_build_api_credentials : String → Exec InMemoryDbService (Unit {0})
delete_build_api_credentials username dbs =
    (ok tt, record dbs { credentials = erase username dbs.credentials })

unfoldable pub create_or_update_session : Session → Exec InMemoryDbService (Unit {0})
create_or_update_session s dbs = (ok tt, record dbs { session = s })

unfoldable pub fetch_session : String → Exec InMemoryDbService (Option Session)
fetch_session key dbs =
    if str_eq dbs.session.key key then (ok (some dbs.session), dbs) else (ok none, dbs)

unfoldable pub delete_session : String → Exec InMemoryDbService (Unit {0})
delete_session key dbs =
    if str_eq dbs.session.key key
    then (ok tt, record dbs { session = zero_session })
    else (ok tt, dbs)

-- The six methods, as the service that the application is given.
unfoldable pub in_memory_db : DatabaseService InMemoryDbService
unfolding fetch_build_api_credentials store_build_api_credentials delete_build_api_credentials
    create_or_update_session fetch_session delete_session
in_memory_db = record {
  fetch_build_api_credentials = fetch_build_api_credentials;
  store_build_api_credentials = store_build_api_credentials;
  delete_build_api_credentials = delete_build_api_credentials;
  create_or_update_session = create_or_update_session;
  fetch_session = fetch_session;
  delete_session = delete_session;
}
