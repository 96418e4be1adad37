-- ===== src/App/Hosts/Laws.antt =====
-- Page sizes, and the requests that are forwarded to a host.
use cloud_android_orchestrat.Prelude.{
  ℕ, ◌<◌, ◌^◌, String, ◌≡◌, refl, none, some, arith, lookup, str_eq, str_eq_iff, inl, inr,
  Bool-cases, ◌<>◌,
}
use cloud_android_orchestrat.Errors.{plain, new_bad_request_error, new_unauthenticated_error}
use cloud_android_orchestrat.Exec.{ok, err}
use cloud_android_orchestrat.Text.{itoa}
use cloud_android_orchestrat.Text.Digits.{
  itoa-ne-empty, itoa-ne-empty, parse_uint-itoa, parse_uint-lt,
}
use cloud_android_orchestrat.Accounts.{User, username}
use cloud_android_orchestrat.Instances.{NetHostClient}
use cloud_android_orchestrat.Database.Memory.{InMemoryDbService, in_memory_db}
use cloud_android_orchestrat.App.Defs.{on_cloud, App, Request, World}
use cloud_android_orchestrat.App.Credentials.{fetch_user_credentials}
use cloud_android_orchestrat.App.Credentials.Laws.{in_memory}
use cloud_android_orchestrat.App.Hosts.{
  false, is_intercepted, uint32_value, query_get, build_list_hosts_request, list_hosts,
  inject_build_api_creds, find_intercept_file, inject_build_api_creds_into_request, forward_to_host,
}

-- Every 32-bit value is read back from its decimal text, and the empty text is 0.
uint32_value-itoa :
    (n : ℕ) → n < 2 ^ 32 → (uint32_value (itoa n) ≡ some n) × (uint32_value "" ≡ some 0)
unfolding uint32_value
uint32_value-itoa n h = (
  ground (arith, parse_uint-itoa 32 n h, str_eq_iff (itoa n) "", itoa-ne-empty n),
  ground (arith, str_eq_iff "" ""),
)

-- What is read is a 32-bit value.
uint32_value-lt : (value : String) (n : ℕ) → uint32_value value ≡ some n → n < 2 ^ 32
unfolding uint32_value
uint32_value-lt value n e = elim (Bool-cases (str_eq value "")) [
  | inl empty ↦ ground arith
  | inr full ↦ parse_uint-lt 32 n value (ground arith)
]

malformed_request :
    (r : Request)
    → uint32_value (query_get "maxResults" r.query) ≡ none
    → build_list_hosts_request r
      ≡ err (
          new_bad_request_error
            ("Invalid query parameter \"maxResults\" value: \""
              <> query_get "maxResults" r.query
              <> "\"")
            (some (plain "strconv.ParseUint")))
unfolding build_list_hosts_request
malformed_request r e = rw (e, build_list_hosts_request) refl

module _ {D C : Type 0} (app : App D C) where
  -- A listing whose page size is no 32-bit number is refused with 400, before anything is asked of
  -- the instance manager.
  list_hosts_malformed :
      (r : Request) (user : User) (w : World D C)
      → uint32_value (query_get "maxResults" r.query) ≡ none
      → ((list_hosts app r user w).1 ≡ w)
        × ((list_hosts app r user w).0
            ≡ err (
                new_bad_request_error
                  ("Invalid query parameter \"maxResults\" value: \""
                    <> query_get "maxResults" r.query
                    <> "\"")
                  (some (plain "strconv.ParseUint"))))
  unfolding list_hosts
  list_hosts_malformed r user w e = rw (malformed_request r e) (refl, refl)

module _ {C : Type 0} (app : App InMemoryDbService C) where
  no_credentials :
      (user : User) (name : String) (w : World InMemoryDbService C)
      → username user ≡ ok name
      → lookup name w.db.credentials ≡ none
      → fetch_user_credentials (in_memory app) user w ≡ (ok none, w)
  unfolding fetch_user_credentials in_memory_db
  no_credentials user name w named missing = ground arith

  creds_refused :
      (user : User) (name : String) (w : World InMemoryDbService C)
      → username user ≡ ok name
      → lookup name w.db.credentials ≡ none
      → inject_build_api_creds_into_request (in_memory app) user w ≡ (
        err (
            new_unauthenticated_error
              "The user must authorize the system to access the Build API on their behalf" none),
        w,
      )
  unfolding inject_build_api_creds_into_request
  creds_refused user name w named missing = rw (no_credentials user name w named missing) refl

  -- Over the in-memory database, a request that wants the build API's credentials, from a user who
  -- has stored none, for a path that is not intercepted and a host whose client is found, is not
  -- forwarded: the handler fails with the error of status 401, and nothing is written.
  pub forward_to_host_unauthorized :
      (r : Request) (user : User) (name wanted : String) (w : World InMemoryDbService C)
      (client : NetHostClient)
      → is_intercepted ("/" <> r.host_path) ≡ false
      → (app.instance_manager.get_host_client r.zone r.host w.cloud).0 ≡ ok client
      → lookup inject_build_api_creds r.headers ≡ some wanted
      → username user ≡ ok name
      → lookup name w.db.credentials ≡ none
      → ((forward_to_host (in_memory app) r user w).0
          ≡ err (
              new_unauthenticated_error
                "The user must authorize the system to access the Build API on their behalf" none))
        × ((forward_to_host (in_memory app) r user w).1.out ≡ w.out)
  unfolding forward_to_host find_intercept_file
  forward_to_host_unauthorized r user name wanted w client i g h named missing =
      let w1 =
        (on_cloud {D = InMemoryDbService} (app.instance_manager.get_host_client r.zone r.host)
          w).1 in
      let refused = creds_refused user name w1 named missing in rw (i, g, h, refused) (refl, refl)
