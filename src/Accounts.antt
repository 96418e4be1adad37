-- ===== src/Accounts.antt =====
-- pkg/app/accounts: who makes a request. The interface (accounts.go), the manager of App Engine
-- users (gaeusers.go) and that of the local Unix user (unix.go).
pub mod Laws
use Prim.Native.Char.{Char, code}
use Prim.Native.String
use cloud_android_orchestrat.Prelude.{
  ℕ, String, Bool, true, false, Option, none, some, Map, lookup, str_eq, ◌==◌, if◌then◌else◌,
}
use cloud_android_orchestrat.Errors.{plain}
use cloud_android_orchestrat.Exec.{Result, ok, err, panic}

-- A value of the interface `User` that is not the interface's own nil. A `*GAEUser` may be a nil
-- pointer inside a non-nil interface, which is `gae none`.
pub data User : Type 0 where
  gae : Option String → User
  unix : String → User

-- `Username()`; a method called on a nil `*GAEUser` reads its field and panics.
unfoldable pub username : User → Result String
username (gae (some name)) = ok name
username (gae none) = panic "nil pointer dereference"
username (unix name) = ok name

-- A value of `IDTokenClaims`: a string, or something else.
pub data Claim : Type 0 where
  text : String → Claim
  other : Claim

-- `accounts.Manager`: `none` is the nil interface. A request shows only its headers here.
pub record AccountManager : Type 0 where
  pub user_from_request : Map String → Result (Option User)
  pub on_oauth2_exchange : Map String → Map Claim → Result (Option User)

-- `http.Header.Get`: "" if the header is not there
abbrev pub header_get : String → Map String → String
header_get name headers = elim (lookup name headers) [ none ↦ "" | some v ↦ v ]

abbrev pub email_header_key : String
email_header_key = "X-Appengine-User-Email"

unfoldable pub email_from_request : Map String → Result String
email_from_request headers = ok (header_get email_header_key headers)

-- The text before the first "@": `strings.SplitN(email, "@", 2)[0]`
unfoldable before_at : String → String
before_at String.[] = String.[]
before_at (String.◌∷◌ c s) =
    let rest = before_at s in if code c == b'@' then String.[] else String.◌∷◌ c rest

-- A `*GAEUser`, nil for an empty address.
unfoldable pub user_from_email : String → Option String
unfolding before_at
user_from_email email = if str_eq email "" then none else some (before_at email)

-- `return userFromEmail(email), nil`: the pointer, nil or not, becomes a non-nil `User`.
unfoldable pub gae_user_from_request : Map String → Result (Option User)
unfolding email_from_request user_from_email
gae_user_from_request headers = elim (email_from_request headers) [
  | ok email ↦ ok (some (gae (user_from_email email)))
  | err e ↦ err e
  | panic p ↦ panic p
]

abbrev claimed_email : String → Option Claim → Result (Option User)
claimed_email r_email none = err (plain "No email in id token")
claimed_email r_email (some other) = err (plain "Malformed email in id token")
claimed_email r_email (some (text tk_email)) =
    if str_eq r_email tk_email
    then ok (some (gae (user_from_email r_email)))
    else err (plain "Logged in user doesn't match oauth2 user")

unfoldable pub gae_on_oauth2_exchange : Map String → Map Claim → Result (Option User)
unfolding email_from_request user_from_email
gae_on_oauth2_exchange headers id_token = elim (email_from_request headers) [
  | ok r_email ↦ claimed_email r_email (lookup "email" id_token)
  | err e ↦ err e
  | panic p ↦ panic p
]

unfoldable pub gae_account_manager : AccountManager
unfolding gae_user_from_request gae_on_oauth2_exchange
gae_account_manager = record {
  user_from_request = gae_user_from_request;
  on_oauth2_exchange = gae_on_oauth2_exchange;
}

-- The user that the environment variable USER names, for every request.
unfoldable pub unix_account_manager : String → AccountManager
unix_account_manager env_user = record {
  user_from_request = λ _. ok (some (unix env_user));
  on_oauth2_exchange = λ _ _. ok (some (unix env_user));
}
