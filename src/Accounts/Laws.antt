-- ===== src/Accounts/Laws.antt =====
-- Which requests an account manager takes for which user.
use cloud_android_orchestrat.Prelude.{
  String, ◌≡◌, refl, ◌↔◌, Option, none, some, arith, Map, lookup, str_eq_iff,
}
use cloud_android_orchestrat.Exec.{ok, panic}
use cloud_android_orchestrat.Accounts.{
  User, gae, username, Claim, text, header_get, email_header_key, gae_user_from_request,
  claimed_email, other, user_from_email, email_from_request, gae_on_oauth2_exchange,
}

-- Succeeds exactly when the claim is the given address.
claimed_email_iff :
    (r_email : String) (claim : Option Claim) (u : Option User)
    → (claimed_email r_email claim ≡ ok u)
      ↔ ((claim ≡ some (text r_email)) × (u ≡ some (gae (user_from_email r_email))))
claimed_email_iff r_email none u = ground arith
claimed_email_iff r_email (some other) u = ground arith
claimed_email_iff r_email (some (text tk)) u = ground (arith, str_eq_iff r_email tk)

-- The OAuth2 exchange of the App Engine manager succeeds exactly when the "email" claim of the id
-- token is the address in the request's header, and the user that it then gives is that of the
-- header's address.
gae_on_oauth2_exchange_iff :
    (headers : Map String) (claims : Map Claim) (u : Option User)
    → (gae_on_oauth2_exchange headers claims ≡ ok u) ↔ (
        (lookup "email" claims ≡ some (text (header_get email_header_key headers)))
        × (u ≡ some (gae (user_from_email (header_get email_header_key headers)))))
unfolding gae_on_oauth2_exchange email_from_request
gae_on_oauth2_exchange_iff headers claims u =
    claimed_email_iff (header_get email_header_key headers) (lookup "email" claims) u

-- A request whose header is missing or empty is given a user that is not nil, and whose name
-- cannot be asked for.
gae_anonymous :
    (headers : Map String)
    → header_get email_header_key headers ≡ ""
    → (u : User) × (gae_user_from_request headers ≡ ok (some u))
      × (username u ≡ panic "nil pointer dereference")
unfolding gae_user_from_request email_from_request user_from_email username
gae_anonymous headers h = (gae none, rw h refl, refl)
