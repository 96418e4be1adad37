-- ===== src/App/Credentials/Laws.antt =====
-- Stored credentials come back, and those that cannot be read are removed.
use cloud_android_orchestrat.Prelude.{
  refl, lookup-erase, str_eq_iff, lookup-insert, str_eq, erase, insert, String, ◌≡◌, some, true,
  arith, lookup,
}
use cloud_android_orchestrat.Prelude.{◌∙◌, ◌⊎◌, inl, inr, false, true, if◌then◌else◌}
use cloud_android_orchestrat.Exec.{ok, err}
use cloud_android_orchestrat.Errors.{wrap, GoError}
use cloud_android_orchestrat.Database.{Bytes}
use cloud_android_orchestrat.Database.Memory.{InMemoryDbService, in_memory_db}
use cloud_android_orchestrat.Accounts.{User, username}
use cloud_android_orchestrat.App.Defs.{App, Token, World}
use cloud_android_orchestrat.App.Credentials.{none, store_user_credentials, fetch_user_credentials}

module _ {C : Type 0} (app : App InMemoryDbService C) where
  -- The application over the in-memory database.
  abbrev pub in_memory : App InMemoryDbService C
  in_memory = record app { database_service = in_memory_db }

  abbrev pub put_credentials :
      String → Bytes → World InMemoryDbService C → World InMemoryDbService C
  put_credentials name b w = record w {
    db = record w.db { credentials = insert name b w.db.credentials };
  }

  abbrev drop_credentials : String → World InMemoryDbService C → World InMemoryDbService C
  drop_credentials name w = record w {
    db = record w.db { credentials = erase name w.db.credentials };
  }

  module _ (user : User) (name : String) (named : username user ≡ ok name) where
    store_lem :
        (tk : Token) (creds enc : Bytes) (w : World InMemoryDbService C)
        → app.oauth2.marshal tk ≡ ok creds
        → app.encryption_service.encrypt creds ≡ ok enc
        → store_user_credentials in_memory user tk w ≡ (ok tt, put_credentials name enc w)
    unfolding store_user_credentials in_memory_db
    store_lem tk creds enc w m e = ground arith

    fetch_lem :
        (tk : Token) (creds enc : Bytes) (w : World InMemoryDbService C)
        → lookup name w.db.credentials ≡ some enc
        → app.encryption_service.decrypt enc ≡ ok creds
        → app.oauth2.unmarshal creds ≡ ok tk
        → app.oauth2.valid tk ≡ true
        → fetch_user_credentials in_memory user w ≡ (ok (some tk), w)
    unfolding fetch_user_credentials in_memory_db
    fetch_lem tk creds enc w l d u v = ground arith

    undecodable_lem :
        (w : World InMemoryDbService C) (stored : Bytes) (e : GoError)
        → lookup name w.db.credentials ≡ some stored
        → app.encryption_service.decrypt stored ≡ err e
        → fetch_user_credentials in_memory user w ≡ (err e, drop_credentials name w)
    unfolding fetch_user_credentials in_memory_db
    undecodable_lem w stored e l d = ground arith

    -- Over the in-memory database, credentials that are stored for a user are fetched again,
    -- unchanged and changing nothing, if the encryption service decrypts what it encrypts, JSON
    -- reads the token that it wrote, and the token is still valid.
    pub fetch_user_credentials-store :
        (tk : Token) (creds enc : Bytes) (w : World InMemoryDbService C)
        → app.oauth2.marshal tk ≡ ok creds
        → app.oauth2.unmarshal creds ≡ ok tk
        → app.encryption_service.encrypt creds ≡ ok enc
        → app.encryption_service.decrypt enc ≡ ok creds
        → app.oauth2.valid tk ≡ true
        → fetch_user_credentials in_memory user (store_user_credentials in_memory user tk w).1
          ≡ (ok (some tk), (store_user_credentials in_memory user tk w).1)
    fetch_user_credentials-store tk creds enc w m u e d v =
        let s = store_lem tk creds enc w m e in
        rw s (
          fetch_lem tk creds enc (put_credentials name enc w)
            (lookup-insert name name enc w.db.credentials ∙ rw ((str_eq_iff name name).1 refl) refl)
            d u v)

    unparsable_lem :
        (w : World InMemoryDbService C) (stored creds : Bytes) (e : GoError)
        → lookup name w.db.credentials ≡ some stored
        → app.encryption_service.decrypt stored ≡ ok creds
        → app.oauth2.unmarshal creds ≡ err e
        → fetch_user_credentials in_memory user w
          ≡ (err (wrap "Error deserializing token" e), drop_credentials name w)
    unfolding fetch_user_credentials in_memory_db
    unparsable_lem w stored creds e l d u = ground arith

    -- Over the in-memory database, stored credentials that cannot be decrypted or parsed fail the
    -- fetch and are removed, and those of every other user stay as they were.
    pub fetch_user_credentials_unreadable :
        (w : World InMemoryDbService C) (stored : Bytes) (e : GoError) (other : String)
        → lookup name w.db.credentials ≡ some stored
        → (app.encryption_service.decrypt stored ≡ err e)
          ⊎ ((creds : Bytes) × (app.encryption_service.decrypt stored ≡ ok creds)
              × (app.oauth2.unmarshal creds ≡ err e))
        → ((x : GoError) × ((fetch_user_credentials in_memory user w).0 ≡ err x))
          × (lookup other (fetch_user_credentials in_memory user w).1.db.credentials
              ≡ (if str_eq name other then none else lookup other w.db.credentials))
    fetch_user_credentials_unreadable w stored e other l (inl d) =
        let f = undecodable_lem w stored e l d in
        ((e, rw f refl), rw f (lookup-erase name other w.db.credentials))
    fetch_user_credentials_unreadable w stored e other l (inr (creds, d, u)) =
        let f = unparsable_lem w stored creds e l d u in
        (
          (wrap "Error deserializing token" e, rw f refl),
          rw f (lookup-erase name other w.db.credentials),
        )

    -- A token that is no longer valid is replaced: over the in-memory database the fetch gives the
    -- refreshed token, and that is what is stored from then on, encrypted.
    fetch_user_credentials_refreshed :
        (tk tk' : Token) (creds enc creds' enc' : Bytes) (w : World InMemoryDbService C) (c : C)
        → lookup name w.db.credentials ≡ some enc
        → app.encryption_service.decrypt enc ≡ ok creds
        → app.oauth2.unmarshal creds ≡ ok tk
        → app.oauth2.valid tk ≡ false
        → app.oauth2.refresh tk w.cloud ≡ (ok tk', c)
        → app.oauth2.marshal tk' ≡ ok creds'
        → app.encryption_service.encrypt creds' ≡ ok enc'
        → fetch_user_credentials in_memory user w ≡ (
          ok (some tk'),
          record w {
            cloud = c;
            db = record w.db { credentials = insert name enc' w.db.credentials };
          },
        )
    unfolding fetch_user_credentials store_user_credentials in_memory_db
    fetch_user_credentials_refreshed tk tk' creds enc creds' enc' w c l d u v f m e = ground arith
