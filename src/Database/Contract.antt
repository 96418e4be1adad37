-- ===== src/Database/Contract.antt =====
-- What the application relies on in a database (pkg/app/database/database.go): every call that
-- succeeds treats the credentials as a map from users.
pub mod InMemory
pub mod Documented
pub mod Applying
pub mod InSpanner
use cloud_android_orchestrat.Prelude.{
  String, ◌≡◌, ap, refl, sym, Option, none, some, List, [], ◌∷◌, ◌∙◌, arith,
}
use cloud_android_orchestrat.Exec.{Exec, Result, continue, err, ok, panic, pure, ◌>>=◌, ◌>>◌}
use cloud_android_orchestrat.Database.Defs.{Bytes, DatabaseService}
use cloud_android_orchestrat.Database.Refinement.{Call, update}

abbrev pub Credentials : Type 0
Credentials = String → Option Bytes

-- The abstract answer to a call, and the credentials after it.
abbrev pub credentials_step : Call → Credentials → Option Bytes × Credentials
credentials_step (Call.fetch_credentials u) c = (c u, c)
credentials_step (Call.store_credentials u b) c = (none, update c u (some b))
credentials_step (Call.delete_credentials u) c = (none, update c u none)
credentials_step (Call.create_session x) c = (none, c)
credentials_step (Call.fetch_session k) c = (none, c)
credentials_step (Call.delete_session k) c = (none, c)

unfoldable pub credentials_steps : List Call → Credentials → List (Option Bytes) × Credentials
credentials_steps [] c = ([], c)
credentials_steps (call ∷ calls) c =
    let (r, c') = credentials_step call c in
    let rest = credentials_steps calls c' in (r ∷ rest.0, rest.1)

module _ {S : Type 0} (db : DatabaseService S) where
  -- A call, with what it says of credentials.
  abbrev pub answer : Call → Exec S (Option Bytes)
  answer (Call.fetch_credentials u) = db.fetch_build_api_credentials u
  answer (Call.store_credentials u b) = do db.store_build_api_credentials u b; pure none
  answer (Call.delete_credentials u) = do db.delete_build_api_credentials u; pure none
  answer (Call.create_session x) = do db.create_or_update_session x; pure none
  answer (Call.fetch_session k) = do db.fetch_session k; pure none
  answer (Call.delete_session k) = do db.delete_session k; pure none

  unfoldable pub answer_all : List Call → Exec S (List (Option Bytes))
  answer_all [] = pure []
  answer_all (call ∷ calls) = do r ← answer call; rs ← answer_all calls; pure (r ∷ rs)

-- The contract: a call that succeeds answers as the credentials in the database say, and changes
-- them as it should.
pub record KeepsCredentials {S : Type 0} (db : DatabaseService S) (stored : S → Credentials)
    : Type 0 where
  pub answers :
      (call : Call) (s : S) (r : Option Bytes)
      → (answer db call s).0 ≡ ok r
      → (r ≡ (credentials_step call (stored s)).0)
        × (stored (answer db call s).1 ≡ (credentials_step call (stored s)).1)

module _ {S A B : Type 0} where
  continue-ok :
      (r : Result A) (f : A → Exec S B) (s : S) (b : B)
      → (continue r f s).0 ≡ ok b
      → (a : A) × (r ≡ ok a) × ((f a s).0 ≡ ok b) × ((continue r f s).1 ≡ (f a s).1)
  continue-ok (ok a) f s b h = (a, refl, h, refl)
  continue-ok (err e) f s b h = absurd (ground arith)
  continue-ok (panic p) f s b h = absurd (ground arith)

  -- Where the whole of two steps succeeds, both did.
  pub bind-ok :
      (m : Exec S A) (f : A → Exec S B) (s : S) (b : B)
      → ((m >>= f) s).0 ≡ ok b
      → (a : A) × ((m s).0 ≡ ok a) × ((f a (m s).1).0 ≡ ok b) × (((m >>= f) s).1 ≡ (f a (m s).1).1)
  bind-ok m f s b h = continue-ok (m s).0 f (m s).1 b h

-- Any run of calls that all succeed, over a database that keeps the contract, is answered as a map
-- from users to credentials answers it.
pub answer_all-credentials_steps :
    {S : Type 0} (db : DatabaseService S) (stored : S → Credentials)
    → KeepsCredentials db stored
    → (calls : List Call) (s : S) (rs : List (Option Bytes)) → (answer_all db calls s).0 ≡ ok rs
    → (rs ≡ (credentials_steps calls (stored s)).0)
      × (stored (answer_all db calls s).1 ≡ (credentials_steps calls (stored s)).1)
unfolding answer_all credentials_steps
answer_all-credentials_steps db stored keeps [] s rs h = (ground arith, refl)
answer_all-credentials_steps db stored keeps (call ∷ calls) s rs h =
    let (r, first, h', end) =
      bind-ok (answer db call) (λ r. do rs' ← answer_all db calls; pure (r ∷ rs')) s rs h in
    let s' = (answer db call s).1 in
    let (rs', rest, h'', end') = bind-ok (answer_all db calls) (λ rs'. pure (r ∷ rs')) s' rs h' in
    let (said, now) = keeps.answers call s r first in
    let (said', now') = answer_all-credentials_steps db stored keeps calls s' rs' rest in
    let answered : r ∷ rs' ≡ rs = ground arith in
    (sym answered ∙ cc, ap stored (end ∙ end') ∙ now' ∙ ap (λ c. (credentials_steps calls c).1) now)
