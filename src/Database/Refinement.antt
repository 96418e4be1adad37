-- ===== src/Database/Refinement.antt =====
-- The abstract database that the in-memory one implements: a partial map of credentials and at
-- most one session. The representation's order of entries is forgotten.
use mathlib.Core.Path.{fun_ext}
use cloud_android_orchestrat.Prelude.{
  String, ◌≡◌, ◌≢◌, refl, ap, Option, none, some, List, [], ◌∷◌, arith, lookup, lookup-insert,
  lookup-erase, inl, inr, Bool-cases, All, str_eq, str_eq_iff, if◌then◌else◌,
}
use cloud_android_orchestrat.Exec.{Result, ok}
use cloud_android_orchestrat.Database.Defs.{Bytes, Session}
use cloud_android_orchestrat.Database.Memory
use cloud_android_orchestrat.Database.Memory.{InMemoryDbService}

-- One call of `database.Service`.
pub data Call : Type 0 where
  fetch_credentials : String → Call
  store_credentials : String → Bytes → Call
  delete_credentials : String → Call
  create_session : Session → Call
  fetch_session : String → Call
  delete_session : String → Call

pub data Reply : Type 0 where
  done : Reply
  bytes : Option Bytes → Reply
  session : Option Session → Reply
  failed : Reply

abbrev reply_of {ℓ} : {A : Type ℓ} → (A → Reply) → Result A → Reply
reply_of f (ok a) = f a
reply_of f _ = failed

abbrev first_with {ℓ} :
    {A : Type ℓ} → (A → Reply) → Result A × InMemoryDbService → Reply × InMemoryDbService
first_with f (r, s) = (reply_of f r, s)

serve : Call → InMemoryDbService → Reply × InMemoryDbService
unfolding Memory.in_memory_db
serve (fetch_credentials u) s = first_with bytes (Memory.fetch_build_api_credentials u s)
serve (store_credentials u b) s = first_with (λ _. done) (Memory.store_build_api_credentials u b s)
serve (delete_credentials u) s = first_with (λ _. done) (Memory.delete_build_api_credentials u s)
serve (create_session x) s = first_with (λ _. done) (Memory.create_or_update_session x s)
serve (fetch_session k) s = first_with session (Memory.fetch_session k s)
serve (delete_session k) s = first_with (λ _. done) (Memory.delete_session k s)

-- The abstract state.
pub record Spec : Type 0 where
  pub creds : String → Option Bytes
  current : Option Session

abbrev pub update : (String → Option Bytes) → String → Option Bytes → String → Option Bytes
update f k v j = if str_eq k j then v else f j

abbrev with_key : String → Option Session → Option Session
with_key k none = none
with_key k (some x) = if str_eq x.key k then some x else none

abbrev without_key : String → Option Session → Option Session
without_key k none = none
without_key k (some x) = if str_eq x.key k then none else some x

pub step : Call → Spec → Reply × Spec
step (fetch_credentials u) a = (bytes (a.creds u), a)
step (store_credentials u b) a = (done, record a { creds = update a.creds u (some b) })
step (delete_credentials u) a = (done, record a { creds = update a.creds u none })
step (create_session x) a = (done, record a { current = some x })
step (fetch_session k) a = (session (with_key k a.current), a)
step (delete_session k) a = (done, record a { current = without_key k a.current })

-- The view of a representation.
pub view : InMemoryDbService → Spec
view s = record {
  creds = λ u. lookup u s.credentials;
  current = if str_eq s.session.key "" then none else some s.session;
}

-- The keys that a call of the application carries are not empty.
abbrev HasKey : Call → Type 0
HasKey (create_session x) = x.key ≢ ""
HasKey (fetch_session k) = k ≢ ""
HasKey (delete_session k) = k ≢ ""
HasKey _ = Unit

abbrev map_state : Reply × InMemoryDbService → Reply × Spec
map_state (r, s) = (r, view s)

-- Each call on a representation gives the reply and the state that the abstract one gives.
serve-step : (c : Call) (s : InMemoryDbService) → HasKey c → map_state (serve c s) ≡ step c (view s)
unfolding serve step view
serve-step (fetch_credentials u) s h = refl
serve-step (store_credentials u b) s h =
    ap (λ (f : String → Option Bytes). (done, record { creds = f; current = (view s).current }))
      (fun_ext (λ j. lookup-insert u j b s.credentials))
serve-step (delete_credentials u) s h =
    ap (λ (f : String → Option Bytes). (done, record { creds = f; current = (view s).current }))
      (fun_ext (λ j. lookup-erase u j s.credentials))
serve-step (create_session x) s h = ground (arith, str_eq_iff x.key "")
serve-step (fetch_session k) s h =
    ground (arith, str_eq_iff s.session.key k, str_eq_iff s.session.key "")
serve-step (delete_session k) s h = elim (Bool-cases (str_eq s.session.key k)) [
  | inl same ↦ rw same (ground (arith, str_eq_iff s.session.key k, str_eq_iff s.session.key ""))
  | inr other ↦ rw other (ground (arith, str_eq_iff s.session.key ""))
]

pub serve_all : List Call → InMemoryDbService → List Reply
serve_all [] s = []
serve_all (c ∷ cs) s = let (r, s') = serve c s in r ∷ serve_all cs s'

pub step_all : List Call → Spec → List Reply
step_all [] a = []
step_all (c ∷ cs) a = let (r, a') = step c a in r ∷ step_all cs a'

-- Any run of calls whose session keys are not empty is answered as the abstract database answers
-- it, from any representation: stored credentials are fetched until they are deleted, and the
-- last session is fetched by its key until it is deleted or another replaces it.
pub serve_all-step_all :
    (cs : List Call) (s : InMemoryDbService) → All HasKey cs → serve_all cs s ≡ step_all cs (view s)
unfolding serve_all step_all
serve_all-step_all [] s h = refl
serve_all-step_all (c ∷ cs) s (h, hs) =
    cc (serve-step c s h, serve_all-step_all cs (serve c s).1 hs)
