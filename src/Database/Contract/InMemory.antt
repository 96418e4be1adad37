-- ===== src/Database/Contract/InMemory.antt =====
-- The in-memory database (pkg/app/database/memorydb.go) keeps the contract.
use mathlib.Core.Path.{fun_ext}
use cloud_android_orchestrat.Prelude.{
  ◌≡◌, refl, Option, lookup, lookup-insert, lookup-erase, arith, Bool-cases, str_eq, inl, inr,
}
use cloud_android_orchestrat.Exec.{ok}
use cloud_android_orchestrat.Database.Defs.{Bytes}
use cloud_android_orchestrat.Database.Memory.{
  InMemoryDbService, in_memory_db, fetch_session, delete_session,
}
use cloud_android_orchestrat.Database.Refinement.{Call}
use cloud_android_orchestrat.Database.Contract.{
  Credentials, KeepsCredentials, answer, credentials_step,
}

-- The credentials in the map.
abbrev pub in_map : InMemoryDbService → Credentials
in_map s u = lookup u s.credentials

in_memory-answers :
    (call : Call) (s : InMemoryDbService) (r : Option Bytes)
    → (answer in_memory_db call s).0 ≡ ok r
    → (r ≡ (credentials_step call (in_map s)).0)
      × (in_map (answer in_memory_db call s).1 ≡ (credentials_step call (in_map s)).1)
unfolding in_memory_db fetch_session delete_session
in_memory-answers (Call.fetch_credentials u) s r h = (ground arith, refl)
in_memory-answers (Call.store_credentials u b) s r h =
    (ground arith, fun_ext (λ j. lookup-insert u j b s.credentials))
in_memory-answers (Call.delete_credentials u) s r h =
    (ground arith, fun_ext (λ j. lookup-erase u j s.credentials))
in_memory-answers (Call.create_session x) s r h = (ground arith, refl)
in_memory-answers (Call.fetch_session k) s r h = elim (Bool-cases (str_eq s.session.key k)) [
  | inl same ↦ rw same (ground arith, refl)
  | inr other ↦ rw other (ground arith, refl)
]
in_memory-answers (Call.delete_session k) s r h = elim (Bool-cases (str_eq s.session.key k)) [
  | inl same ↦ rw same (ground arith, refl)
  | inr other ↦ rw other (ground arith, refl)
]

pub in_memory-KeepsCredentials : KeepsCredentials in_memory_db in_map
in_memory-KeepsCredentials = record { answers = in_memory-answers }
