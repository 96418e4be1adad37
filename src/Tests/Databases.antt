-- ===== src/Tests/Databases.antt =====
-- A Spanner client on a table of credentials, and a run of calls over it.
use mathlib.Core.Path.{fun_ext}
use cloud_android_orchestrat.Tests.Fixtures.{login_session}
use cloud_android_orchestrat.Errors.{GoError, error_text, plain}
use cloud_android_orchestrat.Prelude.{
  String, Option-cases, inl, inr, str_eq, List, Map, Option, arith, erase, insert, lookup,
  lookup-erase, lookup-insert, none, refl, some, [], ◌∷◌, ◌≡◌,
}
use cloud_android_orchestrat.Exec.{Result, err, ok, pure}
use cloud_android_orchestrat.Database.{Bytes}
use cloud_android_orchestrat.Database.Spanner.{
  Mutation, SpannerApi, put_credentials, put_session, remove_credentials, remove_session,
  spanner_db,
}
use cloud_android_orchestrat.Database.Refinement.{
  Call, create_session, delete_credentials, fetch_credentials, store_credentials,
}
use cloud_android_orchestrat.Database.Contract.{Credentials, answer_all, credentials_steps}
use cloud_android_orchestrat.Database.Contract.Documented.{SpannerLaws, applied}
use cloud_android_orchestrat.Database.Contract.InSpanner.{spanner_answer_all-credentials_steps}

-- Its state is the table; it is always reached, its sessions are not kept, and a row that is to be
-- read or deleted and is not there is an error.
abbrev missing_row : GoError
missing_row = plain "NotFound"

abbrev read_row : Option Bytes → Result (Result (Option Bytes))
read_row none = err missing_row
read_row (some b) = ok (ok (some b))

abbrev remove_row : String → Map Bytes → Option Bytes → Result (Unit {0}) × Map Bytes
remove_row u rows none = (err missing_row, rows)
remove_row u rows (some b) = (ok tt, erase u rows)

abbrev mutate : Mutation → Map Bytes → Result (Unit {0}) × Map Bytes
mutate (put_credentials u b) rows = (ok tt, insert u b rows)
mutate (remove_credentials u) rows = remove_row u rows (lookup u rows)
mutate (put_session k state t) rows = (ok tt, rows)
mutate (remove_session k) rows = (err missing_row, rows)

abbrev spanner : SpannerApi (Map Bytes)
spanner = record {
  new_client = λ db. pure tt;
  read_credentials = λ u rows. (read_row (lookup u rows), rows);
  read_session = λ k. pure (ok none);
  apply = mutate;
  delete_sessions_before = λ n. pure 0;
  is_not_found = λ e. str_eq (error_text e) "NotFound";
  now = pure 200000;
}

abbrev rows_of : Map Bytes → Credentials
rows_of rows u = lookup u rows

rows_of-mutate :
    (m : Mutation) (rows : Map Bytes)
    → (mutate m rows).0 ≡ ok tt
    → rows_of (mutate m rows).1 ≡ applied m (rows_of rows)
rows_of-mutate (put_credentials u b) rows e = fun_ext (λ j. lookup-insert u j b rows)
rows_of-mutate (remove_credentials u) rows e = elim (Option-cases (lookup u rows)) [
  | inl missing ↦ absurd (ground arith)
  | inr (b, there) ↦ rw there (fun_ext (λ j. lookup-erase u j rows))
]
rows_of-mutate (put_session k state t) rows e = refl
rows_of-mutate (remove_session k) rows e = refl

nothing_removed :
    (u : String) (rows : Map Bytes) (e : GoError)
    → (mutate (remove_credentials u) rows).0 ≡ err e
    → (rows_of (mutate (remove_credentials u) rows).1 ≡ rows_of rows) × (rows_of rows u ≡ none)
nothing_removed u rows e f = elim (Option-cases (lookup u rows)) [
  | inl missing ↦ rw missing (refl, refl)
  | inr (b, there) ↦ absurd (ground arith)
]

spanner-SpannerLaws : SpannerLaws spanner rows_of
spanner-SpannerLaws = record {
  opening = λ db t. refl;
  telling_time = λ t. refl;
  reading = λ u t. refl;
  reading_session = λ k t. refl;
  expiring = λ n t. refl;
  reads = λ u t b e. ground (arith, Option-cases (lookup u t));
  misses = λ u t e x y. ground (arith, Option-cases (lookup u t));
  applies = rows_of-mutate;
  nothing_to_remove = λ u t e x y. nothing_removed u t e x;
  no_session_to_remove = λ k t e x y. refl;
}

abbrev visit : List Call
visit =
    store_credentials "ann" (1 ∷ [])
    ∷ create_session login_session
    ∷ fetch_credentials "ann"
    ∷ delete_credentials "ann"
    ∷ fetch_credentials "ann"
    ∷ delete_credentials "ann"
    ∷ []

abbrev said : List (Option Bytes)
said = none ∷ none ∷ some (1 ∷ []) ∷ none ∷ none ∷ none ∷ []

spanner_answer_all-credentials_steps_example :
    (said ≡ (credentials_steps visit (rows_of [])).0)
    × (rows_of (answer_all (spanner_db spanner "db") visit []).1
        ≡ (credentials_steps visit (rows_of [])).1)
unfolding answer_all spanner_db error_text lookup insert erase
spanner_answer_all-credentials_steps_example =
    spanner_answer_all-credentials_steps spanner rows_of spanner-SpannerLaws "db" visit [] said refl
