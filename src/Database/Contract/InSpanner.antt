-- ===== src/Database/Contract/InSpanner.antt =====
-- The Spanner database (pkg/app/database/spanner.go) keeps the contract where its client library
-- does what it documents.
use cloud_android_orchestrat.Prelude.{
  String, ◌≡◌, ◌∙◌, refl, sym, subst, ap, Option, none, some, List, arith, Bool-cases, inl, inr,
}
use cloud_android_orchestrat.Exec.{Exec, Result, Result-cases, err, ok, panic, pure, ◌>>◌}
use cloud_android_orchestrat.Database.Defs.{Bytes, Session}
use cloud_android_orchestrat.Database.Spanner.{
  Mutation, SpannerApi, put_credentials, remove_credentials, put_session, remove_session,
  spanner_db,
}
use cloud_android_orchestrat.Database.Spanner
use cloud_android_orchestrat.Database.Refinement.{Call, update}
use cloud_android_orchestrat.Database.Contract.{
  Credentials, KeepsCredentials, answer, answer_all, answer_all-credentials_steps, bind-ok,
  credentials_step, credentials_steps,
}
use cloud_android_orchestrat.Database.Contract.Documented.{SpannerLaws}
use cloud_android_orchestrat.Database.Contract.Applying.{
  opened_then-ok, put-answer, credentials_row, remove-answer, expiry-answer,
}

module _ {T : Type 0} (api : SpannerApi T) (table : T → Credentials) (laws : SpannerLaws api table)
    (name : String) where
  fetch-answer :
      (u : String) (t : T) (r : Option Bytes)
      → ((spanner_db api name).fetch_build_api_credentials u t).0 ≡ ok r
      → (r ≡ table t u)
        × (table ((spanner_db api name).fetch_build_api_credentials u t).1 ≡ table t)
  unfolding spanner_db Spanner.fetch_build_api_credentials
  fetch-answer u t r h =
      let t1 = (api.new_client name t).1 in
      let opened = laws.opening name t in
      let read = laws.reading u t1 in
      elim (Result-cases (api.new_client name t).0) [
        | inl (x, e) ↦ elim (Result-cases (api.read_credentials u t1).0) [
          | inl (col, f) ↦ elim (Result-cases col) [
            | inl (b, g) ↦
                let is_b : r ≡ b = ground arith in
                let in_table = laws.reads u t1 b (f ∙ ap ok g) in
                rw (e, f) (is_b ∙ in_table ∙ ap (λ c. c u) opened, read ∙ opened)
            | inr (inl (y, g)) ↦ absurd (ground arith)
            | inr (inr (p, g)) ↦ absurd (ground arith)
          ]
          | inr (inl (y, f)) ↦ elim (Bool-cases (api.is_not_found y)) [
            | inl missing ↦
                let is_none : r ≡ none = ground arith in
                let not_there = laws.misses u t1 y f missing in
                rw (e, f, missing) (is_none ∙ sym not_there ∙ ap (λ c. c u) opened, read ∙ opened)
            | inr other ↦ absurd (ground arith)
          ]
          | inr (inr (p, f)) ↦ absurd (ground arith)
        ]
        | inr (inl (y, e)) ↦ absurd (ground arith)
        | inr (inr (p, e)) ↦ absurd (ground arith)
      ]

  create_session-answer :
      (x : Session) (t : T)
      → (Spanner.create_or_update_session api name x t).0 ≡ ok tt
      → table (Spanner.create_or_update_session api name x t).1 ≡ table t
  unfolding Spanner.create_or_update_session
  create_session-answer x t h =
      opened_then-ok api table laws name (λ s. table s ≡ table t) _ t tt h
        (λ h'.
          let t1 = (api.new_client name t).1 in
          let (n, _, done, end) = bind-ok api.now _ t1 tt h' in
          let t2 = (api.now t1).1 in
          let put = put_session x.key x.oauth2_state n in
          ap table end
          ∙ expiry-answer api table laws name (api.apply put t2).1
          ∙ laws.applies put t2 done
          ∙ laws.telling_time t1
          ∙ laws.opening name t)

  session_of-state :
      (k : String) (row : Option (Result (Option String))) (s : T)
      → (Spanner.session_of api name k row s).1 ≡ s
  session_of-state k none s = refl
  session_of-state k (some (ok state)) s = refl
  session_of-state k (some (err e)) s = refl
  session_of-state k (some (panic p)) s = refl

  fetch_session-answer :
      (k : String) (t : T) → table (Spanner.fetch_session api name k t).1 ≡ table t
  unfolding Spanner.fetch_session
  fetch_session-answer k t =
      let opened = laws.opening name t in
      let t1 = (api.new_client name t).1 in
      let read = laws.reading_session k t1 ∙ opened in
      let t2 = (api.read_session k t1).1 in
      elim (Result-cases (api.new_client name t).0) [
        | inl (x, e) ↦ elim (Result-cases (api.read_session k t1).0) [
          | inl (col, f) ↦ rw (e, f) (ap table (session_of-state k (some col) t2) ∙ read)
          | inr (inl (y, f)) ↦ elim (Bool-cases (api.is_not_found y)) [
            | inl missing ↦ rw (e, f, missing) read
            | inr other ↦ rw (e, f, other) read
          ]
          | inr (inr (p, f)) ↦ rw (e, f) read
        ]
        | inr (inl (y, e)) ↦ rw e opened
        | inr (inr (p, e)) ↦ rw e opened
      ]

  abbrev unanswered : {A : Type 0} → Exec T A → Exec T (Option Bytes)
  unanswered m = m >> pure none

  silent-answer :
      {A : Type 0} (P : T → Type 0) (m : Exec T A) (t : T) (r : Option Bytes)
      → (unanswered m t).0 ≡ ok r
      → ((a : A) → (m t).0 ≡ ok a → P (m t).1)
      → (r ≡ none) × P (unanswered m t).1
  silent-answer P m t r h left =
      let (a, e, h', end) = bind-ok m (λ _. pure none) t r h in
      (ground arith, subst P (sym end) (left a e))

  spanner-answers :
      (call : Call) (t : T) (r : Option Bytes)
      → (answer (spanner_db api name) call t).0 ≡ ok r
      → (r ≡ (credentials_step call (table t)).0)
        × (table (answer (spanner_db api name) call t).1 ≡ (credentials_step call (table t)).1)
  unfolding spanner_db Spanner.store_build_api_credentials Spanner.delete_build_api_credentials
      Spanner.delete_session
  spanner-answers (Call.fetch_credentials u) t r h = fetch-answer u t r h
  spanner-answers (Call.store_credentials u b) t r h =
      silent-answer (λ s. table s ≡ update (table t) u (some b))
        (Spanner.store_build_api_credentials api name u b) t r h
        (λ x. put-answer api table laws name (put_credentials u b) t)
  spanner-answers (Call.delete_credentials u) t r h =
      silent-answer (λ s. table s ≡ update (table t) u none)
        (Spanner.delete_build_api_credentials api name u) t r h
        (λ x.
          remove-answer api table laws name (remove_credentials u) t
            (credentials_row api table laws name u))
  spanner-answers (Call.create_session x) t r h =
      silent-answer (λ s. table s ≡ table t) (Spanner.create_or_update_session api name x) t r h
        (λ u. create_session-answer x t)
  spanner-answers (Call.fetch_session k) t r h =
      silent-answer (λ s. table s ≡ table t) (Spanner.fetch_session api name k) t r h
        (λ x e. fetch_session-answer k t)
  spanner-answers (Call.delete_session k) t r h =
      silent-answer (λ s. table s ≡ table t) (Spanner.delete_session api name k) t r h
        (λ x. remove-answer api table laws name (remove_session k) t (laws.no_session_to_remove k))

  -- Where the client library behaves as documented, the database keeps the contract.
  pub spanner-KeepsCredentials : KeepsCredentials (spanner_db api name) table
  spanner-KeepsCredentials = record { answers = spanner-answers }

  -- Any run of calls that all succeed is answered as a map from users to credentials answers it,
  -- whatever calls for sessions and expiries come between, if the client library behaves as
  -- documented; and the table ends with that map.
  pub spanner_answer_all-credentials_steps :
      (calls : List Call) (t : T) (rs : List (Option Bytes))
      → (answer_all (spanner_db api name) calls t).0 ≡ ok rs
      → (rs ≡ (credentials_steps calls (table t)).0)
        × (table (answer_all (spanner_db api name) calls t).1
            ≡ (credentials_steps calls (table t)).1)
  spanner_answer_all-credentials_steps =
      answer_all-credentials_steps (spanner_db api name) table spanner-KeepsCredentials
