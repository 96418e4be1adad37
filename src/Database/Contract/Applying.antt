-- ===== src/Database/Contract/Applying.antt =====
-- What the mutations and the expiry of the Spanner database (pkg/app/database/spanner.go) do to the
-- table of credentials.
use mathlib.Core.Path.{fun_ext}
use cloud_android_orchestrat.Errors.{GoError}
use cloud_android_orchestrat.Prelude.{
  true, str_eq, str_eq_iff, String, ◌≡◌, ◌∙◌, refl, sym, subst, ap, ◌-◌, none, arith, Bool-cases,
  inl, inr,
}
use cloud_android_orchestrat.Exec.{Exec, Result-cases, err, ok, ◌>>◌}
use cloud_android_orchestrat.Database.Spanner.{
  Mutation, SpannerApi, put_credentials, remove_credentials, put_session, remove_session,
  spanner_db,
}
use cloud_android_orchestrat.Database.Spanner
use cloud_android_orchestrat.Database.Refinement.{update}
use cloud_android_orchestrat.Database.Contract.{Credentials, bind-ok}
use cloud_android_orchestrat.Database.Contract.Documented.{SpannerLaws, applied}

module _ {T : Type 0} (api : SpannerApi T) (table : T → Credentials) (laws : SpannerLaws api table)
    (name : String) where
  abbrev pub opened_then : {A : Type 0} → Exec T A → Exec T A
  opened_then m = api.new_client name >> m

  -- Behind a connection that was opened, what succeeds leaves what it leaves by itself.
  pub opened_then-ok :
      {A : Type 0} (P : T → Type 0) (m : Exec T A) (t : T) (a : A)
      → (opened_then m t).0 ≡ ok a
      → ((m (api.new_client name t).1).0 ≡ ok a → P (m (api.new_client name t).1).1)
      → P (opened_then m t).1
  opened_then-ok P m t a h left =
      let (x, e, h', end) = bind-ok (api.new_client name) (λ _. m) t a h in
      subst P (sym end) (left h')

  pub put-answer :
      (m : Mutation) (t : T)
      → (opened_then (api.apply m) t).0 ≡ ok tt
      → table (opened_then (api.apply m) t).1 ≡ applied m (table t)
  put-answer m t h =
      opened_then-ok (λ s. table s ≡ applied m (table t)) (api.apply m) t tt h
        (λ done.
          laws.applies m (api.new_client name t).1 done ∙ ap (applied m) (laws.opening name t))

  -- A row that is not there is deleted already.
  update-none : (c : Credentials) (u : String) → c u ≡ none → c ≡ update c u none
  update-none c u missing = fun_ext (λ j. elim (Bool-cases (str_eq u j)) [
    | inl same ↦ rw same (ap c (sym ((str_eq_iff u j).0 same)) ∙ missing)
    | inr other ↦ rw other refl
  ])

  -- A removal after which a missing row is as good as a deleted one.
  unless_missing-answer :
      (m : Mutation) (t : T)
      → ((e : GoError)
          → (api.apply m t).0 ≡ err e
          → api.is_not_found e ≡ true
          → table (api.apply m t).1 ≡ applied m (table t))
      → (Spanner.apply_unless_missing api name m t).0 ≡ ok tt
      → table (Spanner.apply_unless_missing api name m t).1 ≡ applied m (table t)
  unless_missing-answer m t missing_row h = elim (Result-cases (api.apply m t).0) [
    | inl (x, e) ↦ rw e (laws.applies m t e)
    | inr (inl (y, e)) ↦ elim (Bool-cases (api.is_not_found y)) [
      | inl missing ↦ rw (e, missing) (missing_row y e missing)
      | inr other ↦ absurd (ground arith)
    ]
    | inr (inr (p, e)) ↦ absurd (ground arith)
  ]

  pub credentials_row :
      (u : String) (t : T) (e : GoError)
      → (api.apply (remove_credentials u) t).0 ≡ err e
      → api.is_not_found e ≡ true
      → table (api.apply (remove_credentials u) t).1 ≡ applied (remove_credentials u) (table t)
  credentials_row u t e f missing =
      let (same, none_there) = laws.nothing_to_remove u t e f missing in
      same ∙ update-none (table t) u none_there

  pub remove-answer :
      (m : Mutation) (t : T)
      → ((s : T) (e : GoError)
          → (api.apply m s).0 ≡ err e
          → api.is_not_found e ≡ true
          → table (api.apply m s).1 ≡ applied m (table s))
      → (opened_then (Spanner.apply_unless_missing api name m) t).0 ≡ ok tt
      → table (opened_then (Spanner.apply_unless_missing api name m) t).1 ≡ applied m (table t)
  remove-answer m t missing_row h =
      opened_then-ok (λ s. table s ≡ applied m (table t)) (Spanner.apply_unless_missing api name m)
        t tt h
        (λ done.
          unless_missing-answer m (api.new_client name t).1 (missing_row (api.new_client name t).1)
            done
          ∙ ap (applied m) (laws.opening name t))

  pub expiry-answer : (t : T) → table (Spanner.delete_expired_sessions api name t).1 ≡ table t
  unfolding Spanner.delete_expired_sessions
  expiry-answer t =
      let opened = laws.opening name t in
      let t1 = (api.new_client name t).1 in
      let told = laws.telling_time t1 ∙ opened in
      let t2 = (api.now t1).1 in
      elim (Result-cases (api.new_client name t).0) [
        | inl (x, e) ↦ elim (Result-cases (api.now t1).0) [
          | inl (n, f) ↦
              let expired = laws.expiring (n - 172800) t2 ∙ told in
              elim (Result-cases (api.delete_sessions_before (n - 172800) t2).0) [
                | inl (k, g) ↦ rw (e, f, g) expired
                | inr (inl (y, g)) ↦ rw (e, f, g) expired
                | inr (inr (p, g)) ↦ rw (e, f, g) expired
              ]
          | inr (inl (y, f)) ↦ rw (e, f) told
          | inr (inr (p, f)) ↦ rw (e, f) told
        ]
        | inr (inl (y, e)) ↦ rw e opened
        | inr (inr (p, e)) ↦ rw e opened
      ]
