-- ===== src/Cli/Commands/Results.antt =====
-- What commands come to.
use cloud_android_orchestrat.Exec.{continue}
use cloud_android_orchestrat.Cli.Selection.{filter_map}
use cloud_android_orchestrat.Cli.Selection.Laws.{filter_map_ok_iff, filter_map_panics}
use cloud_android_orchestrat.Cli.Commands.{returned}
use cloud_android_orchestrat.Cli.Console.{Console, spaced}
use cloud_android_orchestrat.Cli.Args.{ConnectFlags}
use cloud_android_orchestrat.Cli.Commands.{CommandEnv}
use cloud_android_orchestrat.Errors.{GoError, plain}
use cloud_android_orchestrat.Cli.Locators.{ConnStatus, RemoteCvdLocator, Statuses}
use cloud_android_orchestrat.Prelude.{
  map, refl, str_eq, str_eq_iff, ◌++◌, ◌<>◌, ◌≡◌, Bool, Bool-cases, List, String, [], arith, false,
  inl, inr, true, ◌∷◌, ◌≢◌,
}
use cloud_android_orchestrat.Cli.Commands.Disconnecting.{
  found_any, connections, disconnect_listed, not_found, disconnect_all, distinct, mentions,
  restrict, run_disconnect_command,
}
use cloud_android_orchestrat.Exec.{◌>>◌, Result-cases, Result, err, ok, panic}

distinct-cons : (arg : String) (args : List String) → distinct (arg ∷ args) ≢ []
unfolding distinct mentions
distinct-cons arg [] e = absurd (ground arith)
distinct-cons arg (next ∷ args) e = elim (Bool-cases (mentions arg (next ∷ args))) [
  | inl again ↦ distinct-cons next args (rw again at (e))
  | inr first ↦ let bad = (rw first at (e)) in absurd (ground arith)
]

is_ok : {A : Type 0} → Result A → Bool
is_ok (ok a) = true
is_ok (err e) = false
is_ok (panic p) = false

append-not_empty : {A : Type 0} (xs ys : List A) → ys ≢ [] → xs ++ ys ≢ []
append-not_empty [] ys h e = h e
append-not_empty (x ∷ xs) ys h e = absurd (ground arith)

map-not_empty : {A B : Type 0} (f : A → B) (xs : List A) → xs ≢ [] → map f xs ≢ []
map-not_empty f [] h e = h refl
map-not_empty f (x ∷ xs) h e = absurd (ground arith)

module _ {W C : Type 0} (env : CommandEnv W C) where
  returned-fails :
      (errs : List GoError) (c : Console W) → errs ≢ [] → (returned env errs c).0 ≢ ok tt
  returned-fails [] c h e = h refl
  returned-fails (x ∷ errs) c h e = absurd (ground arith)

  disconnect_listed-named :
      (flags : ConnectFlags) (arg : String) (args : List String) (statuses : Statuses)
      (merr : List GoError) (c : Console W)
      → (disconnect_listed env flags (arg ∷ args) (statuses, merr) c).0 ≢ ok tt
  unfolding disconnect_listed restrict disconnect_all
  disconnect_listed-named flags arg args statuses merr c =
      let named = λ (cvd : RemoteCvdLocator) (s : ConnStatus). mentions cvd.name (arg ∷ args) in
      elim (Result-cases (filter_map statuses named)) [
        | inl (found, e) ↦
            let none_left = ((filter_map_ok_iff statuses named found).0 e).1 in
            let errs = map not_found (distinct (arg ∷ args)) in
            rw (e, none_left)
              (returned-fails (merr ++ errs) c (
                append-not_empty merr errs
                  (map-not_empty not_found (distinct (arg ∷ args)) (distinct-cons arg args))))
        | inr (inl (x, e)) ↦ rw e (λ bad. absurd (ground arith))
        | inr (inr (p, e)) ↦ rw e (λ bad. absurd (ground arith))
      ]

  disconnect_listed-panics :
      (flags : ConnectFlags) (arg : String) (args : List String) (before after : Statuses)
      (cvd : RemoteCvdLocator) (s : ConnStatus) (merr : List GoError) (c : Console W)
      → mentions cvd.name (arg ∷ args) ≡ true
      → disconnect_listed env flags (arg ∷ args) (before ++ (cvd, s) ∷ after, merr) c
        ≡ (panic "assignment to entry in nil map", c)
  unfolding disconnect_listed restrict
  disconnect_listed-panics flags arg args before after cvd s merr c named =
      rw
        (filter_map_panics before after cvd s
          (λ (cvd : RemoteCvdLocator) (s : ConnStatus). mentions cvd.name (arg ∷ args)) named)
        refl

  listed-panics :
      (flags : ConnectFlags) (arg : String) (args : List String) (before after : Statuses)
      (cvd : RemoteCvdLocator) (s : ConnStatus) (merr : List GoError) (c : Console W)
      → mentions cvd.name (arg ∷ args) ≡ true
      → continue
          (ok (before ++ (cvd, s) ∷ after, merr))
          (λ l. found_any env l.0 >> disconnect_listed env flags (arg ∷ args) l)
          c
        ≡ (panic "assignment to entry in nil map", c)
  listed-panics flags arg args [] after cvd s merr c named =
      disconnect_listed-panics flags arg args [] after cvd s merr c named
  listed-panics flags arg args (first ∷ before) after cvd s merr c named =
      disconnect_listed-panics flags arg args (first ∷ before) after cvd s merr c named

  listed-named :
      (flags : ConnectFlags) (arg : String) (args : List String)
      (r : Result (Statuses × List GoError)) (c : Console W)
      → (continue r (λ l. found_any env l.0 >> disconnect_listed env flags (arg ∷ args) l) c).0
        ≢ ok tt
  listed-named flags arg args (err e) c bad = absurd (ground arith)
  listed-named flags arg args (panic p) c bad = absurd (ground arith)
  listed-named flags arg args (ok ([], merr)) c bad = absurd (ground arith)
  listed-named flags arg args (ok (s ∷ statuses, merr)) c bad =
      disconnect_listed-named flags arg args (s ∷ statuses) merr c bad

  -- With devices named, the command is never a success, and without a host it is refused for lack
  -- of one.
  pub run_disconnect_command_named :
      (flags : ConnectFlags) (arg : String) (args : List String) (c : Console W)
      → ((run_disconnect_command env flags (arg ∷ args) c).0 ≢ ok tt)
        × (flags.host ≡ ""
            → run_disconnect_command env flags (arg ∷ args) c
              ≡ (err (plain ("Missing host for devices: [" <> spaced (arg ∷ args) <> "]")), c))
  unfolding run_disconnect_command
  run_disconnect_command_named flags arg args c = elim (Bool-cases (str_eq flags.host "")) [
    | inl no_host ↦ rw no_host (λ bad. absurd (ground arith), λ e. refl)
    | inr given ↦
        let no_host : flags.host ≡ "" → ⊥ =
          λ e. let e' = (str_eq_iff flags.host "").1 e in absurd (ground arith) in
        rw given (
          listed-named flags arg args (connections env flags.host c.world).0
              (record c { world = (connections env flags.host c.world).1 }),
          λ e. absurd (no_host e),
        )
  ]

  -- If a host is given, its connections are listed and one of them is to a device that is named,
  -- then disconnecting panics, before any connection is closed: all that was done is the listing.
  pub run_disconnect_command_panics :
      (flags : ConnectFlags) (arg : String) (args : List String) (before after : Statuses)
      (cvd : RemoteCvdLocator) (s : ConnStatus) (merr : List GoError) (c : Console W)
      → flags.host ≢ ""
      → (connections env flags.host c.world).0 ≡ ok (before ++ (cvd, s) ∷ after, merr)
      → mentions cvd.name (arg ∷ args) ≡ true
      → run_disconnect_command env flags (arg ∷ args) c ≡ (
        panic "assignment to entry in nil map",
        record c { world = (connections env flags.host c.world).1 },
      )
  unfolding run_disconnect_command
  run_disconnect_command_panics flags arg args before after cvd s merr c host l named =
      elim (Bool-cases (str_eq flags.host "")) [
        | inl no_host ↦ absurd (host ((str_eq_iff flags.host "").0 no_host))
        | inr given ↦
            rw (given, l)
              (listed-panics flags arg args before after cvd s merr
                (record c { world = (connections env flags.host c.world).1 }) named)
      ]
