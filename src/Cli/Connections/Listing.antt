-- ===== src/Cli/Connections/Listing.antt =====
-- What the listing of connections finds, in terms of what the agents answer.
use cloud_android_orchestrat.Exec.{Result, Result-cases, err, ok, panic}
use cloud_android_orchestrat.Cli.Connections.{
  DirEntry, Sockets, ask_agent, gather, list_cvd_connections, list_cvd_connections_by_host, of_host,
}
use cloud_android_orchestrat.Errors.{GoError}
use cloud_android_orchestrat.Cli.Locators.{
  ConnStatus, RemoteCvdLocator, StatusCmdRes, Statuses, put_status, same_locator, same_locator_iff,
  status_of, status_of-put_status,
}
use cloud_android_orchestrat.Prelude.{
  ◌∙◌, All, Bool, Bool-cases, List, Option, String, [], ap, arith, false, if◌then◌else◌, inl, inr,
  none, refl, some, str_eq, str_eq_iff, true, ◌++◌, ◌<>◌, ◌∷◌, ◌≡◌,
}

-- The last answer that names a device, or what was known before the answers.
abbrev pub last_status :
    RemoteCvdLocator → List (Result StatusCmdRes) → Option ConnStatus → Option ConnStatus
last_status cvd [] before = before
last_status cvd (ok res ∷ answers) before =
    last_status cvd answers (if same_locator res.cvd cvd then some res.status else before)
last_status cvd (err e ∷ answers) before = last_status cvd answers before
last_status cvd (panic p ∷ answers) before = last_status cvd answers before

abbrev pub failures : List (Result StatusCmdRes) → List GoError
failures [] = []
failures (ok res ∷ answers) = failures answers
failures (err e ∷ answers) = e ∷ failures answers
failures (panic p ∷ answers) = failures answers

abbrev pub is_panic : {A : Type 0} → Result A → Bool
is_panic (ok a) = false
is_panic (err e) = false
is_panic (panic p) = true

pub append-cons :
    {A : Type 0} (xs : List A) (y : A) (zs : List A) → (xs ++ y ∷ []) ++ zs ≡ xs ++ y ∷ zs
append-cons [] y zs = refl
append-cons (x ∷ xs) y zs = ap (λ rest. x ∷ rest) (append-cons xs y zs)

pub append-nil : {A : Type 0} (xs : List A) → xs ++ [] ≡ xs
append-nil [] = refl
append-nil (x ∷ xs) = ap (λ rest. x ∷ rest) (append-nil xs)

status_of-of_host :
    (host : String) (cvd : RemoteCvdLocator) (m : Statuses)
    → status_of cvd (of_host host m) ≡ (if str_eq host cvd.host then status_of cvd m else none)
unfolding status_of of_host
status_of-of_host host cvd [] = ground arith
status_of-of_host host cvd ((c, s) ∷ rest) = ground (
  arith,
  str_eq_iff host cvd.host,
  str_eq_iff host c.host,
  same_locator_iff c cvd,
  status_of-of_host host cvd rest,
)

module _ {W C : Type 0} (net : Sockets W C) (parse_status : String → Result StatusCmdRes) where
  abbrev asked : String → W → Result StatusCmdRes × W
  asked path w = ask_agent net parse_status path w

  -- What the agents behind the sockets of a directory answer, one after the other.
  abbrev pub answers : String → List DirEntry → W → List (Result StatusCmdRes)
  answers control_dir [] w = []
  answers control_dir (file ∷ entries) w =
      let (r, w') = asked (control_dir <> "/" <> file.name) w in
      let rest = answers control_dir entries w' in
      let others = answers control_dir entries w in if file.is_socket then r ∷ rest else others

  -- What a run of the loop gives: the errors behind those there were, and every last status.
  abbrev Gathers : String → List DirEntry → Statuses → List GoError → W → Type 0
  Gathers control_dir entries m merr w =
      (found : Statuses) × ((gather net parse_status control_dir entries (m, merr) w).0
        ≡ ok (found, merr ++ failures (answers control_dir entries w)))
      × ((cvd : RemoteCvdLocator)
          → status_of cvd found ≡ last_status cvd (answers control_dir entries w) (status_of cvd m))

  gather-failed :
      (control_dir : String) (file : DirEntry) (entries : List DirEntry) (m : Statuses)
      (merr : List GoError) (w : W) (x : GoError)
      → file.is_socket ≡ true
      → (asked (control_dir <> "/" <> file.name) w).0 ≡ err x
      → Gathers control_dir entries m (merr ++ x ∷ []) (asked (control_dir <> "/" <> file.name) w).1
      → Gathers control_dir (file ∷ entries) m merr w
  unfolding gather
  gather-failed control_dir file entries m merr w x socket e (found, f, last) =
      let path = control_dir <> "/" <> file.name in
      let rest = failures (answers control_dir entries (asked path w).1) in
      rw (socket, e) (found, f ∙ ap (λ errs. ok (found, errs)) (append-cons merr x rest), last)

  gather-answered :
      (control_dir : String) (file : DirEntry) (entries : List DirEntry) (m : Statuses)
      (merr : List GoError) (w : W) (res : StatusCmdRes)
      → file.is_socket ≡ true
      → (asked (control_dir <> "/" <> file.name) w).0 ≡ ok res
      → Gathers control_dir entries
          (put_status res.cvd res.status m)
          merr
          (asked (control_dir <> "/" <> file.name) w).1
      → Gathers control_dir (file ∷ entries) m merr w
  unfolding gather
  gather-answered control_dir file entries m merr w res socket e (found, f, last) =
      let path = control_dir <> "/" <> file.name in
      let rest = answers control_dir entries (asked path w).1 in
      rw (socket, e)
        (
          found,
          f,
          λ cvd.
              last cvd ∙ ap (last_status cvd rest) (status_of-put_status res.cvd cvd res.status m),
        )

  gather-answers :
      (control_dir : String) (entries : List DirEntry) (m : Statuses) (merr : List GoError) (w : W)
      → All (λ r. is_panic r ≡ false) (answers control_dir entries w)
      → Gathers control_dir entries m merr w
  unfolding gather
  gather-answers control_dir [] m merr w calm = (m, rw (append-nil merr) refl, λ cvd. refl)
  gather-answers control_dir (file ∷ entries) m merr w calm =
      let path = control_dir <> "/" <> file.name in
      elim (Bool-cases file.is_socket) [
        | inr plain_file ↦
            rw plain_file (gather-answers control_dir entries m merr w (rw plain_file at (calm)))
        | inl socket ↦ elim (Result-cases (asked path w).0) [
          | inl (res, e) ↦ gather-answered control_dir file entries m merr w res socket e (
              gather-answers control_dir entries (put_status res.cvd res.status m) merr
                (asked path w).1 (rw socket at (calm)).1)
          | inr (inl (x, e)) ↦ gather-failed control_dir file entries m merr w x socket e (
              gather-answers control_dir entries m (merr ++ x ∷ []) (asked path w).1
                (rw socket at (calm)).1)
          | inr (inr (p, e)) ↦ let bad = (rw (socket, e) at (calm)).0 in absurd (ground arith)
        ]
      ]

  pub list_cvd_connections_lem :
      (control_dir : String) (entries : List DirEntry) (w v : W)
      → net.read_dir control_dir w ≡ (ok entries, v)
      → All (λ r. is_panic r ≡ false) (answers control_dir entries v)
      → (found : Statuses) × ((list_cvd_connections net parse_status control_dir w).0
          ≡ ok (found, failures (answers control_dir entries v)))
        × ((cvd : RemoteCvdLocator)
            → status_of cvd found ≡ last_status cvd (answers control_dir entries v) none)
  unfolding list_cvd_connections status_of
  list_cvd_connections_lem control_dir entries w v readable calm =
      let (found, e, last) = gather-answers control_dir entries [] [] v calm in
      (found, rw (readable, e) refl, last)

  -- Where the directory can be read and no agent's answer is a panic, the listing of a host's
  -- connections succeeds: a device has the status that the last agent naming it answered if it is of
  -- that host, and none otherwise; and the errors are those of the agents that could not be asked,
  -- in order. Files that are no sockets are not asked.
  pub list_cvd_connections_by_host_lem :
      (control_dir host : String) (entries : List DirEntry) (w v : W)
      → net.read_dir control_dir w ≡ (ok entries, v)
      → All (λ r. is_panic r ≡ false) (answers control_dir entries v)
      → (found : Statuses) × ((list_cvd_connections_by_host net parse_status control_dir host w).0
          ≡ ok (found, failures (answers control_dir entries v)))
        × ((cvd : RemoteCvdLocator)
            → status_of cvd found ≡ (
                if str_eq host cvd.host
                then last_status cvd (answers control_dir entries v) none
                else none))
  unfolding list_cvd_connections_by_host
  list_cvd_connections_by_host_lem control_dir host entries w v readable calm =
      let (found, e, last) = list_cvd_connections_lem control_dir entries w v readable calm in
      (of_host host found, rw e refl, λ cvd. rw (status_of-of_host host cvd found, last cvd) refl)
