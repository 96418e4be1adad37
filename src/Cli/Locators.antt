-- ===== src/Cli/Locators.antt =====
-- pkg/cli/cvd.go and conn.go: virtual devices, the connections to them, and maps keyed by a device.
use cloud_android_orchestrat.Prelude.{
  Bool, List, Option, String, [], arith, if◌then◌else◌, none, refl, some, str_eq, str_eq_iff, true,
  ℕ, ◌&&◌, ◌↔◌, ◌∷◌, ◌≡◌,
}

-- `RemoteCVDLocator`
pub record RemoteCvdLocator : Type 0 where
  pub service_root_endpoint : String
  pub host : String
  pub name : String

-- `ForwarderState`
pub record ForwarderState : Type 0 where
  pub port : ℕ
  pub state : String

-- `ConnStatus`
pub record ConnStatus : Type 0 where
  pub adb : ForwarderState

-- `StatusCmdRes`
pub record StatusCmdRes : Type 0 where
  pub cvd : RemoteCvdLocator
  pub status : ConnStatus

-- `hoapi.CVD`, as far as the command line reads it
pub record Cvd : Type 0 where
  pub name : String
  pub status : String
  pub displays : List String

-- `RemoteCVD`
pub record RemoteCvd : Type 0 where
  pub locator : RemoteCvdLocator
  pub status : String
  pub displays : List String
  pub conn_status : Option ConnStatus

-- `NewRemoteCVD`
unfoldable pub new_remote_cvd : String → String → Cvd → RemoteCvd
new_remote_cvd url host cvd = record {
  locator = record { service_root_endpoint = url; host = host; name = cvd.name };
  status = cvd.status;
  displays = cvd.displays;
  conn_status = none;
}

-- `==` on locators
abbrev pub same_locator : RemoteCvdLocator → RemoteCvdLocator → Bool
same_locator a b =
    str_eq a.service_root_endpoint b.service_root_endpoint
    && str_eq a.host b.host
    && str_eq a.name b.name

pub same_locator_iff : (a b : RemoteCvdLocator) → (same_locator a b ≡ true) ↔ (a ≡ b)
same_locator_iff a b = ground (
  arith,
  str_eq_iff a.service_root_endpoint b.service_root_endpoint,
  str_eq_iff a.host b.host,
  str_eq_iff a.name b.name,
)

-- `map[RemoteCVDLocator]ConnStatus`
abbrev pub Statuses : Type 0
Statuses = List (RemoteCvdLocator × ConnStatus)

-- `statuses[cvd]`, with its presence flag
unfoldable pub status_of : RemoteCvdLocator → Statuses → Option ConnStatus
status_of cvd [] = none
status_of cvd ((c, s) ∷ rest) = if same_locator c cvd then some s else status_of cvd rest

-- `statuses[cvd] = status`
unfoldable pub put_status : RemoteCvdLocator → ConnStatus → Statuses → Statuses
put_status cvd status [] = (cvd, status) ∷ []
put_status cvd status ((c, s) ∷ rest) =
    if same_locator c cvd then (cvd, status) ∷ rest else (c, s) ∷ put_status cvd status rest

pub status_of-put_status :
    (a b : RemoteCvdLocator) (s : ConnStatus) (m : Statuses)
    → status_of b (put_status a s m) ≡ (if same_locator a b then some s else status_of b m)
unfolding status_of put_status
status_of-put_status a b s [] = refl
status_of-put_status a b s ((c, t) ∷ rest) = ground (
  arith,
  same_locator_iff a b,
  same_locator_iff c a,
  same_locator_iff c b,
  status_of-put_status a b s rest,
)
