-- ===== src/Cli/Listings.antt =====
-- pkg/cli/cvd.go: the listing of virtual devices with the states of their connections.
pub mod Laws
use cloud_android_orchestrat.Exec.{err, ok, panic, on_error}
use cloud_android_orchestrat.Prelude.{List, String, [], map, ◌++◌, ◌<>◌, ◌∷◌}
use cloud_android_orchestrat.Errors.{GoError, plain}
use cloud_android_orchestrat.Cli.Connections.{
  Sockets, list_cvd_connections, list_cvd_connections_by_host,
}
use cloud_android_orchestrat.Cli.Locators.{
  RemoteCvd, StatusCmdRes, Statuses, new_remote_cvd, status_of,
}
use cloud_android_orchestrat.Cli.Service.{Service}
use cloud_android_orchestrat.Exec.{Exec, Result, pure, wrapped, ◌>>=◌, ◌>>◌}

-- `ret[i].ConnStatus = &status` where there is one
abbrev pub with_status : Statuses → RemoteCvd → RemoteCvd
with_status statuses cvd = record cvd { conn_status = status_of cvd.locator statuses }

-- `fmt.Errorf` with a nil error: `err` is the one of `ListHosts`, not that of the host's listing.
abbrev pub host_failed : String → GoError
host_failed host = plain ("lists cvds for host \"" <> host <> "\" failed: %!w(<nil>)")

module _ {W C : Type 0} (service : Service W) (net : Sockets W C)
    (parse_status : String → Result StatusCmdRes) where
  -- `listHostCVDsInner`
  unfoldable pub list_host_cvds_inner : String → Statuses → Exec W (List RemoteCvd)
  list_host_cvds_inner host statuses = do
    cvds ← service.list_cvds host
    pure (map (λ cvd. with_status statuses (new_remote_cvd service.root_uri host cvd)) cvds)

  -- Devices beside errors: those of a listing, or its error as one more.
  abbrev noted :
      List GoError
      → (GoError → GoError)
      → Result (List RemoteCvd)
      → Result (List RemoteCvd × List GoError)
  noted merr reported (ok cvds) = ok (cvds, merr)
  noted merr reported (err e) = ok ([], merr ++ reported e ∷ [])
  noted merr reported (panic p) = panic p

  abbrev beside :
      List GoError
      → (GoError → GoError)
      → Exec W (List RemoteCvd)
      → Exec W (List RemoteCvd × List GoError)
  beside merr reported m w = let (r, w') = m w in (noted merr reported r, w')

  -- `listHostCVDs`
  unfoldable pub list_host_cvds : String → String → Exec W (List RemoteCvd × List GoError)
  list_host_cvds control_dir host = do
    l ← list_cvd_connections_by_host net parse_status control_dir host
    beside l.1 (λ e. e) (list_host_cvds_inner host l.0)

  -- The results of the hosts, received in the hosts' order.
  unfoldable pub list_hosts_cvds :
      Statuses → List String → List GoError → Exec W (List RemoteCvd × List GoError)
  list_hosts_cvds statuses [] merr = pure ([], merr)
  list_hosts_cvds statuses (host ∷ hosts) merr = do
    first ← beside merr (λ e. host_failed host) (list_host_cvds_inner host statuses)
    others ← list_hosts_cvds statuses hosts first.1
    pure (first.0 ++ others.0, others.1)

  -- `listAllCVDs`; the goroutines' calls are taken in the hosts' order
  unfoldable pub list_all_cvds : String → Exec W (List RemoteCvd × List GoError)
  list_all_cvds control_dir = do
    hosts ← wrapped "Error listing hosts" service.list_hosts
    l ← list_cvd_connections net parse_status control_dir
    list_hosts_cvds l.0 (map (λ h. h.name) hosts.items) l.1
