-- ===== src/Egress/Handlers.antt =====
-- internal/server/egress_handlers.go: the dashboard's side of the egress settings.
pub mod Laws
mod Tests
use appx.Base.{
  ℕ, zero, suc, Bool, true, false, ◌&&◌, ◌||◌, Option, none, some, List, [], ◌∷◌, ltb, leb,
  if◌then◌else◌,
}
use appx.Text.{Text, codes, text_eq, has_suffix}
use appx.Text.Int.{ℤ, pos, negsuc, atoi}
use appx.Text.HostPort.{split_host_port}
use appx.Egress.Store.{Store, LogEntry, get_allowlist, set_allowlist, list_log}
use appx.Egress.Proxy.{Address}
use appx.Egress.Pending.{
  PendingRequest, PendingRegistry, Effect, ok, ◌>>=◌, Resolved, not_found, resolved, resolve,
  list_requests,
}

pub data Status : Type 0 where
  ok_status bad_request not_found_status internal_error : Status

abbrev or_default : (ℕ → Bool) → ℕ → Option ℤ → ℕ
or_default fits d none = d
or_default fits d (some (pos n)) = if fits n then n else d
or_default fits d (some (negsuc n)) = d

-- handleGetEgressLog: "limit" and "offset", each empty when it is not given.
pub log_limit : Text → ℕ
log_limit v = if text_eq v [] then 50 else or_default (λ n. ltb 0 n && leb n 200) 50 (atoi v)

pub log_offset : Text → ℕ
log_offset v = if text_eq v [] then 0 else or_default (λ n. true) 0 (atoi v)

pub handle_get_egress_log : Bool → Text → Text → Store → Status × Option (List LogEntry × ℕ)
handle_get_egress_log db_ok limit offset s =
    elim (list_log db_ok (log_limit limit) (log_offset offset) s) [
      | none ↦ (internal_error, none)
      | some page ↦ (ok_status, some page)
    ]

unfoldable pub handle_get_allowlist : Store → Status × List Text
handle_get_allowlist s = (ok_status, get_allowlist s)

-- With the registry that List leaves.
pub handle_get_egress_pending :
    ℕ → PendingRegistry → Effect (Status × List PendingRequest × PendingRegistry)
handle_get_egress_pending now r = do
  (requests, r') ← list_requests now r
  ok (ok_status, requests, r')

-- net.ParseIP, with the three tests that the handler makes on its result.
module _ (parse_ip : Text → Option Address) where
  abbrev internal_ip : Option Address → Bool
  internal_ip none = false
  internal_ip (some a) = a.loopback || a.private || a.link_local

  -- The tests on a host that has been split off.
  pub host_ok : Text → Bool
  host_ok host =
      if text_eq host []
      then false
      else if text_eq host (codes "localhost") || has_suffix host (codes ".localhost")
      then false
      else if internal_ip (parse_ip host)
      then false
      else true

  -- One round of the loop over the entries.
  pub entry_ok : Text → Bool
  entry_ok entry = elim (split_host_port entry) [
    | none ↦ false
    | some (host, port_text) ↦ elim (atoi port_text) [ none ↦ false | some port ↦ host_ok host ]
  ]

  pub entries_ok : List Text → Bool
  entries_ok [] = true
  entries_ok (e ∷ es) = entry_ok e && entries_ok es

  -- `none` is a body that does not decode.
  pub handle_set_allowlist : Bool → Option (List Text) → Store → Status × Store
  handle_set_allowlist db_ok none s = (bad_request, s)
  handle_set_allowlist db_ok (some []) s = (bad_request, s)
  handle_set_allowlist db_ok (some (e ∷ es)) s =
      if entries_ok (e ∷ es)
      then (let (saved, s') = set_allowlist db_ok (e ∷ es) s in
          if saved then (ok_status, s') else (internal_error, s'))
      else (bad_request, s)

resolution_status : Resolved → Status
resolution_status not_found = not_found_status
resolution_status (resolved e) = ok_status

-- handleApproveEgressRequest and handleDenyEgressRequest, with what Resolve did.
pub handle_approve_egress_request : Text → Bool → PendingRegistry → Status × Resolved
handle_approve_egress_request id db_ok r =
    let result = resolve id true db_ok r in (resolution_status result, result)

pub handle_deny_egress_request : Text → Bool → PendingRegistry → Status × Resolved
handle_deny_egress_request id db_ok r =
    let result = resolve id false db_ok r in (resolution_status result, result)
