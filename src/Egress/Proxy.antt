-- ===== src/Egress/Proxy.antt =====
-- internal/egress/proxy.go: ServeHTTP, the CONNECT proxy. What the network answers is an argument.
pub mod Laws
mod Tests
use appx.Base.{ℕ, Bool, true, false, not, ◌&&◌, ◌||◌, Option, none, some, if◌then◌else◌}
use appx.Text.{Text}
use appx.Text.HostPort.{split_host_port}
use appx.Text.Int.{ℤ, atoi}
use appx.Egress.Store.{Store, is_allowed, log_entry}

-- The address that a dialled name resolved to, by the three tests of net.IP.
pub record Address : Type 0 where
  pub loopback : Bool
  pub private : Bool
  pub link_local : Bool

pub data Dialled : Type 0 where
  refused : Dialled
  connected : Address → Dialled
  connected_other : Dialled

-- http.Hijacker: the writer is none, or taking over fails, or it works.
pub data Hijack : Type 0 where
  unsupported failed taken : Hijack

pub data Reply : Type 0 where
  method_not_allowed bad_host_port bad_port not_in_allowlist dial_failed : Reply
  internal_address hijack_unsupported hijack_failed tunnel : Reply

-- What the handler did: its reply, whether it dialled, and whether it closed what it dialled.
pub record Served : Type 0 where
  pub reply : Reply
  pub dialled : Bool
  pub closed : Bool
  pub store : Store

pub record Network : Type 0 where
  pub log_ok : Bool
  pub now : ℕ
  pub dial : Dialled
  pub hijack : Hijack

abbrev pub is_internal : Dialled → Bool
is_internal refused = false
is_internal (connected a) = a.loopback || a.private || a.link_local
is_internal connected_other = false

-- From the hijack on.
take_over : Hijack → Store → Served
take_over unsupported s = record {
  reply = hijack_unsupported;
  dialled = true;
  closed = true;
  store = s;
}
take_over failed s = record { reply = hijack_failed; dialled = true; closed = true; store = s }
take_over taken s = record { reply = tunnel; dialled = true; closed = false; store = s }

-- From the dial on; `allow_internal` is set in tests of the program only.
connect : Bool → Network → Store → Served
connect allow_internal net s = elim net.dial [
  | refused ↦ record { reply = dial_failed; dialled = true; closed = false; store = s }
  | _ ↦
      if not allow_internal && is_internal net.dial
      then record { reply = internal_address; dialled = true; closed = true; store = s }
      else take_over net.hijack s
]

decide_destination : Bool → Network → Text → ℤ → Store → Served
decide_destination allow_internal net host port s =
    let allowed = is_allowed s.allowlist host port in
    let s' = (log_entry net.log_ok host port allowed net.now s).1 in
    if not allowed
    then record { reply = not_in_allowlist; dialled = false; closed = false; store = s' }
    else connect allow_internal net s'

pub serve_http : Bool → Network → Bool → Text → Store → Served
serve_http allow_internal net is_connect target s =
    if not is_connect
    then record { reply = method_not_allowed; dialled = false; closed = false; store = s }
    else elim (split_host_port target) [
      | none ↦ record { reply = bad_host_port; dialled = false; closed = false; store = s }
      | some (host, port_text) ↦ elim (atoi port_text) [
        | none ↦ record { reply = bad_port; dialled = false; closed = false; store = s }
        | some port ↦ decide_destination allow_internal net host port s
      ]
    ]
