-- ===== src/Egress/Handlers/Tests.antt =====
-- Lists that the dashboard sends.
use appx.Base.{◌≡◌, refl, true, false, Option, none, some, List, [], ◌∷◌}
use appx.Text.{Text, codes, has_byte, text_eq}
use appx.Text.Int.{pos}
use appx.Text.HostPort.{IsPlain}
use appx.Egress.Store.{Store, entries, new_store, member, key}
use appx.Egress.Proxy.{Address}
use appx.Egress.Handlers.{Status, ok_status, bad_request, host_ok, handle_set_allowlist}

-- A parser that knows one address.
abbrev parse_loopback : Text → Option Address
unfolding text_eq
parse_loopback t = elim (text_eq t (codes "127.0.0.1")) [
  | true ↦ some (record { loopback = true; private = false; link_local = false })
  | false ↦ none
]

abbrev nothing_allowed : Store
nothing_allowed = new_store (entries []) [] 1

abbrev good_list : List Text
good_list = codes "a.b:443" ∷ []

abbrev bad_list : List Text
bad_list = codes "127.0.0.1:443" ∷ []

accepted : (handle_set_allowlist parse_loopback true (some good_list) nothing_allowed).0 ≡ ok_status
unfolding handle_set_allowlist appx.Egress.Handlers.entries_ok appx.Egress.Handlers.entry_ok
    appx.Text.HostPort.split_host_port appx.Text.HostPort.last_index_byte has_byte
    appx.Text.Int.atoi host_ok text_eq appx.Text.has_suffix appx.Egress.Store.set_allowlist
accepted = refl

loopback_rejected : host_ok parse_loopback (codes "127.0.0.1") ≡ false
unfolding host_ok text_eq appx.Text.has_suffix
loopback_rejected = refl
