-- ===== src/Egress/Proxy/Tests.antt =====
-- Requests to the proxy on small inputs.
use appx.Base.{◌≡◌, ◌≢◌, refl, ◌⊎◌, true, false, [], ◌∷◌, some}
use appx.Text.{Text, codes}
use appx.Text.HostPort.{split_host_port}
use appx.Text.Int.{ℤ, pos, atoi}
use appx.Egress.Store.{Store, Saved, entries, new_store, is_allowed, log_entry}
use appx.Egress.Proxy.{
  Address, Dialled, refused, connected, Hijack, taken, Reply, tunnel, not_in_allowlist, dial_failed,
  Served, Network, is_internal, serve_http,
}
use appx.Egress.Proxy.Laws.{serve_http_tunnel, serve_http_closes}

abbrev one_host : Store
one_host = new_store (entries (codes "a.b:443" ∷ [])) [] 1

abbrev public_net : Network
public_net = record {
  log_ok = true;
  now = 7;
  dial = connected (record { loopback = false; private = false; link_local = false });
  hijack = taken;
}

tunnelled : (serve_http false public_net true (codes "a.b:443") one_host).reply ≡ tunnel
unfolding serve_http split_host_port appx.Text.HostPort.last_index_byte appx.Text.has_byte atoi
    appx.Egress.Proxy.decide_destination is_allowed appx.Egress.Store.member new_store
    appx.Egress.Store.reload_allowlist appx.Egress.Store.load appx.Egress.Store.key
    appx.Egress.Store.port_suffix appx.Text.Int.print_int appx.Egress.Proxy.connect
    appx.Egress.Proxy.take_over
tunnelled = refl

serve_http_tunnel_example :
    (true ≡ true)
    × (host : Text) × (port_text : Text) × (port : ℤ) × (split_host_port (codes "a.b:443")
        ≡ some (host, port_text))
    × (atoi port_text ≡ some port)
    × (is_allowed one_host.allowlist host port ≡ true)
    × (public_net.dial ≢ refused)
    × (is_internal public_net.dial ≡ false)
serve_http_tunnel_example = serve_http_tunnel public_net true (codes "a.b:443") one_host tunnelled

split_other : split_host_port (codes "c.d:80") ≡ some (codes "c.d", codes "80")
unfolding split_host_port appx.Text.HostPort.last_index_byte appx.Text.has_byte
split_other = refl

port_other : atoi (codes "80") ≡ some (pos 80)
unfolding atoi
port_other = refl

other_refused : is_allowed one_host.allowlist (codes "c.d") (pos 80) ≡ false
unfolding is_allowed appx.Egress.Store.member new_store appx.Egress.Store.reload_allowlist
    appx.Egress.Store.load appx.Egress.Store.key appx.Egress.Store.any_entry
    appx.Egress.Store.wildcard_entry appx.Text.has_byte
other_refused = refl

dialled_then : (serve_http false public_net true (codes "a.b:443") one_host).dialled ≡ true
unfolding serve_http split_host_port appx.Text.HostPort.last_index_byte appx.Text.has_byte atoi
    appx.Egress.Proxy.decide_destination is_allowed appx.Egress.Store.member new_store
    appx.Egress.Store.reload_allowlist appx.Egress.Store.load appx.Egress.Store.key
    appx.Egress.Store.port_suffix appx.Text.Int.print_int appx.Egress.Proxy.connect
    appx.Egress.Proxy.take_over
dialled_then = refl

serve_http_closes_example :
    ((serve_http false public_net true (codes "a.b:443") one_host).reply ≡ tunnel)
    ⊎ (((serve_http false public_net true (codes "a.b:443") one_host).reply ≡ dial_failed)
        ⊎ ((serve_http false public_net true (codes "a.b:443") one_host).closed ≡ true))
serve_http_closes_example =
    serve_http_closes false public_net true (codes "a.b:443") one_host dialled_then
