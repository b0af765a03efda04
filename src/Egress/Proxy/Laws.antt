-- ===== src/Egress/Proxy/Laws.antt =====
-- What the proxy lets through, what it logs, and that it closes what it does not hand over.
use appx.Base.{
  ◌≡◌, ◌≢◌, ◌⊎◌, inl, inr, Bool, true, false, none, some, Option-cases, arith, Bool-cases,
}
use appx.Text.{Text}
use appx.Text.HostPort.{split_host_port}
use appx.Text.Int.{ℤ, atoi}
use appx.Egress.Store.{Store, is_allowed, log_entry}
use appx.Egress.Proxy.{
  refused, tunnel, not_in_allowlist, dial_failed, Network, is_internal, take_over, connect,
  decide_destination, serve_http,
}

connected_outside :
    (net : Network) (s : Store)
    → (connect false net s).reply ≡ tunnel
    → (net.dial ≢ refused) × (is_internal net.dial ≡ false)
unfolding connect take_over
connected_outside net s h = (λ e. ground arith, ground arith)

decided :
    (net : Network) (host : Text) (port : ℤ) (s : Store)
    → (decide_destination false net host port s).reply ≡ tunnel
    → (is_allowed s.allowlist host port ≡ true)
      × (net.dial ≢ refused)
      × (is_internal net.dial ≡ false)
decided net host port s h = elim (Bool-cases (is_allowed s.allowlist host port)) [
  | inl allowed ↦
      (let out =
          connected_outside net (log_entry net.log_ok host port true net.now s).1
            (unfold decide_destination in ground arith) in
        (allowed, out.0, out.1))
  | inr blocked ↦ unfold decide_destination in ground arith
]

no_address :
    (net : Network) (is_connect : Bool) (target : Text) (s : Store)
    → split_host_port target ≡ none
    → (serve_http false net is_connect target s).reply ≢ tunnel
unfolding serve_http
no_address net is_connect target s bad h = ground arith

no_port :
    (net : Network) (is_connect : Bool) (target : Text) (s : Store) (host port_text : Text)
    → split_host_port target ≡ some (host, port_text)
    → atoi port_text ≡ none
    → (serve_http false net is_connect target s).reply ≢ tunnel
unfolding serve_http
no_port net is_connect target s host port_text good bad h = ground arith

reaches :
    (net : Network) (is_connect : Bool) (target : Text) (s : Store) (host port_text : Text)
    (port : ℤ)
    → split_host_port target ≡ some (host, port_text)
    → atoi port_text ≡ some port
    → (serve_http false net is_connect target s).reply ≡ tunnel
    → (is_connect ≡ true) × ((decide_destination false net host port s).reply ≡ tunnel)
unfolding serve_http
reaches net is_connect target s host port_text port good read h = ground arith

connect-store :
    (allow_internal : Bool) (net : Network) (s : Store) → (connect allow_internal net s).store ≡ s
unfolding connect take_over
connect-store allow_internal net s = ground arith

decided_store :
    (allow_internal : Bool) (net : Network) (host : Text) (port : ℤ) (s : Store)
    → (decide_destination allow_internal net host port s).store
      ≡ (log_entry net.log_ok host port (is_allowed s.allowlist host port) net.now s).1
unfolding decide_destination
decided_store allow_internal net host port s = ground (
  arith,
  connect-store allow_internal net
      (log_entry net.log_ok host port (is_allowed s.allowlist host port) net.now s).1,
)

-- Unless internal addresses are permitted, a tunnel is opened only for a CONNECT to a well-formed
-- address on the allowlist, through a connection that was made and did not resolve to an internal
-- address.
pub serve_http_tunnel :
    (net : Network) (is_connect : Bool) (target : Text) (s : Store)
    → (serve_http false net is_connect target s).reply ≡ tunnel
    → (is_connect ≡ true)
      × (host : Text) × (port_text : Text) × (port : ℤ) × (split_host_port target
          ≡ some (host, port_text))
      × (atoi port_text ≡ some port)
      × (is_allowed s.allowlist host port ≡ true)
      × (net.dial ≢ refused)
      × (is_internal net.dial ≡ false)
serve_http_tunnel net is_connect target s h = elim (Option-cases (split_host_port target)) [
  | inl bad ↦ absurd (no_address net is_connect target s bad h)
  | inr ((host, port_text), good) ↦ elim (Option-cases (atoi port_text)) [
    | inl bad ↦ absurd (no_port net is_connect target s host port_text good bad h)
    | inr (port, read) ↦
        (let (is_con, reached) = reaches net is_connect target s host port_text port good read h in
          let (ok, dialled, outside) = decided net host port s reached in
          (is_con, host, port_text, port, good, read, ok, dialled, outside))
  ]
]

-- A CONNECT to a well-formed address off the allowlist is refused before any dial, and the attempt
-- is logged as refused, if the log can be written.
pub serve_http_blocked :
    (allow_internal : Bool) (net : Network) (target : Text) (s : Store) (host port_text : Text)
    (port : ℤ)
    → split_host_port target ≡ some (host, port_text)
    → atoi port_text ≡ some port
    → is_allowed s.allowlist host port ≡ false
    → serve_http allow_internal net true target s ≡ record {
      reply = not_in_allowlist;
      dialled = false;
      closed = false;
      store = (log_entry net.log_ok host port false net.now s).1;
    }
serve_http_blocked allow_internal net target s host port_text port good read no_entry =
    unfold serve_http decide_destination in ground (arith, good, read, no_entry)

connect_closes :
    (allow_internal : Bool) (net : Network) (s : Store)
    → ((connect allow_internal net s).reply ≡ tunnel)
      ⊎ (((connect allow_internal net s).reply ≡ dial_failed)
          ⊎ ((connect allow_internal net s).closed ≡ true))
unfolding connect take_over
connect_closes allow_internal net s = ground arith

-- Every connection that was made is either handed over as a tunnel or closed again.
pub serve_http_closes :
    (allow_internal : Bool) (net : Network) (is_connect : Bool) (target : Text) (s : Store)
    → (serve_http allow_internal net is_connect target s).dialled ≡ true
    → ((serve_http allow_internal net is_connect target s).reply ≡ tunnel)
      ⊎ (((serve_http allow_internal net is_connect target s).reply ≡ dial_failed)
          ⊎ ((serve_http allow_internal net is_connect target s).closed ≡ true))
serve_http_closes allow_internal net is_connect target s h =
    elim (Option-cases (split_host_port target)) [
      | inl bad ↦ unfold serve_http in ground (arith, bad)
      | inr ((host, port_text), good) ↦ elim (Option-cases (atoi port_text)) [
        | inl bad ↦ unfold serve_http in ground (arith, good, bad)
        | inr (port, read) ↦
            unfold serve_http decide_destination in
            ground (
              arith,
              good,
              read,
              connect_closes allow_internal net (log_entry net.log_ok host port true net.now s).1,
            )
      ]
    ]

-- Whatever the proxy does, the allowlist stays as it was, and at most one line is added to the log.
pub serve_http_store :
    (allow_internal : Bool) (net : Network) (is_connect : Bool) (target : Text) (s : Store)
    → ((serve_http allow_internal net is_connect target s).store ≡ s)
      ⊎ ((host : Text) × (port : ℤ) × ((serve_http allow_internal net is_connect target s).store
            ≡ (log_entry net.log_ok host port (is_allowed s.allowlist host port) net.now s).1))
serve_http_store allow_internal net is_connect target s =
    elim (Option-cases (split_host_port target)) [
      | inl bad ↦ inl (unfold serve_http in ground (arith, bad))
      | inr ((host, port_text), good) ↦ elim (Option-cases (atoi port_text)) [
        | inl bad ↦ inl (unfold serve_http in ground (arith, good, bad))
        | inr (port, read) ↦ elim (Bool-cases is_connect) [
          | inl yes_ ↦ inr (
            host,
            port,
            unfold serve_http in
                rw (yes_, good, serve_http)
                  (rw (read, serve_http) (decided_store allow_internal net host port s)),
          )
          | inr no_ ↦ inl (unfold serve_http in ground arith)
        ]
      ]
    ]
