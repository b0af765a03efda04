-- ===== src/Server/ClientIp/Laws.antt =====
-- The login limit as the middleware applies it to a peer that is not a trusted proxy.
use appx.Base.{ℕ, ◌≡◌, ◌≤◌, ap, ◌∙◌, Bool, false, List, [], length, ltb, arith}
use appx.Text.{Text, text_eq}
use appx.Server.RateLimit.{allow, valid_times, new_rate_limiter}
use appx.Server.RateLimit.Window.{
  Event, run, granted, no_history, Ordered, last_time, allow_refines,
}
use appx.Server.ClientIp.{Request, direct, parse_ip, is_trusted_proxy, get_client_ip, middleware}

module _ (trim_space : Text → Text) (valid_ip trusted_ip : Text → Bool) where
  untrusted :
      (r : Request) (ip : Text)
      → parse_ip trim_space valid_ip trusted_ip r.remote_addr ≡ ip
      → text_eq ip [] ≡ false
      → is_trusted_proxy trim_space valid_ip trusted_ip ip ≡ false
      → get_client_ip trim_space valid_ip trusted_ip r ≡ ip
  unfolding get_client_ip direct
  untrusted r ip peer named plain = ground (
    arith,
    peer,
    ap (λ a. text_eq a []) peer ∙ named,
    ap (is_trusted_proxy trim_space valid_ip trusted_ip) peer ∙ plain,
  )

  -- For a request whose connection comes from an address `ip` that is no trusted proxy: whatever its
  -- headers say, and whatever requests and sweeps came before in the order of their times, the
  -- middleware lets it through exactly when fewer than `max` requests counted for `ip` were let
  -- through in the window before it.
  pub middleware_refines :
      (window max : ℕ) (es : List Event) (t : ℕ) (r : Request) (ip : Text)
      → parse_ip trim_space valid_ip trusted_ip r.remote_addr ≡ ip
      → text_eq ip [] ≡ false
      → is_trusted_proxy trim_space valid_ip trusted_ip ip ≡ false
      → Ordered 0 es
      → last_time 0 es ≤ t
      → (middleware trim_space valid_ip trusted_ip r t (run es (new_rate_limiter window max))).0
        ≡ ltb
            (length (valid_times window t (granted es (new_rate_limiter window max) no_history ip)))
            max
  unfolding middleware
  middleware_refines window max es t r ip peer named plain o le =
      ap (λ a. (allow a t (run es (new_rate_limiter window max))).0)
        (untrusted r ip peer named plain)
      ∙ allow_refines window max es ip t o le
