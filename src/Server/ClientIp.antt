-- ===== src/Server/ClientIp.antt =====
-- internal/server/ratelimit.go: the address that a login is counted for. net.ParseIP and the trusted
-- networks are parameters, as is strings.TrimSpace.
pub mod Laws
mod Tests
use appx.Base.{ℕ, Bool, false, none, some, [], take, if◌then◌else◌}
use appx.Text.{Text, text_eq}
use appx.Text.HostPort.{split_host_port, index_byte}
use appx.Server.RateLimit.{RateLimiter, allow}

pub record Request : Type 0 where
  pub remote_addr : Text
  pub forwarded_for : Text
  pub real_ip : Text

module _ (trim_space : Text → Text) (valid_ip trusted_ip : Text → Bool) where
  -- The text in front of the first comma, trimmed.
  first_element : Text → Text
  first_element raw = elim (index_byte b',' raw) [ none ↦ raw | some i ↦ trim_space (take i raw) ]

  without_port : Text → Text
  without_port raw = elim (split_host_port raw) [ none ↦ raw | some (host, port) ↦ host ]

  pub parse_ip : Text → Text
  parse_ip raw =
      let ip = without_port (first_element (trim_space raw)) in if valid_ip ip then ip else []

  -- isTrustedProxy: an address that parses and lies in one of the networks.
  pub is_trusted_proxy : Text → Bool
  is_trusted_proxy ip = if valid_ip (trim_space ip) then trusted_ip (trim_space ip) else false

  pub direct : Request → Text
  direct r = if text_eq (parse_ip r.remote_addr) [] then r.remote_addr else parse_ip r.remote_addr

  pub get_client_ip : Request → Text
  get_client_ip r =
      if is_trusted_proxy (parse_ip r.remote_addr)
      then (if text_eq (parse_ip r.forwarded_for) []
          then (if text_eq (parse_ip r.real_ip) [] then direct r else parse_ip r.real_ip)
          else parse_ip r.forwarded_for)
      else direct r

  -- Whether the request reaches the next handler; otherwise it is answered with 429.
  pub middleware : Request → ℕ → RateLimiter → Bool × RateLimiter
  middleware r now rl = allow (get_client_ip r) now rl
