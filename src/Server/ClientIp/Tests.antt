-- ===== src/Server/ClientIp/Tests.antt =====
-- A client that forges the headers of a proxy, after three logins from its address.
use appx.Base.{◌≡◌, refl, arith, Bool, false, List, [], ◌∷◌, length, ltb}
use appx.Text.{Text, codes, text_eq}
use appx.Server.RateLimit.{valid_times, new_rate_limiter}
use appx.Server.RateLimit.Window.{Event, request, sweep, Ordered, run, granted, no_history}
use appx.Server.ClientIp.{Request, parse_ip, is_trusted_proxy, middleware}
use appx.Server.ClientIp.Laws.{middleware_refines}

abbrev untrimmed : Text → Text
untrimmed t = t

abbrev known : Text → Bool
unfolding text_eq
known t = text_eq t (codes "1.2.3.4")

abbrev never : Text → Bool
never t = false

abbrev forged : Request
forged = record {
  remote_addr = codes "1.2.3.4:80";
  forwarded_for = codes "9.9.9.9";
  real_ip = codes "8.8.8.8";
}

abbrev calls : List Event
calls = request (codes "1.2.3.4") 1 ∷ request (codes "1.2.3.4") 2 ∷ sweep 3 ∷ []

calls-Ordered : Ordered 0 calls
calls-Ordered = (omega arith, (omega arith, (omega arith, tt)))

peer : parse_ip untrimmed known never (codes "1.2.3.4:80") ≡ codes "1.2.3.4"
unfolding parse_ip known appx.Server.ClientIp.without_port appx.Text.HostPort.split_host_port
    appx.Text.HostPort.last_index_byte appx.Server.ClientIp.first_element
    appx.Text.HostPort.index_byte appx.Text.has_byte
peer = refl

unlisted : is_trusted_proxy untrimmed known never (codes "1.2.3.4") ≡ false
unfolding is_trusted_proxy known
unlisted = refl

middleware_refines_example :
    (middleware untrimmed known never forged 5 (run calls (new_rate_limiter 10 2))).0
    ≡ ltb
        (length
          (valid_times 10 5 (granted calls (new_rate_limiter 10 2) no_history (codes "1.2.3.4"))))
        2
middleware_refines_example =
    middleware_refines untrimmed known never 10 2 calls 5 forged (codes "1.2.3.4") peer
      (unfold text_eq in refl) unlisted calls-Ordered (omega arith)
