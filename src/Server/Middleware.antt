-- ===== src/Server/Middleware.antt =====
-- internal/server/middleware.go: the headers of every reply, and the test of the content type.
use appx.Base.{ℕ, ◌*◌, Bool, true, not, ◌&&◌, List, [], ◌∷◌, ◌++◌, if◌then◌else◌}
use appx.Text.{Text, codes, text_eq, has_prefix}

abbrev pub max_request_body : ℕ
max_request_body = 1024 * 1024

-- requireJSON: whether the request reaches the next handler; otherwise it is answered with 415.
pub require_json : Text → Text → Bool
require_json method content_type =
    if not (text_eq method (codes "GET"))
      && (not (text_eq method (codes "HEAD")) && not (text_eq method (codes "OPTIONS")))
    then has_prefix content_type (codes "application/json")
    else true

pub frame_src : Bool → Text → Text
frame_src http_mode base_domain =
    if text_eq base_domain []
    then codes "'self'"
    else codes "'self' "
      ++ (if http_mode then codes "http" else codes "https")
      ++ codes "://*."
      ++ base_domain
      ++ codes ":*"

-- The headers in the order in which they are set.
pub security_headers : Bool → Text → List (Text × Text)
security_headers http_mode base_domain =
    ((codes "X-Content-Type-Options", codes "nosniff") ∷ [])
    ++ (if http_mode
        then []
        else (codes "Strict-Transport-Security", codes "max-age=63072000; includeSubDomains") ∷ [])
    ++ ((codes "Referrer-Policy", codes "strict-origin-when-cross-origin")
        ∷ (codes "X-Frame-Options", codes "DENY")
        ∷ (
          codes "Content-Security-Policy",
          codes "default-src 'self'; "
              ++ codes "script-src 'self'; "
              ++ codes "style-src 'self' 'unsafe-inline' https://fonts.googleapis.com; "
              ++ codes "font-src 'self' https://fonts.gstatic.com; "
              ++ codes "frame-src "
              ++ frame_src http_mode base_domain
              ++ codes "; "
              ++ codes "connect-src 'self'",
        )
        ∷ [])
