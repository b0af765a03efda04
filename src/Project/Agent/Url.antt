-- ===== src/Project/Agent/Url.antt =====
-- The deployment that the manager of internal/project/manager.go registers, and the addresses in it.
use appx.Base.{
  ◌≡◌, ap₂, append_assoc, append-nil, Bool, ◌||◌, ◌∷◌, [], ◌++◌, arith, ◌==◌, if◌then◌else◌, ℕ,
}
use appx.Text.{Text, codes, itoa, text_eq}
use appx.Project.Store.{Project}
use appx.Project.Manager.{Manager, deployment_for, app_url, scheme, default_port}

-- The public address of a label: the scheme, the label under the base domain, and the port unless it is
-- unset or the scheme's own.
abbrev pub domain_part : Text → Text
domain_part domain = if text_eq domain [] then [] else codes "." ++ domain

abbrev pub port_part : Bool → ℕ → Text
port_part http_mode port =
    if port == 0 || port == (if http_mode then 80 else 443) then [] else codes ":" ++ itoa port

abbrev pub public_url : Manager → Text → Text
public_url m label =
    (if m.http_mode then codes "http://" else codes "https://")
    ++ (label ++ (domain_part m.base_domain ++ port_part m.http_mode m.external_port))

app_url-public_url : (m : Manager) (label : Text) → app_url m label ≡ public_url m label
unfolding app_url scheme default_port
app_url-public_url m label = ground (
  arith,
  append_assoc label (b'.' ∷ m.base_domain) (b':' ∷ itoa m.external_port),
  append-nil label,
  append-nil (b'.' ∷ m.base_domain),
)

pub deployed :
    (m : Manager) (p : Project)
    → deployment_for m p ≡ record {
      dev = record { port = p.dev_port; url = public_url m (p.name ++ codes "-dev") };
      prod = record { port = p.assigned_port; url = public_url m p.name };
    }
unfolding deployment_for
deployed m p =
    ap₂
      (λ (u : Text) (v : Text). record {
        dev = record { port = p.dev_port; url = u };
        prod = record { port = p.assigned_port; url = v };
      })
      (app_url-public_url m (p.name ++ codes "-dev")) (app_url-public_url m p.name)
