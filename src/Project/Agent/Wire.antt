-- ===== src/Project/Agent/Wire.antt =====
-- The deployment that a registration carries, and what its reader finds in it.
use appx.Base.{ℕ, ◌≡◌, Option, none, some, List, [], arith}
use appx.Base.Maps.{lookup, insert, delete}
use appx.Text.{Text, codes, text_eq}
use appx.Text.Equality.{text_eq_iff}
use appx.Project.Manager.{EnvTarget, Deployment}
use appx.Project.Agent.{
  WireTarget, wire_target, marshal_target, put_target, marshal_deployment, filled,
}

-- What a reader makes of a body in which an absent field stands for 0 or the empty text.
abbrev pub or_zero : Option ℕ → ℕ
or_zero none = 0
or_zero (some n) = n

abbrev pub or_empty : Option Text → Text
or_empty none = []
or_empty (some s) = s

abbrev pub read_target : Option WireTarget → EnvTarget
read_target none = record { port = 0; url = [] }
read_target (some t) = record { port = or_zero t.port; url = or_empty t.url }

abbrev pub read_deployment : Option (List (Text × WireTarget)) → Deployment
read_deployment none = record {
  dev = record { port = 0; url = [] };
  prod = record { port = 0; url = [] };
}
read_deployment (some d) = record {
  dev = read_target (lookup (codes "dev") d);
  prod = read_target (lookup (codes "prod") d);
}

read-marshal_target : (t : EnvTarget) → read_target (marshal_target t) ≡ t
unfolding marshal_target wire_target
read-marshal_target t = ground (arith, text_eq_iff t.url [])

pub read-marshal_deployment : (d : Deployment) → read_deployment (filled (marshal_deployment d)) ≡ d
unfolding filled marshal_deployment marshal_target wire_target put_target insert delete lookup
    text_eq
read-marshal_deployment d = ground (arith, text_eq_iff d.dev.url [], text_eq_iff d.prod.url [])
