-- ===== src/Runtime/Spec/Flags.antt =====
-- Which options RunArgs of internal/containerruntime/spec.go can pass to docker.
use appx.Base.{◌≡◌, refl, ap, ap₂, ◌∙◌, sym, List, [], ◌∷◌, ◌++◌, All, map}
use appx.Text.{Text, codes, itoa}
use appx.Runtime.Spec.{
  ContainerSpec, run_args, each, optional, boundary, sorted_env, bind_of, api_publish, app_publish,
}

-- The options that the container may get. Nothing adds a privilege, a capability or a device but the
-- tunnel's, and the ports are published on the bind hosts only.
pub data Allowed (s : ContainerSpec) : Text → Text → Type 0 where
  named : Allowed s (codes "--name") s.name
  tunnel : Allowed s (codes "--device") (codes "/dev/net/tun")
  seccomp : Allowed s (codes "--security-opt") (codes "seccomp=" ++ s.seccomp_profile_path)
  apparmor : Allowed s (codes "--security-opt") (codes "apparmor=unconfined")
  systempaths : Allowed s (codes "--security-opt") (codes "systempaths=unconfined")
  restarts : Allowed s (codes "--restart") s.restart_policy
  memory_limit : Allowed s (codes "--memory") s.memory
  cpu_limit : Allowed s (codes "--cpus") s.cpus
  host_alias : (v : Text) → Allowed s (codes "--add-host") v
  env_var : (v : Text) → Allowed s (codes "-e") v
  volume : (v : Text) → Allowed s (codes "-v") v
  api_ports :
      Allowed s
        (codes "-p")
        (s.api_bind_host ++ (codes ":" ++ itoa s.api_port) ++ (codes ":" ++ itoa s.api_port))
  app_ports : Allowed s (codes "-p") (
      s.app_bind_host
      ++ (codes ":" ++ (itoa s.app_port_start ++ (codes "-" ++ itoa s.app_port_end)))
      ++ (codes ":" ++ (itoa s.app_port_start ++ (codes "-" ++ itoa s.app_port_end))))

abbrev pub options : List (Text × Text) → List Text
options [] = []
options ((flag, value) ∷ os) = flag ∷ value ∷ options os

pub options-append : (os ps : List (Text × Text)) → options (os ++ ps) ≡ options os ++ options ps
options-append [] ps = refl
options-append ((flag, value) ∷ os) ps = ap (λ xs. flag ∷ value ∷ xs) (options-append os ps)

module _ (s : ContainerSpec) where
  abbrev AllAllowed : List (Text × Text) → Type 0
  AllAllowed = All (λ o. Allowed s o.0 o.1)

  AllAllowed-append :
      (os ps : List (Text × Text)) → AllAllowed os → AllAllowed ps → AllAllowed (os ++ ps)
  AllAllowed-append [] ps h k = k
  AllAllowed-append (o ∷ os) ps (a, h) k = (a, AllAllowed-append os ps h k)

  -- A list of arguments that is made of allowed options.
  abbrev AreAllowed : List Text → Type 0
  AreAllowed args = (os : List (Text × Text)) × (args ≡ options os) × AllAllowed os

  AreAllowed-append : (xs ys : List Text) → AreAllowed xs → AreAllowed ys → AreAllowed (xs ++ ys)
  AreAllowed-append xs ys (os, e, h) (ps, e', k) =
      (os ++ ps, ap₂ (λ a b. a ++ b) e e' ∙ sym (options-append os ps), AllAllowed-append os ps h k)

  each-AreAllowed :
      (flag : Text) (vs : List Text) → ((v : Text) → Allowed s flag v) → AreAllowed (each flag vs)
  each-AreAllowed flag [] h = ([], refl, tt)
  each-AreAllowed flag (v ∷ vs) h =
      let (os, e, k) = each-AreAllowed flag vs h in
      ((flag, v) ∷ os, ap (λ xs. flag ∷ v ∷ xs) e, (h v, k))

  optional-AreAllowed : (flag v : Text) → Allowed s flag v → AreAllowed (optional flag v)
  optional-AreAllowed flag [] h = ([], refl, tt)
  optional-AreAllowed flag (x ∷ v) h = ((flag, x ∷ v) ∷ [], refl, (h, tt))

  boundary-AreAllowed : AreAllowed (codes "--name" ∷ s.name ∷ boundary s)
  boundary-AreAllowed = (
    (codes "--name", s.name)
        ∷ (codes "--device", codes "/dev/net/tun")
        ∷ (codes "--security-opt", codes "seccomp=" ++ s.seccomp_profile_path)
        ∷ (codes "--security-opt", codes "apparmor=unconfined")
        ∷ (codes "--security-opt", codes "systempaths=unconfined")
        ∷ [],
    refl,
    (named, (tunnel, (seccomp, (apparmor, (systempaths, tt))))),
  )

  ports-AreAllowed : AreAllowed (codes "-p" ∷ api_publish s ∷ codes "-p" ∷ app_publish s ∷ [])
  ports-AreAllowed = (
    (codes "-p", api_publish s) ∷ (codes "-p", app_publish s) ∷ [],
    refl,
    (api_ports, (app_ports, tt)),
  )

  -- The arguments between `run -d` and the image.
  body : (List Text → List Text) → List Text
  body sort_strings =
      codes "--name" ∷ s.name ∷ boundary s
      ++ optional (codes "--restart") s.restart_policy
      ++ optional (codes "--memory") s.memory
      ++ optional (codes "--cpus") s.cpus
      ++ each (codes "--add-host") s.add_hosts
      ++ each (codes "-e") s.env_passthrough
      ++ each (codes "-e") (sorted_env sort_strings s.env)
      ++ each (codes "-v") (map bind_of s.volumes)
      ++ (codes "-p" ∷ api_publish s ∷ codes "-p" ∷ app_publish s ∷ [])

  body-AreAllowed : (sort_strings : List Text → List Text) → AreAllowed (body sort_strings)
  unfolding body
  body-AreAllowed sort_strings =
      AreAllowed-append _ _
        (AreAllowed-append _ _
          (AreAllowed-append _ _
            (AreAllowed-append _ _
              (AreAllowed-append _ _
                (AreAllowed-append _ _
                  (AreAllowed-append _ _
                    (AreAllowed-append _ _ boundary-AreAllowed
                      (optional-AreAllowed (codes "--restart") s.restart_policy restarts))
                    (optional-AreAllowed (codes "--memory") s.memory memory_limit))
                  (optional-AreAllowed (codes "--cpus") s.cpus cpu_limit))
                (each-AreAllowed (codes "--add-host") s.add_hosts host_alias))
              (each-AreAllowed (codes "-e") s.env_passthrough env_var))
            (each-AreAllowed (codes "-e") (sorted_env sort_strings s.env) env_var))
          (each-AreAllowed (codes "-v") (map bind_of s.volumes) volume))
        ports-AreAllowed

-- Whatever the specification of the container is, the command line is `run -d`, then options, then the
-- image; each option is one of the list above: no privilege, no capability, no device but the tunnel's,
-- no other security option, and no published port but on the bind hosts of the specification.
pub run_args-Allowed :
    (sort_strings : List Text → List Text) (s : ContainerSpec)
    → (os : List (Text × Text)) × (run_args sort_strings s
        ≡ codes "run" ∷ codes "-d" ∷ options os ++ (s.image ∷ []))
      × All (λ o. Allowed s o.0 o.1) os
unfolding run_args body
run_args-Allowed sort_strings s =
    let (os, e, h) = body-AreAllowed s sort_strings in
    (os, ap (λ xs. codes "run" ∷ codes "-d" ∷ xs ++ (s.image ∷ [])) e, h)
