-- ===== src/Runtime/Spec/Drift.antt =====
-- What driftReasons of internal/containerruntime/supervisor.go compares.
use appx.Base.{
  ℕ, ◌≡◌, refl, true, List, [], ◌∷◌, ◌++◌, Bool-cases, inl, inr, if◌then◌else◌, not_taken, sym, ◌∙◌,
}
use appx.Text.{Text, text_eq}
use appx.Text.Equality.{text_eq→eq}
use appx.Runtime.Spec.{
  ContainerSpec, ContainerStatus, drift_reasons, published, port_key, port_drift, image_differs,
}

-- The container runs the image of the specification, and publishes its three ports.
pub record IsAsSpecified (s : ContainerSpec) (st : ContainerStatus) : Type 0 where
  pub image : st.image ≡ s.image
  pub api_port : published (port_key s.api_port) st.published_ports ≡ true
  pub app_port_start : published (port_key s.app_port_start) st.published_ports ≡ true
  pub app_port_end : published (port_key s.app_port_end) st.published_ports ≡ true

append-nil_both {ℓ} : {A : Type ℓ} (xs ys : List A) → xs ++ ys ≡ [] → (xs ≡ []) × (ys ≡ [])
append-nil_both [] ys h = (refl, h)
append-nil_both (x ∷ xs) ys h = cc

port_drift-nil :
    (ports : List Text) (p : ℕ) → port_drift ports p ≡ [] → published (port_key p) ports ≡ true
port_drift-nil ports p h = elim (Bool-cases (published (port_key p) ports)) [
  | inl there ↦ there
  | inr missing ↦ absurd (let e = sym (not_taken _ _ _ missing) ∙ h in cc)
]

image-same : (a b : Text) → (if text_eq a b then [] else image_differs a b ∷ []) ≡ [] → a ≡ b
image-same a b h = elim (Bool-cases (text_eq a b)) [
  | inl same ↦ text_eq→eq a b same
  | inr differs ↦ absurd (let e = sym (not_taken _ _ _ differs) ∙ h in cc)
]

pub drift_reasons-nil :
    (s : ContainerSpec) (st : ContainerStatus) → drift_reasons s st ≡ [] → IsAsSpecified s st
unfolding drift_reasons
drift_reasons-nil s st h =
    let (h₃, end) = append-nil_both _ (port_drift st.published_ports s.app_port_end) h in
    let (h₂, start) = append-nil_both _ (port_drift st.published_ports s.app_port_start) h₃ in
    let (same, api) = append-nil_both _ (port_drift st.published_ports s.api_port) h₂ in
    record {
      image = image-same st.image s.image same;
      api_port = port_drift-nil st.published_ports s.api_port api;
      app_port_start = port_drift-nil st.published_ports s.app_port_start start;
      app_port_end = port_drift-nil st.published_ports s.app_port_end end;
    }
