-- ===== src/Runtime/Config/Token.antt =====
-- The token of LoadOrCreateToken in internal/containerruntime/config.go outlives a restart.
use appx.Base.{
  ℕ, ◌≡◌, refl, sym, ap, ◌∙◌, true, false, not, Bool, Option, some, List, [], ◌∷◌, ◌++◌, subst,
  taken, not_taken, inl, inr, Bool-cases,
}
use appx.Text.{Text}
use appx.Auth.Sessions.{hex_encode}
use appx.Runtime.Spec.{is_empty}
use appx.Runtime.Config.{TokenFile, missing, unreadable, holds, load_or_create_token, new_token}

load_holds :
    (trim_space : Text → Text) (write_ok : Bool) (random : Option (List ℕ)) (content tok : Text)
    → trim_space content ≡ tok
    → is_empty tok ≡ false
    → load_or_create_token trim_space write_ok random (holds content) ≡ (some tok, holds content)
unfolding load_or_create_token
load_holds trim_space write_ok random content tok e full =
    rw e (taken (not (is_empty tok)) _ _ (ap not full))

module _ (trim_space : Text → Text)
    (trims : (bytes : List ℕ) → trim_space (hex_encode bytes ++ (10 ∷ [])) ≡ hex_encode bytes) where
  -- A new token is read back.
  new_token-load :
      (write_ok again : Bool) (b : ℕ) (bs : List ℕ) (random : Option (List ℕ))
      (file file' : TokenFile) (tok : Text)
      → new_token write_ok (some (b ∷ bs)) file ≡ (some tok, file')
      → load_or_create_token trim_space again random file' ≡ (some tok, file')
  unfolding hex_encode
  new_token-load false again b bs random file file' tok h = cc
  new_token-load true again b bs random file file' tok h =
      let same : hex_encode (b ∷ bs) ≡ tok = cc in
      let kept : holds (hex_encode (b ∷ bs) ++ (10 ∷ [])) ≡ file' = cc in
      subst (λ f. load_or_create_token trim_space again random f ≡ (some tok, f)) kept
        (load_holds trim_space again random _ (hex_encode (b ∷ bs)) (trims (b ∷ bs)) refl
          ∙ ap (λ x. (some x, holds (hex_encode (b ∷ bs) ++ (10 ∷ [])))) same)

  -- If TrimSpace takes the line end off a token in hexadecimal: a token that LoadOrCreateToken gives,
  -- from any file and any random bytes, is given by every later call on the file that it leaves, and
  -- the file stays as it is.
  pub load_or_create_token-load_or_create_token :
      (write_ok again : Bool) (b : ℕ) (bs : List ℕ) (random : Option (List ℕ))
      (file file' : TokenFile) (tok : Text)
      → load_or_create_token trim_space write_ok (some (b ∷ bs)) file ≡ (some tok, file')
      → load_or_create_token trim_space again random file' ≡ (some tok, file')
  unfolding load_or_create_token
  load_or_create_token-load_or_create_token write_ok again b bs random unreadable file' tok h = cc
  load_or_create_token-load_or_create_token write_ok again b bs random missing file' tok h =
      new_token-load write_ok again b bs random missing file' tok h
  load_or_create_token-load_or_create_token write_ok again b bs random (holds content) file' tok h =
      elim (Bool-cases (is_empty (trim_space content))) [
        | inl empty ↦
            new_token-load write_ok again b bs random (holds content) file' tok
              (sym (not_taken (not (is_empty (trim_space content))) _ _ (ap not empty)) ∙ h)
        | inr full ↦
            (let e : ◌≡◌ {A = Option Text × TokenFile} (some (trim_space content), holds content)
                  (some tok, file') =
                sym (taken (not (is_empty (trim_space content))) _ _ (ap not full)) ∙ h in
              let same : trim_space content ≡ tok = cc in
              let kept : holds content ≡ file' = cc in
              subst (λ f. load_or_create_token trim_space again random f ≡ (some tok, f)) kept
                (load_holds trim_space again random content (trim_space content) refl full
                  ∙ ap (λ x. (some x, holds content)) same))
      ]
