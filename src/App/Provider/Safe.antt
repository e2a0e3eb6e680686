-- ===== src/App/Provider/Safe.antt =====
-- What `validate_runtime_and_provider` of liveclaw-app/src/main.rs lets through.
use Prim.Native.String
use liveclaw.Prelude.{
  ◌&&◌, not, Bool, true, false, Option, none, some, String, Result, ok, err, ◌≡◌, ◌↔◌, ◌⊎◌, inl,
  inr, refl, sym, subst, ◌∙◌, arith, if◌then◌else◌, str_eq, eq_iff, Bool-cases, Option-cases,
}
use liveclaw.Text.{trim, is_empty, has_prefix}
use liveclaw.Text.Occurrence.{has_prefix-append, rest_of_prefix}
use liveclaw.App.Config.{RuntimeKind, native, docker, LiveClawConfig}
use liveclaw.App.Provider.{
  Environment, ProviderKind, open_ai, open_ai_compatible, ProviderSelection, ConfigError,
  invalid_base_url, is_ws_url, validate_ws_base_url, resolve_provider_selection,
}
use liveclaw.App.Provider.Validation.{
  DoctorReport, ◌>>=◌, ◌>>◌, bail_if, is_public, is_docker, lacks_base_url, check_base_url,
  doctor_report, validate_runtime_and_provider,
}

-- An error, or a result that satisfies a predicate.
abbrev pub Passes : {A : Type 0} → (A → Type 0) → Result A ConfigError → Type 0
Passes P (ok a) = P a
Passes P (err e) = Unit {0}

bind-Passes :
    {A B : Type 0} (P : B → Type 0) (r : Result A ConfigError) (f : A → Result B ConfigError)
    → ((a : A) → r ≡ ok a → Passes P (f a))
    → Passes P (r >>= f)
unfolding ◌>>=◌
bind-Passes P (ok a) f h = h a refl
bind-Passes P (err e) f h = tt

bail_if-Passes :
    {B : Type 0} (P : B → Type 0) (b : Bool) (e : ConfigError) (r : Result B ConfigError)
    → (b ≡ false → Passes P r)
    → Passes P (bail_if b e >> r)
unfolding ◌>>◌ bail_if
bail_if-Passes P true e r h = tt
bail_if-Passes P false e r h = h refl

-- A base URL, if there is one, passes the test of the code.
abbrev PassesTest : Option String → Type 0
PassesTest none = Unit {0}
PassesTest (some url) = is_ws_url url ≡ true

check_base_url-Passes :
    {B : Type 0} (P : B → Type 0) (base_url : Option String) (name : String)
    (r : Result B ConfigError)
    → (PassesTest base_url → Passes P r)
    → Passes P (check_base_url base_url name >> r)
unfolding check_base_url validate_ws_base_url ◌>>◌
check_base_url-Passes P none name r h = h tt
check_base_url-Passes P (some url) name r h = valid (is_ws_url url) h
  where
    valid :
        (b : Bool)
        → (b ≡ true → Passes P r)
        → Passes P ((if not b then err (invalid_base_url name url) else ok tt) >> r)
    valid true k = k refl
    valid false k = tt

bail_if-skips :
    {B : Type 0} (b : Bool) (e : ConfigError) (r : Result B ConfigError)
    → b ≡ false
    → (bail_if b e >> r) ≡ r
unfolding ◌>>◌ bail_if
bail_if-skips true e r h = cc
bail_if-skips false e r h = refl

check_base_url-skips :
    {B : Type 0} (base_url : Option String) (name : String) (r : Result B ConfigError)
    → PassesTest base_url
    → (check_base_url base_url name >> r) ≡ r
unfolding check_base_url validate_ws_base_url ◌>>◌
check_base_url-skips none name r h = refl
check_base_url-skips (some url) name r h = rw h refl

-- A text begins with another.
abbrev pub BeginsWith : (s start : String) → Type 0
BeginsWith s start = (rest : String) × (s ≡ String.◌++◌ start rest)

-- A base URL, if there is one, has the scheme of a WebSocket.
abbrev pub IsWsUrl : Option String → Type 0
IsWsUrl none = Unit {0}
IsWsUrl (some url) = BeginsWith (trim url) "ws://" ⊎ BeginsWith (trim url) "wss://"

-- What makes a configuration with its provider safe, in terms of its texts.
pub record Safe (config : LiveClawConfig) (require_api_key : Bool) (provider : ProviderSelection)
    : Type 0 where
  pub has_api_key : require_api_key ≡ true → is_empty (trim provider.api_key) ≡ false
  pub has_model : is_empty (trim provider.default_model) ≡ false
  pub has_ws_url : IsWsUrl provider.base_url
  pub has_base_url :
      provider.kind ≡ open_ai_compatible → (url : String) × (provider.base_url ≡ some url)
  pub has_image : config.runtime.kind ≡ docker → is_empty (trim config.runtime.docker_image) ≡ false
  pub has_leave :
      (trim config.gateway.host ≡ "0.0.0.0") ⊎ (trim config.gateway.host ≡ "::")
      → config.security.allow_public_bind ≡ true

tested_url : (base_url : Option String) → PassesTest base_url → IsWsUrl base_url
tested_url none h = tt
tested_url (some url) h = elim (Bool-cases (has_prefix (trim url) "ws://")) [
  | inl ws ↦ inl (rest_of_prefix (trim url) "ws://" ws)
  | inr other ↦ inr (rest_of_prefix (trim url) "wss://" (ground (arith, h, other)))
]

url_passes : (base_url : Option String) → IsWsUrl base_url → PassesTest base_url
url_passes none h = tt
url_passes (some url) (inl (rest, e)) =
    let ws : has_prefix (trim url) "ws://" ≡ true =
      subst (λ x. has_prefix x "ws://" ≡ true) (sym e) (has_prefix-append "ws://" rest) in
    rw ws refl
url_passes (some url) (inr (rest, e)) =
    let wss : has_prefix (trim url) "wss://" ≡ true =
      subst (λ x. has_prefix x "wss://" ≡ true) (sym e) (has_prefix-append "wss://" rest) in
    ground (arith, wss)

url_if_compatible :
    (provider : ProviderSelection)
    → lacks_base_url provider ≡ false
    → provider.kind ≡ open_ai_compatible
    → (url : String) × (provider.base_url ≡ some url)
url_if_compatible provider h k = elim (Option-cases provider.base_url) [
  | inr found ↦ found
  | inl e ↦ absurd (ground (arith, h, k, e))
]

compatible_has_url :
    (kind : ProviderKind) (base_url : Option String)
    → (kind ≡ open_ai_compatible → (url : String) × (base_url ≡ some url))
    → elim kind as (λ _. Bool) [
      | open_ai ↦ false
      | open_ai_compatible ↦ elim base_url [ none ↦ true | some url ↦ false ]
    ]
      ≡ false
compatible_has_url open_ai base_url h = refl
compatible_has_url open_ai_compatible (some url) h = refl
compatible_has_url open_ai_compatible none h = let (url, e) = h refl in cc

either_false : (a b : Bool) → (b ≡ true → a ≡ false) → a && b ≡ false
either_false true true h = h refl
either_false true false h = refl
either_false false b h = refl

image_or_native :
    (kind : RuntimeKind) (b : Bool) → (kind ≡ docker → b ≡ false) → is_docker kind && b ≡ false
image_or_native docker b h = h refl
image_or_native native b h = refl

leave_if_public :
    (host : String) (allowed : Bool)
    → is_public host && not allowed ≡ false
    → (trim host ≡ "0.0.0.0") ⊎ (trim host ≡ "::")
    → allowed ≡ true
leave_if_public host allowed h (inl e) = ground (arith, h, (eq_iff (trim host) "0.0.0.0").1 e)
leave_if_public host allowed h (inr e) = ground (arith, h, (eq_iff (trim host) "::").1 e)

public_has_leave :
    (host : String) (allowed : Bool)
    → ((trim host ≡ "0.0.0.0") ⊎ (trim host ≡ "::") → allowed ≡ true)
    → is_public host && not allowed ≡ false
public_has_leave host allowed h = elim (Bool-cases (str_eq (trim host) "0.0.0.0")) [
  | inl v4 ↦ rw (v4, h (inl ((eq_iff (trim host) "0.0.0.0").0 v4))) refl
  | inr other ↦ elim (Bool-cases (str_eq (trim host) "::")) [
    | inl v6 ↦ rw (other, v6, h (inr ((eq_iff (trim host) "::").0 v6))) refl
    | inr local ↦ rw (other, local) refl
  ]
]

module _ (env : Environment) (config : LiveClawConfig) (require_api_key : Bool) where
  abbrev Accepted : ProviderSelection × DoctorReport → Type 0
  Accepted (provider, report) =
      (resolve_provider_selection env config.voice config.providers ≡ ok provider)
      × Safe config require_api_key provider

  validate_runtime_and_provider-Accepted :
      Passes Accepted (validate_runtime_and_provider env config require_api_key)
  unfolding validate_runtime_and_provider
  validate_runtime_and_provider-Accepted = bind-Passes Accepted _ _ λ provider e.
      bail_if-Passes Accepted _ _ _ λ key. bail_if-Passes Accepted _ _ _ λ model.
        check_base_url-Passes Accepted _ _ _ λ ws. bail_if-Passes Accepted _ _ _ λ url.
          bail_if-Passes Accepted _ _ _ λ image. bail_if-Passes Accepted _ _ _ λ leave. (
            e,
            record {
              has_api_key = λ required. ground (arith, key, required);
              has_model = model;
              has_ws_url = tested_url provider.base_url ws;
              has_base_url = url_if_compatible provider url;
              has_image = λ in_docker. ground (arith, image, in_docker);
              has_leave =
                  leave_if_public config.gateway.host config.security.allow_public_bind leave;
            },
          )

  accepted :
      (provider : ProviderSelection)
      → resolve_provider_selection env config.voice config.providers ≡ ok provider
      → Safe config require_api_key provider
      → validate_runtime_and_provider env config require_api_key
        ≡ ok (provider, doctor_report config provider)
  unfolding validate_runtime_and_provider ◌>>=◌
  accepted provider e safe = rw e (
      bail_if-skips _ _ _ (either_false _ _ safe.has_api_key)
      ∙ bail_if-skips _ _ _ safe.has_model
      ∙ check_base_url-skips _ _ _ (url_passes provider.base_url safe.has_ws_url)
      ∙ bail_if-skips _ _ _ (compatible_has_url provider.kind provider.base_url safe.has_base_url)
      ∙ bail_if-skips _ _ _ (image_or_native config.runtime.kind _ safe.has_image)
      ∙ bail_if-skips _ _ _ (public_has_leave config.gateway.host _ safe.has_leave))

  -- The validation accepts a configuration with a provider if and only if the configuration
  -- resolves to that provider and is safe with it: the model is not blank; a base URL begins with
  -- `ws://` or `wss://`, and an OpenAI-compatible provider has one; the API key is not blank if one
  -- is required; the image is not blank for Docker; and the host is `0.0.0.0` or `::` only with
  -- leave.
  pub validate_runtime_and_provider-Safe_iff :
      (provider : ProviderSelection)
      → ((report : DoctorReport) × (validate_runtime_and_provider env config require_api_key
            ≡ ok (provider, report)))
        ↔ ((resolve_provider_selection env config.voice config.providers ≡ ok provider)
            × Safe config require_api_key provider)
  validate_runtime_and_provider-Safe_iff provider = (
    λ (report, e). subst (Passes Accepted) e validate_runtime_and_provider-Accepted,
    λ (e, safe). (doctor_report config provider, accepted provider e safe),
  )
