-- ===== src/App/Provider/Validation.antt =====
-- `validate_runtime_and_provider` of liveclaw-app/src/main.rs, and the report that it makes.
use Prim.Native.String
use liveclaw.Prelude.{
  ◌||◌, ◌&&◌, not, Bool, true, false, Option, none, some, List, [], ◌∷◌, ◌++◌, String, str_eq,
  Result, ok, err, if◌then◌else◌,
}
use liveclaw.Text.{trim, is_empty, show}
use liveclaw.Prelude.Lists.{length}
use liveclaw.App.Config.{RuntimeKind, native, docker, LiveClawConfig}
use liveclaw.App.Provider.{
  Environment, ProviderKind, ProviderSelection, ConfigError, Warning, validate_ws_base_url,
  resolve_provider_selection, open_ai, open_ai_compatible, no_api_key, no_model, missing_base_url,
  missing_docker_image, public_bind_refused, api_key_unresolved, public_bind_enabled,
}

infixl 5 ◌>>=◌ ◌>>◌
unfoldable pub ◌>>=◌ :
    {A B : Type 0} → Result A ConfigError → (A → Result B ConfigError) → Result B ConfigError
ok a >>= f = f a
err e >>= f = err e

unfoldable pub ◌>>◌ :
    {B : Type 0} → Result (Unit {0}) ConfigError → Result B ConfigError → Result B ConfigError
ok _ >> k = k
err e >> k = err e

-- `if b { bail!(e) }`
unfoldable pub bail_if : Bool → ConfigError → Result (Unit {0}) ConfigError
bail_if true e = err e
bail_if false e = ok tt

abbrev pub is_public : String → Bool
is_public host = str_eq (trim host) "0.0.0.0" || str_eq (trim host) "::"

abbrev pub is_docker : RuntimeKind → Bool
is_docker native = false
is_docker docker = true

abbrev pub lacks_base_url : ProviderSelection → Bool
lacks_base_url provider = elim provider.kind [
  | open_ai ↦ false
  | open_ai_compatible ↦ elim provider.base_url [ none ↦ true | some url ↦ false ]
]

-- `if let Some(base_url) = &provider.base_url { validate_ws_base_url(..)?; }`
unfoldable pub check_base_url :
    Option String → (profile_name : String) → Result (Unit {0}) ConfigError
unfolding validate_ws_base_url
check_base_url none profile_name = ok tt
check_base_url (some url) profile_name = validate_ws_base_url url profile_name

-- `format!`, of a text in pieces.
abbrev pub concat : List String → String
concat [] = ""
concat (piece ∷ pieces) = String.◌++◌ piece (concat pieces)

-- `join(",")`.
abbrev pub join_comma : List String → String
join_comma [] = ""
join_comma (s ∷ []) = s
join_comma (s ∷ t ∷ ts) = String.◌++◌ s (String.◌++◌ "," (join_comma (t ∷ ts)))

abbrev pub show_bool : Bool → String
show_bool true = "true"
show_bool false = "false"

abbrev pub provider_kind_label : ProviderKind → String
provider_kind_label open_ai = "openai"
provider_kind_label open_ai_compatible = "openai_compatible"

abbrev pub runtime_kind_label : RuntimeKind → String
runtime_kind_label native = "native"
runtime_kind_label docker = "docker"

pub record DoctorReport : Type 0 where
  pub notes : List String
  pub warnings : List Warning

unfoldable pub doctor_report : LiveClawConfig → ProviderSelection → DoctorReport
doctor_report config provider = record {
  notes =
      concat ("runtime.kind=" ∷ runtime_kind_label config.runtime.kind ∷ [])
      ∷ concat (
          "provider.profile="
          ∷ provider.profile_name
          ∷ " provider.kind="
          ∷ provider_kind_label provider.kind
          ∷ [])
      ∷ concat ("provider.model=" ∷ provider.default_model ∷ [])
      ∷ concat (
          "security.workspace_root="
          ∷ config.security.workspace_root
          ∷ " security.forbidden_tool_paths="
          ∷ join_comma config.security.forbidden_tool_paths
          ∷ [])
      ∷ concat (
          "security.principal_allowlist_size="
          ∷ show (length config.security.principal_allowlist)
          ∷ " deny_by_default="
          ∷ show_bool config.security.deny_by_default_principal_allowlist
          ∷ [])
      ∷ (if is_docker config.runtime.kind
          then concat ("runtime.docker_image=" ∷ config.runtime.docker_image ∷ []) ∷ []
          else []);
  warnings =
      (if is_empty (trim provider.api_key)
        then api_key_unresolved provider.profile_name ∷ []
        else [])
      ++ (if is_public config.gateway.host
          then public_bind_enabled config.gateway.host ∷ []
          else []);
}

module _ (env : Environment) where
  unfoldable pub validate_runtime_and_provider :
      LiveClawConfig
      → (require_api_key : Bool) → Result (ProviderSelection × DoctorReport) ConfigError
  unfolding resolve_provider_selection check_base_url doctor_report
  validate_runtime_and_provider config require_api_key = do
    provider ← resolve_provider_selection env config.voice config.providers
    bail_if (is_empty (trim provider.api_key) && require_api_key) (no_api_key provider.profile_name)
    bail_if (is_empty (trim provider.default_model)) (no_model provider.profile_name)
    check_base_url provider.base_url provider.profile_name
    bail_if (lacks_base_url provider) (missing_base_url provider.profile_name)
    bail_if (is_docker config.runtime.kind && is_empty (trim config.runtime.docker_image))
        missing_docker_image
    bail_if (is_public config.gateway.host && not config.security.allow_public_bind)
        (public_bind_refused config.gateway.host)
    ok (provider, doctor_report config provider)
