-- ===== src/App/Provider.antt =====
-- The selection of the realtime provider and the settings of its profile, of
-- liveclaw-app/src/main.rs. The environment is a parameter: its variables, and `str::to_lowercase`, which
-- follows the tables of Unicode. An error and a warning are their reasons with the texts that they
-- quote.
pub mod Validation
pub mod Safe
use Prim.Native.String
use liveclaw.Prelude.{
  ◌||◌, ◌&&◌, not, Bool, true, false, Option, none, some, List, [], ◌∷◌, ◌++◌, String, str_eq,
  Result, ok, err, if◌then◌else◌, unwrap_or,
}
use liveclaw.Text.{trim, is_empty, has_prefix, show}
use liveclaw.Prelude.Lists.{length}
use liveclaw.App.Config.{
  VoiceConfig, ProviderProfileConfig, ProvidersConfig, RuntimeKind, native, docker, LiveClawConfig,
}

pub record Environment : Type 0 where
  pub to_lowercase : String → String
  pub var : String → Option String

pub data ProviderKind : Type 0 where
  open_ai : ProviderKind
  open_ai_compatible : ProviderKind

pub record ProviderSelection : Type 0 where
  pub kind : ProviderKind
  pub profile_name : String
  pub provider_label : String
  pub api_key : String
  pub default_model : String
  pub base_url : Option String

pub data ConfigError : Type 0 where
  unsupported_provider : String → ConfigError
  unsupported_profile : String → ConfigError
  no_api_key : (profile_name : String) → ConfigError
  no_model : (profile_name : String) → ConfigError
  invalid_base_url : (profile_name base_url : String) → ConfigError
  missing_base_url : (profile_name : String) → ConfigError
  missing_docker_image : ConfigError
  public_bind_refused : (host : String) → ConfigError

pub data Warning : Type 0 where
  api_key_unresolved : (profile_name : String) → Warning
  public_bind_enabled : (host : String) → Warning

unfoldable pub non_empty : Option String → Option String
non_empty none = none
non_empty (some v) = if is_empty (trim v) then none else some (trim v)

abbrev pub or_else : Option String → Option String → Option String
or_else none other = other
or_else (some a) other = some a

abbrev pub default_model : String
default_model = "gpt-4o-realtime-preview-2024-12-17"

-- The prefix of the text without the spaces around it.
abbrev pub is_ws_url : String → Bool
is_ws_url base_url = has_prefix (trim base_url) "ws://" || has_prefix (trim base_url) "wss://"

unfoldable pub validate_ws_base_url :
    (base_url profile_name : String) → Result (Unit {0}) ConfigError
validate_ws_base_url base_url profile_name =
    if not (is_ws_url base_url) then err (invalid_base_url profile_name base_url) else ok tt

unfoldable pub resolve_profile_model : ProviderProfileConfig → VoiceConfig → String
unfolding non_empty
resolve_profile_model profile voice =
    unwrap_or (or_else (non_empty (some profile.model)) (non_empty (some voice.model)))
      default_model

unfoldable pub resolve_profile_base_url : ProviderProfileConfig → VoiceConfig → Option String
unfolding non_empty
resolve_profile_base_url profile voice =
    or_else (non_empty profile.base_url) (non_empty voice.base_url)

module _ (env : Environment) where
  abbrev openai_api_key : Option String → String
  openai_api_key none = ""
  openai_api_key (some val) = trim val

  -- The variable LIVECLAW_API_KEY unless it is blank, then OPENAI_API_KEY.
  unfoldable pub environment_api_key : Option String → Option String → String
  environment_api_key none openai = openai_api_key openai
  environment_api_key (some val) openai =
      if is_empty (trim val) then openai_api_key openai else trim val

  unfoldable pub effective_api_key : String → String
  unfolding environment_api_key
  effective_api_key configured =
      if is_empty (trim configured)
      then environment_api_key (env.var "LIVECLAW_API_KEY") (env.var "OPENAI_API_KEY")
      else trim configured

  unfoldable pub resolve_profile_api_key : ProviderProfileConfig → VoiceConfig → String
  unfolding non_empty effective_api_key
  resolve_profile_api_key profile voice =
      unwrap_or (non_empty (some profile.api_key)) (effective_api_key voice.api_key)

  -- The kind of the legacy profile's provider.
  unfoldable pub legacy_kind : String → Result ProviderKind ConfigError
  legacy_kind provider_value =
      if str_eq provider_value "openai"
      then ok open_ai
      else if str_eq provider_value "openai_compatible" || str_eq provider_value "openai-compatible"
      then ok open_ai_compatible
      else err (unsupported_provider provider_value)

  abbrev pub profile_selection :
      ProviderKind → String → ProviderProfileConfig → VoiceConfig → ProviderSelection
  profile_selection kind name profile voice = record {
    kind = kind;
    profile_name = name;
    provider_label = name;
    api_key = resolve_profile_api_key profile voice;
    default_model = resolve_profile_model profile voice;
    base_url = resolve_profile_base_url profile voice;
  }

  abbrev pub legacy_selection :
      VoiceConfig → String → Result ProviderKind ConfigError → Result ProviderSelection ConfigError
  legacy_selection voice provider_value (err e) = err e
  legacy_selection voice provider_value (ok kind) = ok (record {
    kind = kind;
    profile_name = "legacy";
    provider_label = provider_value;
    api_key = effective_api_key voice.api_key;
    default_model = unwrap_or (non_empty (some voice.model)) default_model;
    base_url = non_empty voice.base_url;
  })

  unfoldable pub resolve_provider_selection :
      VoiceConfig → ProvidersConfig → Result ProviderSelection ConfigError
  unfolding legacy_kind
  resolve_provider_selection voice providers =
      let profile =
        env.to_lowercase (unwrap_or (non_empty (some providers.active_profile)) "legacy") in
      let provider_value =
        env.to_lowercase (unwrap_or (non_empty (some voice.provider)) "openai") in
      if str_eq profile "legacy"
      then legacy_selection voice provider_value (legacy_kind provider_value)
      else if str_eq profile "openai"
      then ok (profile_selection open_ai "openai" providers.openai voice)
      else if str_eq profile "openai_compatible"
      then ok (
          profile_selection open_ai_compatible "openai_compatible" providers.openai_compatible
            voice)
      else err (unsupported_profile profile)
