-- ===== src/App/Config.antt =====
-- The configuration of liveclaw-app/src/config.rs, as it is after the TOML file has been read.
use liveclaw.Prelude.{ℕ, Bool, Option, List, String}
use liveclaw.App.Reconnect.{ResilienceConfig}

pub data AudioFormat : Type 0 where
  pcm16_24khz : AudioFormat
  pcm16_16khz : AudioFormat

pub record GatewayConfig : Type 0 where
  pub host : String
  pub port : ℕ
  pub require_pairing : Bool

pub record VoiceConfig : Type 0 where
  pub provider : String
  pub api_key : String
  pub model : String
  pub base_url : Option String
  pub voice : Option String
  pub instructions : Option String
  pub audio_format : AudioFormat

pub record SecurityConfig : Type 0 where
  pub default_role : String
  pub tool_allowlist : List String
  pub rate_limit_per_session : ℕ
  pub audit_log_path : String
  pub workspace_root : String
  pub forbidden_tool_paths : List String
  pub principal_allowlist : List String
  pub deny_by_default_principal_allowlist : Bool
  pub allow_public_bind : Bool

pub data RuntimeKind : Type 0 where
  native : RuntimeKind
  docker : RuntimeKind

pub record RuntimeConfig : Type 0 where
  pub kind : RuntimeKind
  pub docker_image : String

pub record ProviderProfileConfig : Type 0 where
  pub enabled : Bool
  pub api_key : String
  pub model : String
  pub base_url : Option String

pub record ProvidersConfig : Type 0 where
  pub active_profile : String
  pub openai : ProviderProfileConfig
  pub openai_compatible : ProviderProfileConfig

-- The sections that `validate_runtime_and_provider` reads, and the one of the reconnection.
pub record LiveClawConfig : Type 0 where
  pub gateway : GatewayConfig
  pub voice : VoiceConfig
  pub security : SecurityConfig
  pub runtime : RuntimeConfig
  pub providers : ProvidersConfig
  pub resilience : ResilienceConfig
