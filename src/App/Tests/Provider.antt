-- ===== src/App/Tests/Provider.antt =====
-- A configuration of the service in a container, with an OpenAI-compatible provider.
use liveclaw.Prelude.{true, false, some, none, [], ◌≡◌, ◌↔◌, refl, ok}
use liveclaw.Text.{trim, to_ascii_lowercase, has_prefix}
use liveclaw.App.Config.{LiveClawConfig, ProviderProfileConfig, pcm16_24khz, docker}
use liveclaw.App.Provider.{
  Environment, ProviderSelection, open_ai_compatible, resolve_provider_selection, non_empty,
  resolve_profile_api_key, resolve_profile_model, resolve_profile_base_url,
}
use liveclaw.App.Provider.Validation.{DoctorReport, validate_runtime_and_provider}
use liveclaw.App.Provider.Safe.{Safe, validate_runtime_and_provider-Safe_iff}

abbrev ascii : Environment
ascii = record { to_lowercase = to_ascii_lowercase; var = λ name. some " key " }

abbrev blank : ProviderProfileConfig
blank = record { enabled = false; api_key = ""; model = ""; base_url = none }

abbrev local : LiveClawConfig
local = record {
  gateway = record { host = "127.0.0.1"; port = 8420; require_pairing = true };
  voice = record {
    provider = "openai";
    api_key = "";
    model = "gpt-realtime";
    base_url = none;
    voice = none;
    instructions = none;
    audio_format = pcm16_24khz;
  };
  security = record {
    default_role = "supervised";
    tool_allowlist = [];
    rate_limit_per_session = 100;
    audit_log_path = "audit.jsonl";
    workspace_root = ".";
    forbidden_tool_paths = [];
    principal_allowlist = [];
    deny_by_default_principal_allowlist = false;
    allow_public_bind = false;
  };
  runtime = record { kind = docker; docker_image = "liveclaw" };
  providers = record {
    active_profile = " OpenAI_Compatible ";
    openai = blank;
    openai_compatible = record blank { base_url = some "wss://localhost/v1" };
  };
  resilience = record {
    enable_reconnect = true;
    max_reconnect_attempts = 5;
    initial_backoff_ms = 250;
    max_backoff_ms = 5000;
  };
}

abbrev selected : ProviderSelection
selected = record {
  kind = open_ai_compatible;
  profile_name = "openai_compatible";
  provider_label = "openai_compatible";
  api_key = "key";
  default_model = "gpt-realtime";
  base_url = some "wss://localhost/v1";
}

validate_runtime_and_provider-Safe_iff_example :
    ((report : DoctorReport) × (validate_runtime_and_provider ascii local true
        ≡ ok (selected, report)))
    ↔ ((resolve_provider_selection ascii local.voice local.providers ≡ ok selected)
        × Safe local true selected)
validate_runtime_and_provider-Safe_iff_example =
    validate_runtime_and_provider-Safe_iff ascii local true selected

selected-resolved : resolve_provider_selection ascii local.voice local.providers ≡ ok selected
unfolding resolve_provider_selection trim to_ascii_lowercase has_prefix non_empty
    resolve_profile_api_key resolve_profile_model resolve_profile_base_url
selected-resolved = refl
