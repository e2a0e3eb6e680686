-- ===== src/App/Cli/RoundTrip/Onboard.antt =====
-- The printed options of `onboard`, parsed by `parse_onboard_args` of liveclaw-app/src/main.rs.
use liveclaw.Prelude.{
  ℕ, ◌^◌, ◌<◌, Bool, true, false, Option, none, some, List, [], ◌∷◌, ◌++◌, String, ◌≡◌, refl, sym,
  ap, ◌∙◌, Result, ok, err,
}
use liveclaw.Text.{show, trim, to_ascii_lowercase}
use liveclaw.Text.Decimal.{parse_unsigned-show}
use liveclaw.App.Cli.{
  OnboardOptions, onboard, CliError, Round, with_parsed, invalid_number, option_loop,
  default_options, parse_bool_flag,
}
use liveclaw.App.Cli.Options.{onboard_round, parse_port}
use liveclaw.App.Cli.Print.{
  Valid, PortFits, print_switch, print_value, print_port, print_pairing, print_options,
}

-- A round that takes a value, and one whose value is parsed.
pub value_round :
    {A : Type 0} (round : String → Option String → A → Round A) (flag value : String)
    (args : List String) (a a' : A)
    → round flag (some value) a ≡ ok (a', true)
    → option_loop round false (flag ∷ value ∷ args) a ≡ option_loop round false args a'
unfolding option_loop
value_round {A} round flag value args a a' e =
    ap
      (λ r. elim r as (λ _. Result A CliError) [
        | ok (x, skip) ↦ option_loop round skip (value ∷ args) x
        | err reason ↦ err reason
      ])
      e

pub with_parsed-ok :
    {A B : Type 0} (flag value : String) (parse : String → Result B CliError) (set : B → A) (b : B)
    → parse value ≡ ok b
    → with_parsed flag (some value) parse set ≡ ok (set b, true)
with_parsed-ok {A} flag value parse set b e =
    ap (λ r. elim r as (λ _. Round A) [ ok x ↦ ok (set x, true) | err reason ↦ err reason ]) e

-- The loop over some options, and what it makes of the state before them.
abbrev Sets : List String → OnboardOptions → OnboardOptions → Type 0
Sets words o o' =
    (rest : List String) (config_set : Bool)
    → option_loop onboard_round false (words ++ rest) (o, config_set)
      ≡ option_loop onboard_round false rest (o', config_set)

not_true : (b : Bool) → (b ≡ true → false ≡ true) → b ≡ false
not_true true h = sym (h refl)
not_true false h = refl

kept : (o o' : OnboardOptions) → o ≡ o' → Sets [] o o'
kept o o' e rest config_set = ap (λ x. option_loop onboard_round false rest (x, config_set)) e

Sets-force :
    (b : Bool) (o : OnboardOptions)
    → o.force ≡ false
    → Sets (print_switch "--force" b) o (record o { force = b })
unfolding option_loop onboard_round
Sets-force true o h rest c = refl
Sets-force false o h rest c = kept o _ (ap (λ x. record o { force = x }) h) rest c

Sets-non_interactive :
    (b : Bool) (o : OnboardOptions)
    → o.non_interactive ≡ false
    → Sets (print_switch "--non-interactive" b) o (record o { non_interactive = b })
unfolding option_loop onboard_round
Sets-non_interactive true o h rest c = refl
Sets-non_interactive false o h rest c =
    kept o _ (ap (λ x. record o { non_interactive = x }) h) rest c

Sets-start_service :
    (b : Bool) (o : OnboardOptions)
    → o.start_service ≡ false
    → o.install_service ≡ false
    → Sets
        (print_switch "--start-service" b)
        o
        (record o { start_service = b; install_service = b })
unfolding option_loop onboard_round
Sets-start_service true o h k rest c = refl
Sets-start_service false o h k rest c =
    kept o _ (λ i. record o { start_service = h i; install_service = k i }) rest c

Sets-install_service :
    (b : Bool) (o : OnboardOptions)
    → (o.install_service ≡ true → b ≡ true)
    → Sets (print_switch "--install-service" b) o (record o { install_service = b })
unfolding option_loop onboard_round
Sets-install_service true o h rest c = refl
Sets-install_service false o h rest c =
    kept o _ (ap (λ x. record o { install_service = x }) (not_true o.install_service h)) rest c

Sets-api_key :
    (v : Option String) (o : OnboardOptions)
    → o.api_key ≡ none
    → Sets (print_value "--api-key" v) o (record o { api_key = v })
unfolding option_loop onboard_round
Sets-api_key (some v) o h rest c = refl
Sets-api_key none o h rest c = kept o _ (ap (λ x. record o { api_key = x }) h) rest c

Sets-model :
    (v : Option String) (o : OnboardOptions)
    → o.model ≡ none
    → Sets (print_value "--model" v) o (record o { model = v })
unfolding option_loop onboard_round
Sets-model (some v) o h rest c = refl
Sets-model none o h rest c = kept o _ (ap (λ x. record o { model = x }) h) rest c

Sets-provider_profile :
    (v : Option String) (o : OnboardOptions)
    → o.provider_profile ≡ none
    → Sets (print_value "--provider-profile" v) o (record o { provider_profile = v })
unfolding option_loop onboard_round
Sets-provider_profile (some v) o h rest c = refl
Sets-provider_profile none o h rest c =
    kept o _ (ap (λ x. record o { provider_profile = x }) h) rest c

Sets-base_url :
    (v : Option String) (o : OnboardOptions)
    → o.base_url ≡ none
    → Sets (print_value "--base-url" v) o (record o { base_url = v })
unfolding option_loop onboard_round
Sets-base_url (some v) o h rest c = refl
Sets-base_url none o h rest c = kept o _ (ap (λ x. record o { base_url = x }) h) rest c

Sets-gateway_host :
    (v : Option String) (o : OnboardOptions)
    → o.gateway_host ≡ none
    → Sets (print_value "--gateway-host" v) o (record o { gateway_host = v })
unfolding option_loop onboard_round
Sets-gateway_host (some v) o h rest c = refl
Sets-gateway_host none o h rest c = kept o _ (ap (λ x. record o { gateway_host = x }) h) rest c

parse_port-show : (port : ℕ) → port < 2 ^ 16 → parse_port (show port) ≡ ok port
unfolding parse_port
parse_port-show port h =
    ap
      (λ r. elim r as (λ _. Result ℕ CliError) [
        | none ↦ err (invalid_number "--gateway-port" (show port))
        | some n ↦ ok n
      ])
      (parse_unsigned-show (2 ^ 16) port h)

Sets-gateway_port :
    (v : Option ℕ) (o : OnboardOptions)
    → PortFits v
    → o.gateway_port ≡ none
    → Sets (print_port v) o (record o { gateway_port = v })
unfolding option_loop onboard_round
Sets-gateway_port (some port) o fits h rest c =
    value_round onboard_round "--gateway-port" (show port) rest (o, c) _
      (with_parsed-ok "--gateway-port" (show port) parse_port _ port (parse_port-show port fits))
Sets-gateway_port none o fits h rest c = kept o _ (ap (λ x. record o { gateway_port = x }) h) rest c

Sets-require_pairing :
    (v : Option Bool) (o : OnboardOptions)
    → o.require_pairing ≡ none
    → Sets (print_pairing v) o (record o { require_pairing = v })
unfolding option_loop onboard_round parse_bool_flag trim to_ascii_lowercase
Sets-require_pairing (some true) o h rest c = refl
Sets-require_pairing (some false) o h rest c = refl
Sets-require_pairing none o h rest c =
    kept o _ (ap (λ x. record o { require_pairing = x }) h) rest c

pub onboard_options-print :
    (o : OnboardOptions)
    → Valid (onboard o)
    → option_loop onboard_round false (print_options o) (default_options, false) ≡ ok (o, true)
unfolding option_loop onboard_round print_options
onboard_options-print o (fits, started) =
    Sets-force o.force _ refl _ _
    ∙ Sets-non_interactive o.non_interactive _ refl _ _
    ∙ Sets-start_service o.start_service _ refl refl _ _
    ∙ Sets-install_service o.install_service _ started _ _
    ∙ Sets-api_key o.api_key _ refl _ _
    ∙ Sets-model o.model _ refl _ _
    ∙ Sets-provider_profile o.provider_profile _ refl _ _
    ∙ Sets-base_url o.base_url _ refl _ _
    ∙ Sets-gateway_host o.gateway_host _ refl _ _
    ∙ Sets-gateway_port o.gateway_port _ fits refl _ _
    ∙ Sets-require_pairing o.require_pairing _ refl _ _
