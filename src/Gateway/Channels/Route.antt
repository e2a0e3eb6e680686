-- ===== src/Gateway/Channels/Route.antt =====
-- The route that a request to liveclaw-gateway/src/server.rs names, and the refusal of a request that
-- names none.
use liveclaw.Prelude.{
  Option, none, some, String, str_eq, eq_iff, ◌≡◌, ◌≢◌, ◌⊎◌, inl, inr, refl, sym, subst, arith,
  if◌then◌else◌, Bool-cases,
}
use liveclaw.Text.{trim, is_empty, to_ascii_lowercase}
use liveclaw.Gateway.State.{World, ChannelRouteKey}
use liveclaw.Gateway.Handler.Rules.{Ensures, Ensures-ok, or_stop_cases}
use liveclaw.Gateway.Channels.{
  route_key, normalize_channel, known_channel, normalize_channel_component,
}

-- The names of the channels.
abbrev pub IsChannel : String → Type 0
IsChannel name =
    (name ≡ "telegram")
    ⊎ ((name ≡ "slack")
        ⊎ ((name ≡ "webhook") ⊎ ((name ≡ "discord") ⊎ ((name ≡ "matrix") ⊎ (name ≡ "teams")))))

-- The key of the route that a request names: its texts, trimmed, and its channel in lower case.
pub record IsRouteOf (principal_id channel account_id external_user_id : String)
    (key : ChannelRouteKey) : Type 0 where
  pub of_principal : key.principal_id ≡ principal_id
  pub is_channel : IsChannel key.channel
  pub of_channel : key.channel ≡ to_ascii_lowercase (trim channel)
  pub of_account : key.account_id ≡ trim account_id
  pub has_account : key.account_id ≢ ""
  pub of_user : key.external_user_id ≡ trim external_user_id
  pub has_user : key.external_user_id ≢ ""

-- A request that names no route: its channel is unknown, or its account or its user is blank.
abbrev pub IsUnroutable : (channel account_id external_user_id : String) → Type 0
IsUnroutable channel account_id external_user_id =
    (¬ IsChannel (to_ascii_lowercase (trim channel)))
    ⊎ ((trim account_id ≡ "") ⊎ (trim external_user_id ≡ ""))

module _ (name here : String) (others : Option String) (Other : Type 0) where
  found_name :
      (c : String)
      → ((others ≡ some c) → (c ≡ name) × Other)
      → (if str_eq name here then some here else others) ≡ some c
      → (c ≡ name) × ((name ≡ here) ⊎ Other)
  found_name c h e = elim (Bool-cases (str_eq name here)) [
    | inl same ↦ (ground (arith, e, same, eq_iff name here), inl ((eq_iff name here).0 same))
    | inr other ↦ let (at_c, rest) = h (ground (arith, e, other)) in (at_c, inr rest)
  ]

  no_name :
      (others ≡ none → ¬ Other)
      → (if str_eq name here then some here else others) ≡ none
      → ¬ ((name ≡ here) ⊎ Other)
  no_name h e (inl same) = absurd (ground (arith, e, (eq_iff name here).1 same))
  no_name h e (inr other) = elim (Bool-cases (str_eq name here)) [
    | inl same ↦ absurd (ground (arith, e, same))
    | inr different ↦ h (ground (arith, e, different)) other
  ]

last_name :
    (name c : String)
    → (if str_eq name "teams" then some "teams" else none) ≡ some c
    → (c ≡ name) × (name ≡ "teams")
last_name name c e = elim (Bool-cases (str_eq name "teams")) [
  | inl same ↦ (ground (arith, e, same, eq_iff name "teams"), (eq_iff name "teams").0 same)
  | inr other ↦ absurd (ground (arith, e, other))
]

not_last :
    (name : String)
    → ◌≡◌ {A = Option String} (if str_eq name "teams" then some "teams" else none) none
    → ¬ (name ≡ "teams")
not_last name e same = absurd (ground (arith, e, (eq_iff name "teams").1 same))

IsChannel-name : (name c : String) → known_channel name ≡ some c → (c ≡ name) × IsChannel c
IsChannel-name name c e =
    let (at_c, known) =
      found_name name "telegram" _ _ c
        (found_name name "slack" _ _ c (
          found_name name "webhook" _ _ c
            (found_name name "discord" _ _ c (found_name name "matrix" _ _ c (last_name name c)))))
        e in
    (at_c, subst IsChannel (sym at_c) known)

unknown-IsChannel : (name : String) → known_channel name ≡ none → ¬ IsChannel name
unknown-IsChannel name = no_name name "telegram" _ _ (
    no_name name "slack" _ _ (
      no_name name "webhook" _ _
        (no_name name "discord" _ _ (no_name name "matrix" _ _ (not_last name)))))

trimmed_component :
    (value c : String) → normalize_channel_component value ≡ some c → (c ≡ trim value) × (c ≢ "")
unfolding normalize_channel_component
trimmed_component value c e = trimmed (trim value) e
  where
    trimmed : (t : String) → (if is_empty t then none else some t) ≡ some c → (c ≡ t) × (c ≢ "")
    trimmed String.[] h = cc
    trimmed (String.◌∷◌ d t) h = (ground (arith, h), λ blank. cc)

blank_component : (value : String) → normalize_channel_component value ≡ none → trim value ≡ ""
unfolding normalize_channel_component
blank_component value e = blank (trim value) e
  where
    blank : (t : String) → (if is_empty t then none else some t) ≡ none → t ≡ ""
    blank String.[] h = refl
    blank (String.◌∷◌ d t) h = cc

module _ {S J : Type 0} where
  -- A route key that was checked is the one that the request asks for; a refusal has a reason.
  pub route_key-IsRouteOf :
      (principal_id channel account_id external_user_id : String) (w : World S J)
      → Ensures
          (λ key v. (v ≡ w) × IsRouteOf principal_id channel account_id external_user_id key)
          (λ v. (v ≡ w) × IsUnroutable channel account_id external_user_id)
          (route_key principal_id channel account_id external_user_id w)
  unfolding route_key normalize_channel
  route_key-IsRouteOf principal_id channel account_id external_user_id w =
      or_stop_cases _ _ _ _ _ w
        (λ e. (refl, inl (unknown-IsChannel (to_ascii_lowercase (trim channel)) e)))
        λ c at_c.
          or_stop_cases _ _ _ _ _ w (λ e. (refl, inr (inl (blank_component account_id e))))
            λ a at_a.
              or_stop_cases _ _ _ _ _ w
                (λ e. (refl, inr (inr (blank_component external_user_id e))))
                λ u at_u. Ensures-ok _ _ _ w (
                  refl,
                  record {
                    of_principal = refl;
                    is_channel = (IsChannel-name (to_ascii_lowercase (trim channel)) c at_c).1;
                    of_channel = (IsChannel-name (to_ascii_lowercase (trim channel)) c at_c).0;
                    of_account = (trimmed_component account_id a at_a).0;
                    has_account = (trimmed_component account_id a at_a).1;
                    of_user = (trimmed_component external_user_id u at_u).0;
                    has_user = (trimmed_component external_user_id u at_u).1;
                  },
                )
