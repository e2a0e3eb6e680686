-- ===== src/Gateway/Pairing/Tokens.antt =====
-- Which tokens a guard accepts: `try_pair` against `is_authenticated`, of
-- liveclaw-gateway/src/pairing.rs.
use liveclaw.Prelude.{
  ℕ, ◌≡◌, ap, ◌↔◌, Bool, true, false, ◌||◌, ◌&&◌, Option, none, some, List, [], ◌∷◌, ◌++◌, arith,
  String, str_eq, eq_iff, Result, ok, err, inl, inr, Option-cases,
}
use liveclaw.Prelude.Lists.{any}
use liveclaw.Text.{codes}
use liveclaw.Text.Codes.{codes_injective}
use liveclaw.Gateway.Pairing.Compare.{constant_time_eq_iff}
use liveclaw.Gateway.Pairing.{
  PairingGuard, hash_token, constant_time_eq, is_authenticated, try_pair, compare_code,
  record_failure, record_success, locked_for,
}

-- The comparison that `is_authenticated` makes is equality of the hashes.
same_hash : (s t : String) → constant_time_eq (codes s) (codes t) ≡ str_eq s t
same_hash s t = ground (
  arith,
  constant_time_eq_iff (codes s) (codes t),
  eq_iff s t,
  codes_injective s t,
  ap codes {x = s} {y = t},
)

-- Whether a call of `try_pair` handed out a token.
abbrev pub issued : Result (Option String) ℕ → Bool
issued (ok (some t)) = true
issued (ok none) = false
issued (err n) = false

module _ (sha256 : String → List ℕ) where
  accepted : String → List String → Bool
  accepted token hashes =
      any (λ stored. constant_time_eq (codes stored) (codes (hash_token sha256 token))) hashes

  accepted-append :
      (token : String) (hashes : List String) (h : String)
      → accepted token (hashes ++ h ∷ [])
        ≡ (accepted token hashes || str_eq h (hash_token sha256 token))
  unfolding accepted
  accepted-append token [] h = ground (arith, same_hash h (hash_token sha256 token))
  accepted-append token (k ∷ hashes) h = ground (arith, accepted-append token hashes h)

  -- A call of `try_pair` issues a token exactly when pairing is required, no lockout is running and
  -- the code is the pairing code, and the token is the UUID that was generated.
  pub try_pair-issues_iff :
      (g : PairingGuard) (given : String) (now later : ℕ) (uuid token : String)
      → ((try_pair sha256 g given now later uuid).1 ≡ ok (some token)) ↔ (
          (g.require_pairing ≡ true)
          × (locked_for g now ≡ none)
          × (g.pairing_code ≡ some given)
          × (uuid ≡ token))
  unfolding try_pair compare_code record_success record_failure
  try_pair-issues_iff g given now later uuid token = (
    λ h. elim (Option-cases g.pairing_code) [
      | inl e ↦ ground arith
      | inr (c, e) ↦ ground (arith, eq_iff given c)
    ],
    λ h. ground (arith, eq_iff given given),
  )

  -- After any call of `try_pair` a token is accepted exactly when it was accepted before, or the
  -- call issued a token and the two have the same digest.
  pub is_authenticated-try_pair :
      (g : PairingGuard) (given : String) (now later : ℕ) (uuid token : String)
      → let (g', r) = try_pair sha256 g given now later uuid in
        is_authenticated sha256 g' token ≡ (
          is_authenticated sha256 g token
          || (issued r && str_eq (hash_token sha256 uuid) (hash_token sha256 token)))
  unfolding try_pair compare_code record_success record_failure is_authenticated accepted
  is_authenticated-try_pair g given now later uuid token =
      ground (arith, accepted-append token g.token_hashes (hash_token sha256 uuid))

  -- The pairing code is not used up: after a call of `try_pair` issued a token, the same code gets
  -- another token at any time at which the guard is not locked out.
  pub try_pair-issues_again :
      (g : PairingGuard) (given : String) (now later : ℕ) (uuid token : String)
      → (now' later' : ℕ) (uuid' : String)
      → (try_pair sha256 g given now later uuid).1 ≡ ok (some token)
      → locked_for (try_pair sha256 g given now later uuid).0 now' ≡ none
      → (try_pair sha256 (try_pair sha256 g given now later uuid).0 given now' later' uuid').1
        ≡ ok (some uuid')
  unfolding try_pair compare_code record_success
  try_pair-issues_again g given now later uuid token now' later' uuid' h free =
      let (on, open_, code_, _) = (try_pair-issues_iff g given now later uuid token).0 h in
      ground (arith, eq_iff given given)
