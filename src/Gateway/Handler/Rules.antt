-- ===== src/Gateway/Handler/Rules.antt =====
-- Rules for what an action ensures: `Ensures Q E (m w)` says that the action, run in `w`, ends in a
-- world and with a value that satisfy `Q`, or leaves the handler in a world that satisfies `E`.
use liveclaw.Prelude.{
  ◌⊎◌, inl, inr, ap, Bool, true, false, Option, none, some, String, Result, ok, err, ◌≡◌, refl,
}
use liveclaw.Gateway.Protocol.{GatewayResponse}
use liveclaw.Gateway.State.{AppState, ConnectionState, World}
use liveclaw.Gateway.Handler.{
  Action, ◌>>=◌, unless_stop, or_stop, call, respond, read_app, read_conn, change_app, change_conn,
  choose, settle, demand,
}

module _ {S J : Type 0} where
  pub Ensures :
      {A : Type 0}
      → (A → World S J → Type 0)
      → (World S J → Type 0)
      → World S J × Result A (GatewayResponse J)
      → Type 0
  Ensures Q E (w, ok a) = Q a w
  Ensures Q E (w, err resp) = E w

  module _ {A : Type 0} (Q : A → World S J → Type 0) (E : World S J → Type 0) where
    pub Ensures-ok : (a : A) (w : World S J) → Q a w → Ensures Q E (w, ok a)
    unfolding Ensures
    Ensures-ok a w h = h

    pub Ensures-err : (resp : GatewayResponse J) (w : World S J) → E w → Ensures Q E (w, err resp)
    unfolding Ensures
    Ensures-err resp w h = h

    weaken_result :
        (R : A → World S J → Type 0) (w : World S J) (r : Result A (GatewayResponse J))
        → Ensures Q E (w, r)
        → ((a : A) (v : World S J) → Q a v → R a v)
        → Ensures R E (w, r)
    unfolding Ensures
    weaken_result R w (ok a) h k = k a w h
    weaken_result R w (err resp) h k = h

    pub weaken :
        (R : A → World S J → Type 0) (x : World S J × Result A (GatewayResponse J))
        → Ensures Q E x
        → ((a : A) (v : World S J) → Q a v → R a v)
        → Ensures R E x
    weaken R x h k = weaken_result R x.0 x.1 h k

  module _ {A B : Type 0} (E : World S J → Type 0) where
    bind_result :
        (Q : A → World S J → Type 0) (R : B → World S J → Type 0) (f : A → Action S J B)
        (w : World S J) (r : Result A (GatewayResponse J))
        → Ensures Q E (w, r)
        → ((a : A) (v : World S J) → Q a v → Ensures R E (f a v))
        → Ensures R E (elim r [ ok a ↦ f a w | err resp ↦ (w, err resp) ])
    unfolding Ensures
    bind_result Q R f w (ok a) h k = k a w h
    bind_result Q R f w (err resp) h k = h

    pub bind_rule :
        (Q : A → World S J → Type 0) (R : B → World S J → Type 0) (m : Action S J A)
        (f : A → Action S J B) (w : World S J)
        → Ensures Q E (m w)
        → ((a : A) (v : World S J) → Q a v → Ensures R E (f a v))
        → Ensures R E ((m >>= f) w)
    unfolding ◌>>=◌
    bind_rule Q R m f w h k = bind_result Q R f (m w).0 (m w).1 h k

    pub or_stop_rule :
        (R : B → World S J → Type 0) (o : Option A) (resp : GatewayResponse J)
        (f : A → Action S J B) (w : World S J)
        → E w
        → ((a : A) → o ≡ some a → Ensures R E (f a w))
        → Ensures R E ((or_stop o resp >>= f) w)
    unfolding ◌>>=◌ Ensures
    or_stop_rule R none resp f w h k = h
    or_stop_rule R (some a) resp f w h k = k a refl

    -- A refusal may use that there is nothing.
    pub or_stop_cases :
        (R : B → World S J → Type 0) (o : Option A) (resp : GatewayResponse J)
        (f : A → Action S J B) (w : World S J)
        → (o ≡ none → E w)
        → ((a : A) → o ≡ some a → Ensures R E (f a w))
        → Ensures R E ((or_stop o resp >>= f) w)
    unfolding ◌>>=◌ Ensures
    or_stop_cases R none resp f w h k = h refl
    or_stop_cases R (some a) resp f w h k = k a refl

    pub call_rule :
        (R : B → World S J → Type 0) (op : S → Result A String × S)
        (f : Result A String → Action S J B) (w : World S J)
        → ((r : Result A String) (s : S)
            → (op w.app.runner_state).0 ≡ r
            → Ensures R E (f r (record w { app = record (w.app) { runner_state = s } })))
        → Ensures R E ((call op >>= f) w)
    unfolding ◌>>=◌
    call_rule R op f w k = k (op w.app.runner_state).0 (op w.app.runner_state).1 refl

  module _ {B : Type 0} (E : World S J → Type 0) (R : B → World S J → Type 0) where
    pub unless_rule :
        (b : Bool) (resp : GatewayResponse J) (f : Unit {0} → Action S J B) (w : World S J)
        → E w
        → (b ≡ true → Ensures R E (f tt w))
        → Ensures R E ((unless_stop b resp >>= f) w)
    unfolding ◌>>=◌ Ensures
    unless_rule true resp f w h k = k refl
    unless_rule false resp f w h k = h

    pub choose_rule :
        (b : Bool) (m n : Action S J B) (w : World S J)
        → (b ≡ true → Ensures R E (m w))
        → (b ≡ false → Ensures R E (n w))
        → Ensures R E (choose b m n w)
    unfolding choose
    choose_rule true m n w h k = h refl
    choose_rule false m n w h k = k refl

    pub read_app_rule :
        (f : AppState S J → Action S J B) (w : World S J)
        → Ensures R E (f w.app w)
        → Ensures R E ((read_app >>= f) w)
    unfolding ◌>>=◌
    read_app_rule f w h = h

    pub read_conn_rule :
        (f : ConnectionState → Action S J B) (w : World S J)
        → Ensures R E (f w.conn w)
        → Ensures R E ((read_conn >>= f) w)
    unfolding ◌>>=◌
    read_conn_rule f w h = h

    pub change_app_rule :
        (g : AppState S J → AppState S J) (f : Unit {0} → Action S J B) (w : World S J)
        → Ensures R E (f tt (record w { app = g w.app }))
        → Ensures R E ((change_app g >>= f) w)
    unfolding ◌>>=◌
    change_app_rule g f w h = h

    pub change_conn_rule :
        (g : ConnectionState → ConnectionState) (f : Unit {0} → Action S J B) (w : World S J)
        → Ensures R E (f tt (record w { conn = g w.conn }))
        → Ensures R E ((change_conn g >>= f) w)
    unfolding ◌>>=◌
    change_conn_rule g f w h = h

  -- An action that ends on a call of the runner changes the runner's state only.
  pub demand_rule :
      (E : World S J → Type 0) (R : Unit {0} → World S J → Type 0) (code text : String)
      (r : Result (Unit {0}) String) (w : World S J)
      → E w
      → R tt w
      → Ensures R E (demand code text r w)
  unfolding demand
  demand_rule E R code text (ok _) w h k = Ensures-ok R E tt w k
  demand_rule E R code text (err e) w h k = Ensures-err R E _ w h

  pub settle_rule :
      (E : World S J → Type 0) (R : GatewayResponse J → World S J → Type 0)
      (accepted : GatewayResponse J) (code text : String) (r : Result (Unit {0}) String)
      (w : World S J)
      → ((resp : GatewayResponse J) → R resp w)
      → Ensures R E (settle accepted code text r w)
  unfolding settle
  settle_rule E R accepted code text (ok _) w h = Ensures-ok R E _ w (h _)
  settle_rule E R accepted code text (err e) w h = Ensures-ok R E _ w (h _)

  respond_result :
      (P : World S J → Type 0) (w : World S J) (r : Result (GatewayResponse J) (GatewayResponse J))
      → Ensures (λ _. P) P (w, r)
      → P
          (elim r as (λ _. World S J × GatewayResponse J) [
            | ok resp ↦ (w, resp)
            | err resp ↦ (w, resp)
          ]).0
  unfolding Ensures
  respond_result P w (ok resp) h = h
  respond_result P w (err resp) h = h

  -- The world after an action that ensures `P` on both ways out.
  pub respond_rule :
      (P : World S J → Type 0) (m : Action S J (GatewayResponse J)) (w : World S J)
      → Ensures (λ _. P) P (m w)
      → P (respond m w).0
  respond_rule P m w h = respond_result P (m w).0 (m w).1 h

  -- What is answered by an action whose end is known.
  pub respond-end :
      (m : Action S J (GatewayResponse J)) (w v : World S J) (resp : GatewayResponse J)
      → (m w ≡ (v, ok resp)) ⊎ (m w ≡ (v, err resp))
      → respond m w ≡ (v, resp)
  respond-end m w v resp (inl e) =
      ap
        (λ x. elim x.1 as (λ _. World S J × GatewayResponse J) [
          | ok r ↦ (x.0, r)
          | err r ↦ (x.0, r)
        ])
        e
  respond-end m w v resp (inr e) =
      ap
        (λ x. elim x.1 as (λ _. World S J × GatewayResponse J) [
          | ok r ↦ (x.0, r)
          | err r ↦ (x.0, r)
        ])
        e
