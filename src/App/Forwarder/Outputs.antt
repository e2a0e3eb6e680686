-- ===== src/App/Forwarder/Outputs.antt =====
-- What the gateway of liveclaw-gateway/src/server.rs gets from `GatewayEventForwarder` of
-- liveclaw-app/src/main.rs, and what becomes of it.
use liveclaw.Prelude.{true, Option, none, some, List, [], ◌∷◌, ◌++◌, ◌≡◌, refl, sym, ap, subst, ◌∙◌}
use liveclaw.Prelude.Lists.{All}
use liveclaw.Gateway.State.{AppState, Moment}
use liveclaw.Gateway.Channels.{SessionTranscriptOutput, queue_channel_outbound_transcript}
use liveclaw.App.Forwarder.{
  Storage, GatewayEventForwarder, ForwarderState, on_audio, on_text, on_transcript,
}
use liveclaw.App.Forwarder.Events.{
  RuntimeEvent, audio_delta, text_delta, transcript_delta, on_event, and_then, on_events, said,
  Holds, HoldsNow, CannotCompact,
}
use liveclaw.App.Forwarder.Keeps.{transcript_keeps, audio_keeps}

-- The gateway queues nothing for the channels on an output.
abbrev pub NeverQueued : SessionTranscriptOutput → Type 1
NeverQueued output =
    (S J : Type 0) (m : Moment) (app : AppState S J)
    → queue_channel_outbound_transcript m output app ≡ app

module _ {W : Type 0} (storage : Storage W) (forwarder : GatewayEventForwarder) where
  append_nil : (xs : List SessionTranscriptOutput) → xs ++ [] ≡ xs
  append_nil [] = refl
  append_nil (x ∷ xs) = ap (λ l. x ∷ l) (append_nil xs)

  append_assoc : (xs ys zs : List SessionTranscriptOutput) → (xs ++ ys) ++ zs ≡ xs ++ (ys ++ zs)
  append_assoc [] ys zs = refl
  append_assoc (x ∷ xs) ys zs = ap (λ l. x ∷ l) (append_assoc xs ys zs)

  -- The event panics in this state: its text cannot be compacted with the session's entries.
  abbrev pub EventPanics : RuntimeEvent → ForwarderState W → Type 0
  EventPanics (audio_delta audio) s = ⊥
  EventPanics (text_delta t) s = CannotCompact storage forwarder t s
  EventPanics (transcript_delta t) s = CannotCompact storage forwarder t s

  -- One of the events panics, in the state that the events before it lead to.
  pub record Panicked (events : List RuntimeEvent) (s : ForwarderState W) : Type 0 where
    pub before : List RuntimeEvent
    pub event : RuntimeEvent
    pub after : List RuntimeEvent
    pub reached : ForwarderState W
    pub among : before ++ event ∷ after ≡ events
    pub is_reached : on_events storage forwarder before s ≡ some reached
    pub panics : EventPanics event reached

  -- The outputs of an event, before those of the others.
  abbrev step_said : RuntimeEvent → List SessionTranscriptOutput
  step_said event = said storage forwarder (event ∷ [])

  event_keeps :
      (event : RuntimeEvent) (outputs : List SessionTranscriptOutput) (s : ForwarderState W)
      → HoldsNow storage forwarder outputs s
      → Holds storage forwarder
          (EventPanics event s)
          (outputs ++ step_said event)
          (on_event storage forwarder event s)
  unfolding on_text on_transcript
  event_keeps (audio_delta audio) outputs s h =
      subst (λ l. Holds storage forwarder ⊥ l (on_audio storage forwarder audio s))
        (sym (append_nil outputs)) (audio_keeps storage forwarder audio outputs s h)
  event_keeps (text_delta t) outputs s h = transcript_keeps storage forwarder t outputs s h
  event_keeps (transcript_delta t) outputs s h = transcript_keeps storage forwarder t outputs s h

  said_cons :
      (event : RuntimeEvent) (events : List RuntimeEvent)
      → step_said event ++ said storage forwarder events ≡ said storage forwarder (event ∷ events)
  said_cons (audio_delta audio) events = refl
  said_cons (text_delta t) events = refl
  said_cons (transcript_delta t) events = refl

  weaken_panic :
      (P Q : Type 0) (outputs : List SessionTranscriptOutput) (r : Option (ForwarderState W))
      → (P → Q)
      → Holds storage forwarder P outputs r
      → Holds storage forwarder Q outputs r
  weaken_panic P Q outputs none f h = f h
  weaken_panic P Q outputs (some s) f h = h

  later_panic :
      (event : RuntimeEvent) (events : List RuntimeEvent) (s u : ForwarderState W)
      → on_event storage forwarder event s ≡ some u
      → Panicked events u
      → Panicked (event ∷ events) s
  later_panic event events s u e p = record {
    before = event ∷ p.before;
    event = p.event;
    after = p.after;
    reached = p.reached;
    among = ap (λ l. event ∷ l) p.among;
    is_reached =
        ap (λ r. and_then storage forwarder r (on_events storage forwarder p.before)) e
        ∙ p.is_reached;
    panics = p.panics;
  }

  after_event :
      (event : RuntimeEvent) (events : List RuntimeEvent) (r : Option (ForwarderState W))
      (s : ForwarderState W) (outputs all : List SessionTranscriptOutput)
      → on_event storage forwarder event s ≡ r
      → ((u : ForwarderState W)
          → HoldsNow storage forwarder outputs u
          → Holds storage forwarder (Panicked events u) all (on_events storage forwarder events u))
      → Holds storage forwarder (EventPanics event s) outputs r
      → Holds storage forwarder
          (Panicked (event ∷ events) s)
          all
          (and_then storage forwarder r (on_events storage forwarder events))
  after_event event events none s outputs all e k h = record {
    before = [];
    event = event;
    after = events;
    reached = s;
    among = refl;
    is_reached = refl;
    panics = h;
  }
  after_event event events (some u) s outputs all e k h =
      weaken_panic _ _ all _ (later_panic event events s u e) (k u h)

  on_events_keeps :
      (events : List RuntimeEvent) (outputs : List SessionTranscriptOutput) (s : ForwarderState W)
      → HoldsNow storage forwarder outputs s
      → Holds storage forwarder
          (Panicked events s)
          (outputs ++ said storage forwarder events)
          (on_events storage forwarder events s)
  on_events_keeps [] outputs s h =
      subst (λ l. HoldsNow storage forwarder l s) (sym (append_nil outputs)) h
  on_events_keeps (event ∷ events) outputs s h =
      subst
        (λ l.
          Holds storage forwarder (Panicked (event ∷ events) s) l
            (on_events storage forwarder (event ∷ events) s))
        (append_assoc outputs (step_said event) (said storage forwarder events)
          ∙ ap (λ l. outputs ++ l) (said_cons event events))
        (after_event event events (on_event storage forwarder event s) s
          (outputs ++ step_said event) _ refl
          (λ u k. on_events_keeps events (outputs ++ step_said event) u k)
          (event_keeps event outputs s h))

  said-NeverQueued : (events : List RuntimeEvent) → All NeverQueued (said storage forwarder events)
  unfolding queue_channel_outbound_transcript
  said-NeverQueued [] = tt
  said-NeverQueued (audio_delta audio ∷ events) = said-NeverQueued events
  said-NeverQueued (text_delta t ∷ events) = (λ S J m app. refl, said-NeverQueued events)
  said-NeverQueued (transcript_delta t ∷ events) = (λ S J m app. refl, said-NeverQueued events)

  -- While the channel is open, the gateway hears each text and each transcript of a session once,
  -- in their order, under the session of the forwarder and not marked final, and queues nothing for
  -- the channels on any of them; unless the run panics, and then, in the state that the events
  -- before one of its texts lead to, the compaction is enabled and panics on the session's entries
  -- with that text.
  pub on_events-said :
      (events : List RuntimeEvent) (s : ForwarderState W)
      → s.transcript_open ≡ true
      → Holds storage forwarder
          (Panicked events s)
          (s.transcript_tx ++ said storage forwarder events)
          (on_events storage forwarder events s)
        × All NeverQueued (said storage forwarder events)
  on_events-said events s is_open =
      (on_events_keeps events s.transcript_tx s (refl, is_open), said-NeverQueued events)
