-- ===== src/Client/Silence.antt =====
-- A client that no frame reaches (client.rs): how its handshake ends.
use redpine_rs.Common.{
  All, map, ℕ, ◌≡◌, ◌⊎◌, ◌≤◌, ◌<◌, ◌+◌, ◌^◌, inl, inr, refl, ◌∷◌, [], ◌++◌, Bool, none, some,
  Option, List, arith, leb, le→leb, Bool-cases, done,
}
use redpine_rs.Common.Word.{IsU32}
use redpine_rs.Frame.Envelope.Simple.{write_handshake_alpha-verified}
use redpine_rs.Interface.{timeout}
use redpine_rs.Endpoint.Float.{Float}
use redpine_rs.Endpoint.Connection.{later}
use redpine_rs.Client.{
  alpha, validate, connect_with_config, Config, ClientCore, HandshakeState, handshake, quiescent,
  Event, error,
}
use redpine_rs.Client.Handling.{process_timeouts, process_timer, process_timeout, retry_handshake}
use redpine_rs.Client.Polling.{poll_event, poll_round, handle_frames, pop_event}
use redpine_rs.Client.Operations.{apply_all, Operation, poll, apply}

-- A call of `poll_event` that finds no frame.
abbrev pub silent : ℕ → Operation
silent now_ms = poll (record { frames = []; now_ms = now_ms; elapsed_ms = 0 })

module _ {F : Type 0} (config : Config) where
  -- A client that waits for the server, and one that has given up; both have given all their events.
  abbrev waiting : List (List ℕ) → HandshakeState → ℕ → ClientCore F
  waiting sent state timer_ms = record {
    config = config;
    sent = sent;
    draws = 0;
    state = handshake state;
    rto_timer = some timer_ms;
    events = [];
  }

  abbrev gone : List (List ℕ) → Option ℕ → ClientCore F
  gone sent timer = record {
    config = config;
    sent = sent;
    draws = 0;
    state = quiescent;
    rto_timer = timer;
    events = [];
  }

  module _ ⦃f : Float F⦄ (random : ℕ → Bool) where
    gone-silent :
        (now_ms : ℕ) (taken : List Event) (sent : List (List ℕ)) (timer : Option ℕ)
        → (timer' : Option ℕ) × (apply random (silent now_ms) taken (gone sent timer)
            ≡ done (taken, gone sent timer'))
    unfolding apply poll_event poll_round handle_frames process_timeouts process_timer
        process_timeout pop_event
    gone-silent now_ms taken sent none = (none, refl)
    gone-silent now_ms taken sent (some t) = elim (Bool-cases (leb t now_ms)) [
      | inl due ↦ (none, rw due refl)
      | inr early ↦ (some t, rw early refl)
    ]

    -- A timer that is due past the end of the handshake gives its error.
    waiting-gives_up :
        (now_ms : ℕ) (taken : List Event) (sent : List (List ℕ)) (state : HandshakeState)
        (timer_ms : ℕ)
        → timer_ms ≤ now_ms
        → state.timeout_time_ms ≤ now_ms
        → apply random (silent now_ms) taken (waiting sent state timer_ms)
          ≡ done (taken ++ error timeout ∷ [], gone sent none)
    unfolding apply poll_event poll_round handle_frames process_timeouts process_timer
        process_timeout pop_event retry_handshake
    waiting-gives_up now_ms taken sent state timer_ms due late =
        rw (le→leb timer_ms now_ms due) (rw (le→leb state.timeout_time_ms now_ms late) refl)

    -- Before that, the timer stays ahead of the clock by no more than two seconds.
    waiting-silent :
        (now_ms bound : ℕ) (taken : List Event) (sent : List (List ℕ)) (state : HandshakeState)
        (timer_ms : ℕ)
        → now_ms ≤ bound
        → bound + 2000 < 2 ^ 64
        → timer_ms ≤ bound + 2000
        → ((sent' : List (List ℕ)) × (timer' : ℕ) × (apply random
                (silent now_ms)
                taken
                (waiting sent state timer_ms)
              ≡ done (taken, waiting sent' state timer'))
            × (timer' ≤ bound + 2000))
          ⊎ (apply random (silent now_ms) taken (waiting sent state timer_ms)
              ≡ done (taken ++ error timeout ∷ [], gone sent none))
    unfolding apply poll_event poll_round handle_frames process_timeouts process_timer
        process_timeout pop_event retry_handshake
    waiting-silent now_ms bound taken sent state timer_ms h room t =
        elim (Bool-cases (leb timer_ms now_ms)) [
          | inr early ↦ inl (sent, timer_ms, rw early refl, t)
          | inl due ↦ elim (Bool-cases (leb state.timeout_time_ms now_ms)) [
            | inl late ↦ inr (rw due (rw late refl))
            | inr soon ↦
                inl
                  (sent ++ state.frame ∷ [], later now_ms 2000, rw due (rw soon refl), omega arith)
          ]
        ]

    -- Once it has given up, nothing more happens.
    poll_once_gone :
        (times : List ℕ) (taken : List Event) (sent : List (List ℕ)) (timer : Option ℕ)
        → (timer' : Option ℕ) × (apply_all random (map silent times) taken (gone sent timer)
            ≡ done (taken, gone sent timer'))
    unfolding apply_all
    poll_once_gone [] taken sent timer = (timer, refl)
    poll_once_gone (now_ms ∷ times) taken sent timer =
        let (timer1, first) = gone-silent now_ms taken sent timer in
        let (timer', rest) = poll_once_gone times taken sent timer1 in (timer', rw first rest)

    poll_while_waiting :
        (times : List ℕ) (now_ms bound : ℕ) (sent : List (List ℕ)) (state : HandshakeState)
        (timer_ms : ℕ)
        → All (λ t. t ≤ bound) times
        → bound + 2000 ≤ now_ms
        → now_ms < 2 ^ 64
        → state.timeout_time_ms ≤ now_ms
        → timer_ms ≤ bound + 2000
        → (sent' : List (List ℕ)) × (timer' : Option ℕ) × (apply_all random
              (map silent (times ++ now_ms ∷ []))
              []
              (waiting sent state timer_ms)
            ≡ done (error timeout ∷ [], gone sent' timer'))
    unfolding apply_all
    poll_while_waiting [] now_ms bound sent state timer_ms all h room late t =
        (sent, none, rw (waiting-gives_up now_ms [] sent state timer_ms (omega arith) late) refl)
    poll_while_waiting (t0 ∷ times) now_ms bound sent state timer_ms (here, all) h room late t =
        elim (waiting-silent t0 bound [] sent state timer_ms here (omega arith) t) [
          | inl (sent1, timer1, first, t1) ↦
              let (sent', timer', rest) =
                poll_while_waiting times now_ms bound sent1 state timer1 all h room late t1 in
              (sent', timer', rw first rest)
          | inr first ↦
              let (timer', rest) =
                poll_once_gone (times ++ now_ms ∷ []) (error timeout ∷ []) sent none in
              (sent, timer', rw first rest)
        ]

-- A client with a valid configuration and a 32-bit nonce is made, and no frame reaches it. The
-- program polls it at any times up to `bound`, and then once more, two seconds later or more, at a
-- time that is past the timeout of the handshake and fits a `u64`. Then all calls return, the program
-- has got the one event `Error(Timeout)`, and the client is quiescent, with no more events.
pub connect_with_config-gives_up :
    {F : Type 0} ⦃f : Float F⦄ (random : ℕ → Bool) (config : Config) (local_nonce : ℕ)
    (times : List ℕ) (now_ms bound : ℕ)
    → validate config ≡ done tt
    → IsU32 local_nonce
    → All (λ t. t ≤ bound) times
    → bound + 2000 ≤ now_ms
    → now_ms < 2 ^ 64
    → config.handshake_timeout_ms ≤ now_ms
    → (client client' : ClientCore F) × (connect_with_config config local_nonce ≡ done client)
      × (apply_all random (map silent (times ++ now_ms ∷ [])) [] client
          ≡ done (error timeout ∷ [], client'))
      × (client'.state ≡ quiescent)
      × (client'.events ≡ [])
unfolding connect_with_config
connect_with_config-gives_up {F} random config local_nonce times now_ms bound valid nonce all h room
      late =
    let (frame, written, verified, type) =
      write_handshake_alpha-verified (record { protocol_id = 0; client_nonce = local_nonce }) 1472
        (omega arith, nonce) (omega arith) in
    let state : HandshakeState = record {
      phase = alpha;
      timeout_time_ms = config.handshake_timeout_ms;
      timeout_ms = config.handshake_timeout_ms;
      packet_buffer = [];
      frame = frame;
      local_nonce = local_nonce;
    } in
    let (sent', timer', run) =
      poll_while_waiting {F = F} config random times now_ms bound (frame ∷ []) state 2000 all h room
        late (omega arith) in
    (
      waiting config (frame ∷ []) state 2000,
      gone config sent' timer',
      rw valid (rw written refl),
      run,
      refl,
      refl,
    )
