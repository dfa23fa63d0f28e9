-- ===== src/Endpoint/Connection/Closing.antt =====
-- About the frames that end a connection in endpoint/mod.rs, and the nonce that they carry.
use redpine_rs.Common.{
  ℕ, ◌<◌, ◌≡◌, refl, ap, ◌≢◌, inl, inr, Bool, false, List, ◌++◌, ◌==◌, ==→eq, Bool-cases, done,
  length,
}
use redpine_rs.Common.Word.{IsU32}
use redpine_rs.Frame.{close, close_ack}
use redpine_rs.Frame.Io.{be_bytes_u32}
use redpine_rs.Frame.Block.Stream.{
  close-IsLawful, close_ack-IsLawful, close-encode, close_ack-encode,
}
use redpine_rs.Frame.Envelope.Simple.{
  close_frame, close_ack_frame, simple_read-short, simple_read-encode,
}
use redpine_rs.Endpoint.Host.{Host}
use redpine_rs.Endpoint.Float.{Float}
use redpine_rs.Endpoint.Connection.{Endpoint, StateId, pre_init, active, closing, closed, zombie}
use redpine_rs.Endpoint.Connection.Handling.{
  validate_close_frame, validate_close_ack_frame, handle_close, handle_close_ack, handle_late_close,
  handle_active, handle_closing, handle_closed, handle_frame_in, handle_frame,
}

-- A payload that is too short for a nonce, or begins with another one.
pub data IsRefused (payload_bytes : List ℕ) (nonce : ℕ) : Type 0 where
  short : length payload_bytes < 4 → IsRefused payload_bytes nonce
  other :
      (n : ℕ) (rest : List ℕ)
      → IsU32 n
      → n ≢ nonce
      → payload_bytes ≡ be_bytes_u32 n ++ rest
      → IsRefused payload_bytes nonce

differ : (m n : ℕ) → m ≢ n → (m == n) ≡ false
differ m n h = elim (Bool-cases (m == n)) [ inl same ↦ absurd (h (==→eq m n same)) | inr e ↦ e ]

validate_close_frame-IsRefused :
    (payload_bytes : List ℕ) (nonce : ℕ)
    → IsRefused payload_bytes nonce
    → validate_close_frame nonce payload_bytes ≡ done false
unfolding validate_close_frame
validate_close_frame-IsRefused payload_bytes nonce (short h) =
    rw (simple_read-short close_frame close-IsLawful payload_bytes h) refl
validate_close_frame-IsRefused payload_bytes nonce (other n rest u32 h e) =
    rw
      (
        e,
        ← close-encode (record { remote_nonce = n }),
        simple_read-encode close_frame close-IsLawful (record { remote_nonce = n }) rest u32,
      )
      (ap done (differ n nonce h))

validate_close_ack_frame-IsRefused :
    (payload_bytes : List ℕ) (nonce : ℕ)
    → IsRefused payload_bytes nonce
    → validate_close_ack_frame nonce payload_bytes ≡ done false
unfolding validate_close_ack_frame
validate_close_ack_frame-IsRefused payload_bytes nonce (short h) =
    rw (simple_read-short close_ack_frame close_ack-IsLawful payload_bytes h) refl
validate_close_ack_frame-IsRefused payload_bytes nonce (other n rest u32 h e) =
    rw
      (
        e,
        ← close_ack-encode (record { remote_nonce = n }),
        simple_read-encode close_ack_frame close_ack-IsLawful (record { remote_nonce = n }) rest
            u32,
      )
      (ap done (differ n nonce h))

module _ {F : Type 0} ⦃f : Float F⦄ (random : ℕ → Bool) (payload_bytes : List ℕ) (now_ms : ℕ)
    (ep : Endpoint F) (host : Host) (refused : IsRefused payload_bytes ep.local_nonce) where
  close_refused :
      (s : StateId) → handle_frame_in random s close payload_bytes now_ms ep host ≡ done (ep, host)
  unfolding handle_frame_in handle_active handle_closing handle_closed handle_close
      handle_late_close
  close_refused pre_init = refl
  close_refused active =
      rw (validate_close_frame-IsRefused payload_bytes ep.local_nonce refused) refl
  close_refused closing =
      rw (validate_close_frame-IsRefused payload_bytes ep.local_nonce refused) refl
  close_refused closed =
      rw (validate_close_frame-IsRefused payload_bytes ep.local_nonce refused) refl
  close_refused zombie = refl

  close_ack_refused :
      (s : StateId)
      → handle_frame_in random s close_ack payload_bytes now_ms ep host ≡ done (ep, host)
  unfolding handle_frame_in handle_active handle_closing handle_closed handle_close_ack
  close_ack_refused pre_init = refl
  close_ack_refused active = refl
  close_ack_refused closing =
      rw (validate_close_ack_frame-IsRefused payload_bytes ep.local_nonce refused) refl
  close_ack_refused closed = refl
  close_ack_refused zombie = refl

  -- A `Close` or `CloseAck` frame with fewer than four bytes of payload, or with another nonce than
  -- the endpoint's own, is ignored in every state: it is handled without a panic, the endpoint stays
  -- as it was, and no call is made.
  pub handle_frame-IsRefused :
      (handle_frame random close payload_bytes now_ms ep host ≡ done (ep, host))
      × (handle_frame random close_ack payload_bytes now_ms ep host ≡ done (ep, host))
  unfolding handle_frame
  handle_frame-IsRefused = (close_refused ep.state_id, close_ack_refused ep.state_id)
