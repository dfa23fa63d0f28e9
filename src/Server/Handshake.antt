-- ===== src/Server/Handshake.antt =====
-- The first half of the handshake in server/mod.rs, which keeps no state: the server answers with a
-- nonce and a time of its own and with their MAC. The hash of server/handshake_mac.rs is a parameter;
-- the random nonce and the clock are arguments.
pub mod Alpha
use redpine_rs.Common.{
  ℕ, ◌%◌, ◌^◌, Bool, ◌&&◌, Option, none, some, List, ltb, leb, ◌==◌, if◌then◌else◌, Run, done,
  ◌>>=◌, replicate,
}
use redpine_rs.Common.Word.{wrapping_sub, u32_max}
use redpine_rs.Frame.{
  ConnectionParams, HandshakeAlphaFrame, HandshakeAlphaAckFrame, HandshakeBetaFrame,
}
use redpine_rs.Frame.Envelope.{
  verify_handshake_alpha_size_and_crc, payload, simple_read, simple_write, frame_size,
}
use redpine_rs.Frame.Envelope.Simple.{handshake_alpha_frame, handshake_alpha_ack_frame}

abbrev pub frame_size_max : ℕ
frame_size_max = 1472

abbrev pub handshake_timeout_ms : ℕ
handshake_timeout_ms = 10000

abbrev pub protocol_id : ℕ
protocol_id = 0

abbrev pub server_params : ConnectionParams
server_params = record { packet_size_in_max = u32_max; packet_size_out_max = u32_max }

unfoldable pub connection_params_compatible : ConnectionParams → ConnectionParams → Bool
connection_params_compatible a b =
    leb b.packet_size_out_max a.packet_size_in_max && leb a.packet_size_out_max b.packet_size_in_max

module _ {Addr : Type 0} (compute : Addr → ℕ → ℕ → ℕ → ℕ) where
  unfoldable pub alpha_ack : HandshakeAlphaFrame → Addr → ℕ → ℕ → HandshakeAlphaAckFrame
  alpha_ack frame sender_addr server_nonce now_ms =
      let server_timestamp = now_ms % 2 ^ 32 in
      record {
        server_params = server_params;
        client_nonce = frame.client_nonce;
        server_nonce = server_nonce;
        server_timestamp = server_timestamp;
        server_mac = compute sender_addr frame.client_nonce server_nonce server_timestamp;
      }

  -- `if let Some(frame)`: the frame to send, if any
  unfoldable pub answer_alpha : Option HandshakeAlphaFrame → Addr → ℕ → ℕ → Run (Option (List ℕ))
  unfolding alpha_ack
  answer_alpha none sender_addr server_nonce now_ms = done none
  answer_alpha (some frame) sender_addr server_nonce now_ms =
      if frame.protocol_id == protocol_id
      then (do
        reply ←
            simple_write handshake_alpha_ack_frame (alpha_ack frame sender_addr server_nonce now_ms)
              (replicate {A = ℕ} (frame_size handshake_alpha_ack_frame) 0)
        done (some reply))
      else done none

  unfoldable pub handle_handshake_alpha : List ℕ → Addr → ℕ → ℕ → Run (Option (List ℕ))
  unfolding answer_alpha
  handle_handshake_alpha frame_bytes sender_addr server_nonce now_ms = do
    valid ← verify_handshake_alpha_size_and_crc frame_bytes frame_size_max
    (if valid
        then (do
          payload_bytes ← payload frame_bytes
          read ← simple_read handshake_alpha_frame payload_bytes
          answer_alpha read sender_addr server_nonce now_ms)
        else done none)

  -- `mac_valid && timestamp_valid`
  unfoldable pub beta_is_valid : HandshakeBetaFrame → Addr → ℕ → Bool
  beta_is_valid frame sender_addr now_ms =
      frame.server_mac
        == compute sender_addr frame.client_nonce frame.server_nonce frame.server_timestamp
      && ltb (wrapping_sub (now_ms % 2 ^ 32) frame.server_timestamp) handshake_timeout_ms
