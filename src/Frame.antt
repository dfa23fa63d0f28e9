-- ===== src/Frame.antt =====
-- The data of frame/mod.rs: what the ten frames of the protocol carry.
pub mod Io
pub mod Block
pub mod DatagramSerial
pub mod Codec
pub mod Envelope
pub mod Crc
use redpine_rs.Common.{ℕ, Bool, Option, List}

pub data FrameType : Type 0 where
  handshake_alpha handshake_alpha_ack handshake_beta handshake_beta_ack : FrameType
  close close_ack stream_segment stream_ack stream_segment_ack stream_sync : FrameType

pub record ConnectionParams : Type 0 where
  pub packet_size_in_max : ℕ
  pub packet_size_out_max : ℕ

pub data HandshakeErrorKind : Type 0 where
  capacity parameter : HandshakeErrorKind

pub record Datagram : Type 0 where
  pub id : ℕ
  pub unrel : Bool
  pub first : Bool
  pub last : Bool
  pub bytes : List ℕ

pub record HandshakeAlphaFrame : Type 0 where
  pub protocol_id : ℕ
  pub client_nonce : ℕ

pub record HandshakeAlphaAckFrame : Type 0 where
  pub server_params : ConnectionParams
  pub client_nonce : ℕ
  pub server_nonce : ℕ
  pub server_timestamp : ℕ
  pub server_mac : ℕ

pub record HandshakeBetaFrame : Type 0 where
  pub client_params : ConnectionParams
  pub client_nonce : ℕ
  pub server_nonce : ℕ
  pub server_timestamp : ℕ
  pub server_mac : ℕ

pub record HandshakeBetaAckFrame : Type 0 where
  pub error : Option HandshakeErrorKind
  pub client_nonce : ℕ

pub record CloseFrame : Type 0 where
  pub remote_nonce : ℕ

pub record CloseAckFrame : Type 0 where
  pub remote_nonce : ℕ

pub record StreamSegmentHeader : Type 0 where
  pub id : ℕ
  pub nonce : Bool

pub record StreamAck : Type 0 where
  pub segment_id : ℕ
  pub segment_history : ℕ
  pub segment_checksum : Bool
  pub rel_fragment_id : Option ℕ

pub record StreamSync : Type 0 where
  pub next_segment_id : ℕ
