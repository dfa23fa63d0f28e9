-- ===== src/Frame/Block/Handshake.antt =====
-- About the bodies of the handshake frames of frame/serial/mod.rs.
use redpine_rs.Common.{
  none, some, some, [], ◌∷◌, Option, ◌∷◌, ℕ, ◌+◌, ◌≡◌, refl, arith, List, ◌++◌, done,
}
use redpine_rs.Common.Word.{IsU64, IsU16, IsU32}
use redpine_rs.Frame.{
  HandshakeAlphaAckFrame, HandshakeBetaFrame, HandshakeBetaAckFrame, HandshakeErrorKind, capacity,
  parameter, HandshakeAlphaFrame,
}
use redpine_rs.Frame.Io.{
  read_u8, read_u64, be_bytes_u64, read_u16, read_u32, be_bytes_u16, be_bytes_u32,
}
use redpine_rs.Frame.Io.BigEndian.{be_u64-be_bytes, be_u16-be_bytes, be_u32-be_bytes}
use redpine_rs.Frame.Io.Laws.{
  read_u8_total, read_u64_total, write_u8_lem, write_u64_lem, write_u16_lem, write_u32_lem,
  Writes-then, Takes-then, Takes-done, Writes, Takes, done_after, read_u16_total, read_u32_total,
}
use redpine_rs.Frame.Block.{
  read_u8, read_u64, error_of_status, status_of_error, read_handshake_alpha,
  write_handshake_alpha_body, handshake_alpha_block, read_handshake_alpha_ack,
  write_handshake_alpha_ack, handshake_alpha_ack_block, read_handshake_beta, write_handshake_beta,
  handshake_beta_block, read_handshake_beta_ack, write_handshake_beta_ack, handshake_beta_ack_block,
}
use redpine_rs.Frame.Block.Lawful.{IsLawful}

abbrev pub AlphaFits : HandshakeAlphaFrame → Type 0
AlphaFits a = IsU16 a.protocol_id × IsU32 a.client_nonce

alpha_encode : HandshakeAlphaFrame → List ℕ
unfolding be_bytes_u32
alpha_encode a = be_bytes_u16 a.protocol_id ++ be_bytes_u32 a.client_nonce

alpha_write :
    (a : HandshakeAlphaFrame) → Writes (λ wr. write_handshake_alpha_body wr a) (alpha_encode a)
unfolding alpha_encode write_handshake_alpha_body
alpha_write a = Writes-then _ _ (write_u16_lem a.protocol_id) (write_u32_lem a.client_nonce)

alpha_read :
    (a : HandshakeAlphaFrame)
    → AlphaFits a
    → (rest : List ℕ) (n : ℕ)
    → read_handshake_alpha (record { ptr = alpha_encode a ++ rest; bytes_read = n })
      ≡ done (a, record { ptr = rest; bytes_read = n + 6 })
unfolding read_handshake_alpha alpha_encode read_u16 read_u32 be_bytes_u16
alpha_read a f rest n =
    rw (be_u16-be_bytes _ f.0, be_u32-be_bytes _ f.1) (done_after a rest (omega arith))

alpha_total : Takes read_handshake_alpha 6
unfolding read_handshake_alpha
alpha_total = Takes-then _ 2 4 read_u16_total λ p. Takes-then _ 4 0 read_u32_total λ c. Takes-done _

pub handshake_alpha-IsLawful : IsLawful handshake_alpha_block AlphaFits
unfolding alpha_encode be_bytes_u16 be_bytes_u32
handshake_alpha-IsLawful = record {
  encode = alpha_encode;
  length-encode = λ a. refl;
  write_encodes = alpha_write;
  read_decodes = alpha_read;
  read_total = alpha_total;
}

abbrev pub AlphaAckFits : HandshakeAlphaAckFrame → Type 0
AlphaAckFits a =
    IsU32 a.server_params.packet_size_in_max
    × IsU32 a.server_params.packet_size_out_max
    × IsU32 a.client_nonce
    × IsU32 a.server_nonce
    × IsU32 a.server_timestamp
    × IsU64 a.server_mac

alpha_ack_encode : HandshakeAlphaAckFrame → List ℕ
alpha_ack_encode a =
    be_bytes_u32 a.server_params.packet_size_in_max
    ++ (be_bytes_u32 a.server_params.packet_size_out_max
        ++ (be_bytes_u32 a.client_nonce
            ++ (be_bytes_u32 a.server_nonce
                ++ (be_bytes_u32 a.server_timestamp ++ be_bytes_u64 a.server_mac))))

alpha_ack_write :
    (a : HandshakeAlphaAckFrame)
    → Writes (λ wr. write_handshake_alpha_ack wr a) (alpha_ack_encode a)
unfolding alpha_ack_encode write_handshake_alpha_ack
alpha_ack_write a = Writes-then _ _ (write_u32_lem a.server_params.packet_size_in_max) (
    Writes-then _ _ (write_u32_lem a.server_params.packet_size_out_max) (
      Writes-then _ _ (write_u32_lem a.client_nonce) (
        Writes-then _ _ (write_u32_lem a.server_nonce)
          (Writes-then _ _ (write_u32_lem a.server_timestamp) (write_u64_lem a.server_mac)))))

alpha_ack_read :
    (a : HandshakeAlphaAckFrame)
    → AlphaAckFits a
    → (rest : List ℕ) (n : ℕ)
    → read_handshake_alpha_ack (record { ptr = alpha_ack_encode a ++ rest; bytes_read = n })
      ≡ done (a, record { ptr = rest; bytes_read = n + 28 })
unfolding read_handshake_alpha_ack alpha_ack_encode read_u32 read_u64 be_bytes_u32 be_bytes_u64
alpha_ack_read a f rest n =
    rw
      (
        be_u32-be_bytes _ f.0,
        be_u32-be_bytes _ f.1,
        be_u32-be_bytes _ f.2,
        be_u32-be_bytes _ f.3,
        be_u32-be_bytes _ f.4,
        be_u64-be_bytes _ f.5,
      )
      (done_after a rest (omega arith))

alpha_ack_total : Takes read_handshake_alpha_ack 28
unfolding read_handshake_alpha_ack
alpha_ack_total = Takes-then _ 4 24 read_u32_total λ a. Takes-then _ 4 20 read_u32_total λ b.
    Takes-then _ 4 16 read_u32_total λ c.
      Takes-then _ 4 12 read_u32_total
        λ d. Takes-then _ 4 8 read_u32_total λ e. Takes-then _ 8 0 read_u64_total λ f. Takes-done _

-- The body is written as 28 bytes; those of a first reply whose fields fit their widths read back
-- as it; and reading where 28 bytes are left takes just these.
pub handshake_alpha_ack-IsLawful : IsLawful handshake_alpha_ack_block AlphaAckFits
unfolding alpha_ack_encode be_bytes_u32 be_bytes_u64
handshake_alpha_ack-IsLawful = record {
  encode = alpha_ack_encode;
  length-encode = λ a. refl;
  write_encodes = alpha_ack_write;
  read_decodes = alpha_ack_read;
  read_total = alpha_ack_total;
}

abbrev pub BetaFits : HandshakeBetaFrame → Type 0
BetaFits a =
    IsU32 a.client_params.packet_size_in_max
    × IsU32 a.client_params.packet_size_out_max
    × IsU32 a.client_nonce
    × IsU32 a.server_nonce
    × IsU32 a.server_timestamp
    × IsU64 a.server_mac

beta_encode : HandshakeBetaFrame → List ℕ
beta_encode a =
    be_bytes_u32 a.client_params.packet_size_in_max
    ++ (be_bytes_u32 a.client_params.packet_size_out_max
        ++ (be_bytes_u32 a.client_nonce
            ++ (be_bytes_u32 a.server_nonce
                ++ (be_bytes_u32 a.server_timestamp ++ be_bytes_u64 a.server_mac))))

beta_write : (a : HandshakeBetaFrame) → Writes (λ wr. write_handshake_beta wr a) (beta_encode a)
unfolding beta_encode write_handshake_beta
beta_write a = Writes-then _ _ (write_u32_lem a.client_params.packet_size_in_max) (
    Writes-then _ _ (write_u32_lem a.client_params.packet_size_out_max) (
      Writes-then _ _ (write_u32_lem a.client_nonce) (
        Writes-then _ _ (write_u32_lem a.server_nonce)
          (Writes-then _ _ (write_u32_lem a.server_timestamp) (write_u64_lem a.server_mac)))))

beta_read :
    (a : HandshakeBetaFrame)
    → BetaFits a
    → (rest : List ℕ) (n : ℕ)
    → read_handshake_beta (record { ptr = beta_encode a ++ rest; bytes_read = n })
      ≡ done (a, record { ptr = rest; bytes_read = n + 28 })
unfolding read_handshake_beta beta_encode read_u32 read_u64 be_bytes_u32 be_bytes_u64
beta_read a f rest n =
    rw
      (
        be_u32-be_bytes _ f.0,
        be_u32-be_bytes _ f.1,
        be_u32-be_bytes _ f.2,
        be_u32-be_bytes _ f.3,
        be_u32-be_bytes _ f.4,
        be_u64-be_bytes _ f.5,
      )
      (done_after a rest (omega arith))

beta_total : Takes read_handshake_beta 28
unfolding read_handshake_beta
beta_total = Takes-then _ 4 24 read_u32_total λ a. Takes-then _ 4 20 read_u32_total λ b.
    Takes-then _ 4 16 read_u32_total λ c.
      Takes-then _ 4 12 read_u32_total
        λ d. Takes-then _ 4 8 read_u32_total λ e. Takes-then _ 8 0 read_u64_total λ f. Takes-done _

pub handshake_beta-IsLawful : IsLawful handshake_beta_block BetaFits
unfolding beta_encode be_bytes_u32 be_bytes_u64
handshake_beta-IsLawful = record {
  encode = beta_encode;
  length-encode = λ a. refl;
  write_encodes = beta_write;
  read_decodes = beta_read;
  read_total = beta_total;
}

abbrev pub BetaAckFits : HandshakeBetaAckFrame → Type 0
BetaAckFits a = IsU32 a.client_nonce

beta_ack_encode : HandshakeBetaAckFrame → List ℕ
beta_ack_encode a = status_of_error a.error ∷ be_bytes_u32 a.client_nonce

beta_ack_write :
    (a : HandshakeBetaAckFrame) → Writes (λ wr. write_handshake_beta_ack wr a) (beta_ack_encode a)
unfolding beta_ack_encode write_handshake_beta_ack
beta_ack_write a =
    Writes-then (status_of_error a.error ∷ []) _ (write_u8_lem (status_of_error a.error))
      (write_u32_lem a.client_nonce)

error-status : (e : Option HandshakeErrorKind) → error_of_status (status_of_error e) ≡ e
error-status none = refl
error-status (some capacity) = refl
error-status (some parameter) = refl

beta_ack_read :
    (a : HandshakeBetaAckFrame)
    → BetaAckFits a
    → (rest : List ℕ) (n : ℕ)
    → read_handshake_beta_ack (record { ptr = beta_ack_encode a ++ rest; bytes_read = n })
      ≡ done (a, record { ptr = rest; bytes_read = n + 5 })
unfolding read_handshake_beta_ack beta_ack_encode read_u8 read_u32 be_bytes_u32
beta_ack_read a f rest n =
    rw (be_u32-be_bytes _ f, error-status a.error) (done_after a rest (omega arith))

beta_ack_total : Takes read_handshake_beta_ack 5
unfolding read_handshake_beta_ack
beta_ack_total =
    Takes-then _ 1 4 read_u8_total λ s. Takes-then _ 4 0 read_u32_total λ c. Takes-done _

-- The body is written as five bytes; those of a second reply with a nonce of 32 bits, with or
-- without an error read back as it; and reading where five bytes are left takes just these.
pub handshake_beta_ack-IsLawful : IsLawful handshake_beta_ack_block BetaAckFits
unfolding beta_ack_encode be_bytes_u32
handshake_beta_ack-IsLawful = record {
  encode = beta_ack_encode;
  length-encode = λ a. refl;
  write_encodes = beta_ack_write;
  read_decodes = beta_ack_read;
  read_total = beta_ack_total;
}
