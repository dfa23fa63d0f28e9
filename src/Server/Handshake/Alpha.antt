-- ===== src/Server/Handshake/Alpha.antt =====
-- About the first half of the handshake in server/mod.rs: from a client's first frame to the server's
-- answer, and to the cookie that comes back.
use redpine_rs.Common.{
  length-replicate, ℕ, zero, suc, ◌+◌, ◌-◌, ◌%◌, ◌^◌, ◌≤◌, ◌≡◌, refl, sym, ap, ◌∙◌, subst, true,
  some, List, [], ◌∷◌, ◌++◌, append_assoc, arith, ltb, ◌==◌, le→leb, ==-self, done, length, take,
  length-append, replicate,
}
use redpine_rs.Common.Word.{wrapping_sub, IsU32, IsU64}
use redpine_rs.Frame.{
  FrameType, ConnectionParams, HandshakeAlphaFrame, HandshakeAlphaAckFrame, HandshakeBetaFrame,
  handshake_alpha, handshake_alpha_ack,
}
use redpine_rs.Frame.Envelope.Carries.{Carries, simple_write-Carries}
use redpine_rs.Frame.Crc.{compute}
use redpine_rs.Frame.Block.Handshake.{
  handshake_alpha-IsLawful, handshake_alpha_ack-IsLawful, AlphaFits,
}
use redpine_rs.Frame.Envelope.{
  verify_handshake_alpha_size_and_crc, verify_minimum_size, verify_crc, read_type, payload,
  simple_read, simple_write, frame_size, write_handshake_alpha, type_bits, to_le_bytes,
}
use redpine_rs.Frame.Envelope.Writing.{slice_lem}
use redpine_rs.Frame.Envelope.Reading.{frame_of}
use redpine_rs.Frame.Envelope.Simple.{
  handshake_alpha_frame, handshake_alpha_ack_frame, write_handshake_alpha-padded,
  simple_read-encode, write_handshake_alpha-verified,
}
use redpine_rs.Server.Handshake.{
  alpha_ack, answer_alpha, handle_handshake_alpha, beta_is_valid, handshake_timeout_ms,
}

take-append_more {ℓ} :
    {A : Type ℓ} (n : ℕ) (xs ys : List A)
    → length xs ≤ n
    → take n (xs ++ ys) ≡ xs ++ take (n - length xs) ys
take-append_more n [] ys h = ap (λ k. take k ys) (omega arith)
take-append_more zero (x ∷ xs) ys h = absurd (omega arith)
take-append_more (suc n) (x ∷ xs) ys h =
    ap (λ r. x ∷ r)
      (take-append_more n xs ys (omega arith) ∙ ap (λ k. xs ++ take k ys) (omega arith))

-- The payload of a frame with more bytes behind it begins with the frame's body.
payload_padded :
    (t : FrameType) (body rest : List ℕ)
    → (tail : List ℕ) × (payload (frame_of t body ++ rest) ≡ done (body ++ tail))
unfolding payload verify_minimum_size
payload_padded t body rest =
    let crc = to_le_bytes (compute (type_bits t ∷ body)) in
    let whole : length (frame_of t body ++ rest) ≡ 5 + length body + length rest =
      omega (arith, length-append (frame_of t body) rest, length-append body crc) in
    let behind = append_assoc body crc rest in
    (
      take (length (frame_of t body ++ rest) - 4 - 1 - length body) (crc ++ rest),
      rw
          (
            le→leb 5 (length (frame_of t body ++ rest)) (omega arith),
            le→leb 4 (length (frame_of t body ++ rest)) (omega arith),
          )
          (slice_lem (frame_of t body ++ rest) 1 (length (frame_of t body ++ rest) - 4)
              (omega arith) (omega arith)
            ∙ ap done (
                ap (λ l. take (length (frame_of t body ++ rest) - 4 - 1) l) behind
                ∙ take-append_more (length (frame_of t body ++ rest) - 4 - 1) body (crc ++ rest)
                    (omega arith))),
    )

-- The frame of a client that sends back what it was told.
abbrev pub echo : HandshakeAlphaAckFrame → ConnectionParams → HandshakeBetaFrame
echo ack client_params = record {
  client_params = client_params;
  client_nonce = ack.client_nonce;
  server_nonce = ack.server_nonce;
  server_timestamp = ack.server_timestamp;
  server_mac = ack.server_mac;
}

done-injective : {a b : List ℕ} → done a ≡ done b → a ≡ b
done-injective e = cc

module _ {Addr : Type 0} (mac : Addr → ℕ → ℕ → ℕ → ℕ) where
  answer_alpha_lem :
      (frame : HandshakeAlphaFrame) (sender_addr : Addr) (server_nonce now_ms : ℕ) (reply : List ℕ)
      → frame.protocol_id ≡ 0
      → simple_write handshake_alpha_ack_frame
          (alpha_ack mac frame sender_addr server_nonce now_ms)
          (replicate {A = ℕ} (frame_size handshake_alpha_ack_frame) 0)
        ≡ done reply
      → answer_alpha mac (some frame) sender_addr server_nonce now_ms ≡ done (some reply)
  unfolding answer_alpha
  answer_alpha_lem frame sender_addr server_nonce now_ms reply e written =
      let test : (frame.protocol_id == 0) ≡ true = rw e refl in rw test (rw written refl)

  pub echo_valid :
      (frame : HandshakeAlphaFrame) (sender_addr : Addr) (server_nonce now_ms later_ms : ℕ)
      (client_params : ConnectionParams)
      → beta_is_valid mac
          (echo (alpha_ack mac frame sender_addr server_nonce now_ms) client_params)
          sender_addr
          later_ms
        ≡ ltb (wrapping_sub (later_ms % 2 ^ 32) (now_ms % 2 ^ 32)) handshake_timeout_ms
  unfolding beta_is_valid alpha_ack
  echo_valid frame sender_addr server_nonce now_ms later_ms client_params =
      rw (==-self (mac sender_addr frame.client_nonce server_nonce (now_ms % 2 ^ 32))) refl

  -- The request of a client, and the answer that it gets.
  pub handle_handshake_alpha-Carries :
      (frame : HandshakeAlphaFrame) (sender_addr : Addr) (server_nonce now_ms : ℕ)
      → frame.protocol_id ≡ 0
      → IsU32 frame.client_nonce
      → IsU32 server_nonce
      → ((timestamp : ℕ) → IsU64 (mac sender_addr frame.client_nonce server_nonce timestamp))
      → (request reply : List ℕ) × (write_handshake_alpha frame 1472 ≡ done request)
        × (verify_minimum_size request ≡ true)
        × (read_type request ≡ done (some handshake_alpha))
        × (handle_handshake_alpha mac request sender_addr server_nonce now_ms ≡ done (some reply))
        × Carries handshake_alpha_ack_frame
            (alpha_ack mac frame sender_addr server_nonce now_ms)
            reply
  unfolding handle_handshake_alpha alpha_ack verify_minimum_size
  handle_handshake_alpha-Carries frame sender_addr server_nonce now_ms e nonce drawn macs =
      let ack = alpha_ack mac frame sender_addr server_nonce now_ms in
      let fits : AlphaFits frame = (rw e (omega arith), nonce) in
      let first = frame_of handshake_alpha (handshake_alpha-IsLawful.encode frame) in
      let zeros : List ℕ = replicate (1472 - 11) 0 in
      let request = first ++ zeros in
      let made : write_handshake_alpha frame 1472 ≡ done request =
        write_handshake_alpha-padded frame 1472 fits (omega arith) in
      let (buffer, same, verified, type) =
        write_handshake_alpha-verified frame 1472 fits (omega arith) in
      let same_bytes : buffer ≡ request = done-injective (sym same ∙ made) in
      let (tail, paid) =
        payload_padded handshake_alpha (handshake_alpha-IsLawful.encode frame) zeros in
      let (reply, written, carries) =
        simple_write-Carries handshake_alpha_ack_frame handshake_alpha_ack-IsLawful ack
          (replicate {A = ℕ} (frame_size handshake_alpha_ack_frame) 0)
          (omega arith, omega arith, nonce, drawn, omega arith, macs (now_ms % 2 ^ 32))
          (omega arith) (omega arith) in
      let checked : verify_handshake_alpha_size_and_crc request 1472 ≡ done true =
        subst (λ b. verify_handshake_alpha_size_and_crc b 1472 ≡ done true) same_bytes verified in
      (
        request,
        reply,
        made,
        le→leb 5 (length request) (
            omega (
              arith,
              length-append first zeros,
              length-replicate (1472 - 11) (let z : ℕ = 0 in z),
            )),
        subst (λ b. read_type b ≡ done (some handshake_alpha)) same_bytes type,
        rw (checked, paid)
            (rw (simple_read-encode handshake_alpha_frame handshake_alpha-IsLawful frame tail fits)
              (answer_alpha_lem frame sender_addr server_nonce now_ms reply e written)),
        carries,
      )

  -- A client's first frame, with the protocol's id and a 32-bit nonce, comes to the server, which has
  -- drawn a 32-bit nonce of its own; the MACs of this client are 64-bit numbers. Then the server
  -- answers, and the client can check the answer and read it: it is made for this client and this
  -- time. The client's next frame, which sends back what it read, is valid for the server as long as
  -- its clock of 32 bits has gone on by less than 10000 milliseconds, and not after that.
  pub handle_handshake_alpha-answers :
      (frame : HandshakeAlphaFrame) (sender_addr : Addr) (server_nonce now_ms later_ms : ℕ)
      (client_params : ConnectionParams)
      → frame.protocol_id ≡ 0
      → IsU32 frame.client_nonce
      → IsU32 server_nonce
      → ((timestamp : ℕ) → IsU64 (mac sender_addr frame.client_nonce server_nonce timestamp))
      → (request reply body : List ℕ) × (ack : HandshakeAlphaAckFrame) × (write_handshake_alpha
            frame 1472
          ≡ done request)
        × (handle_handshake_alpha mac request sender_addr server_nonce now_ms ≡ done (some reply))
        × (verify_minimum_size reply ≡ true)
        × (verify_crc reply ≡ done true)
        × (read_type reply ≡ done (some handshake_alpha_ack))
        × (payload reply ≡ done body)
        × (simple_read handshake_alpha_ack_frame body ≡ done (some ack))
        × (ack.client_nonce ≡ frame.client_nonce)
        × (beta_is_valid mac (echo ack client_params) sender_addr later_ms
            ≡ ltb (wrapping_sub (later_ms % 2 ^ 32) (now_ms % 2 ^ 32)) handshake_timeout_ms)
  unfolding alpha_ack
  handle_handshake_alpha-answers frame sender_addr server_nonce now_ms later_ms client_params e
        nonce drawn macs =
      let (request, reply, made, minimum, type, answered, carries) =
        handle_handshake_alpha-Carries frame sender_addr server_nonce now_ms e nonce drawn macs in
      (
        request,
        reply,
        carries.body,
        alpha_ack mac frame sender_addr server_nonce now_ms,
        made,
        answered,
        carries.minimum_size,
        carries.crc,
        carries.type,
        carries.paid,
        carries.reads,
        refl,
        echo_valid frame sender_addr server_nonce now_ms later_ms client_params,
      )
