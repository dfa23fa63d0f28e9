-- ===== src/Frame/DatagramSerial/Laws.antt =====
-- About reading and writing datagrams of frame/serial/mod.rs.
use redpine_rs.Common.{
  suc, ap, drop-drop, ℕ, ◌+◌, ◌%◌, ◌^◌, ◌≤◌, ◌<◌, ◌≡◌, refl, ◌∙◌, arith, Bool, true, false, inl,
  inr, Option, none, some, List, [], ◌∷◌, ◌++◌, length, length-append, take, drop, take-append,
  length-take, length-drop, Run, done, ltb, le→leb, le→ltb_false, lt→ltb, ltb_false→le, Bool-cases,
}
use redpine_rs.Common.Word.{IsU32}
use redpine_rs.Frame.{Datagram}
use redpine_rs.Frame.Io.{reader, read_u8, read_u16, read_u32, writer, be_bytes_u16, be_bytes_u32}
use redpine_rs.Frame.Io.BigEndian.{be_u16-be_bytes, be_u32-be_bytes}
use redpine_rs.Frame.Io.Laws.{
  advance, wrote, length-advance, read_u8_total, read_u16_total, read_u32_total, write_u8_lem,
  write_u16_lem, write_u32_lem, write_slice_lem,
}
use redpine_rs.Frame.Block.{has_bit, with_bit}
use redpine_rs.Frame.DatagramSerial.{datagram_read, datagram_write, info_bits, datagram_serial}
use redpine_rs.Frame.Codec.{IsCodec}

-- A read gives `None` or a datagram that lies wholly inside the bytes: nothing panics and nothing
-- is read past their end.
pub data IsRead (src : List ℕ) : Run (Option (Datagram × ℕ)) → Type 0 where
  nothing : IsRead src (done none)
  something :
      (dg : Datagram) (n : ℕ)
      → n ≡ 7 + length dg.bytes
      → n ≤ length src
      → IsRead src (done (some (dg, n)))

data_inside :
    (src : List ℕ) (size : ℕ)
    → 7 + size ≤ length src
    → 7 + size ≡ 7 + length (take size (drop 7 src))
data_inside src size h = omega (arith, length-take size (drop 7 src), length-drop 7 src)

-- Reading a datagram from any bytes neither panics nor leaves them: it gives `None`, or a datagram
-- of seven bytes and its data that lies inside.
pub datagram_read-IsRead : (src : List ℕ) → IsRead src (datagram_read src)
unfolding datagram_read reader advance
datagram_read-IsRead src = elim (Bool-cases (ltb (length src) 7)) [
  | inl short ↦ rw short nothing
  | inr enough ↦
      let len : 7 ≤ length src = ltb_false→le _ _ enough in
      let (info, e1) = read_u8_total (reader src) (omega arith) in
      let (id, e2) =
        read_u32_total (advance 1 (reader src)) (omega (arith, length-advance 1 (reader src))) in
      let (size, e3) =
        read_u16_total (advance 4 (advance 1 (reader src))) (
          omega
            (arith, length-advance 1 (reader src), length-advance 4 (advance 1 (reader src)))) in
      rw (enough, e1)
        (rw e2 (
          rw e3 (elim (Bool-cases (ltb (length src) (7 + size))) [
            | inl over ↦ rw over nothing
            | inr inside ↦ rw inside (
                something _ _ (data_inside src size (ltb_false→le _ _ inside))
                  (ltb_false→le _ _ inside))
          ])))
]

abbrev pub DatagramFits : Datagram → Type 0
DatagramFits dg = IsU32 dg.id × (length dg.bytes < 2 ^ 16)

unfoldable pub encode_datagram : Datagram → List ℕ
encode_datagram dg =
    info_bits dg ∷ be_bytes_u32 dg.id ++ (be_bytes_u16 (length dg.bytes) ++ dg.bytes)

flags_back :
    (unrel first last : Bool)
    → let info = with_bit last 0x04 (with_bit first 0x02 (with_bit unrel 0x01 0)) in
      (has_bit info 0x01 ≡ unrel) × (has_bit info 0x02 ≡ first) × (has_bit info 0x04 ≡ last)
flags_back true true true = (refl, refl, refl)
flags_back true true false = (refl, refl, refl)
flags_back true false true = (refl, refl, refl)
flags_back true false false = (refl, refl, refl)
flags_back false true true = (refl, refl, refl)
flags_back false true false = (refl, refl, refl)
flags_back false false true = (refl, refl, refl)
flags_back false false false = (refl, refl, refl)

drop_header {ℓ} :
    {A : Type ℓ} (n : ℕ) (xs : List A)
    → drop n (drop 2 (drop 4 (drop 1 xs))) ≡ drop (suc (suc (suc (suc (suc (suc (suc n))))))) xs
drop_header n xs =
    let seven : 7 + n ≡ suc (suc (suc (suc (suc (suc (suc n)))))) = omega arith in
    ap (drop n) (drop-drop 2 4 (drop 1 xs) ∙ drop-drop 6 1 xs)
    ∙ drop-drop n 7 xs
    ∙ ap (λ k. drop k xs) seven

-- What a write leaves in a buffer with room for the datagram.
datagram_writes :
    (dg : Datagram)
    → DatagramFits dg
    → (dst : List ℕ) → 7 + length dg.bytes ≤ length dst
    → datagram_write dst dg
      ≡ done
          (some (encode_datagram dg ++ drop (length (encode_datagram dg)) dst, 7 + length dg.bytes))
unfolding datagram_write writer wrote encode_datagram be_bytes_u32 be_bytes_u16
datagram_writes dg f dst h =
    let small : length dg.bytes ≤ 65535 = omega arith in
    let same : length dg.bytes % 2 ^ 16 ≡ length dg.bytes = omega arith in
    let w1 = wrote (info_bits dg ∷ []) (writer dst) in
    let w2 = wrote (be_bytes_u32 dg.id) w1 in
    let w3 = wrote (be_bytes_u16 (length dg.bytes)) w2 in
    rw
      (le→ltb_false _ _ h, le→leb _ _ small, write_u8_lem (info_bits dg) (writer dst) (omega arith))
      (rw (write_u32_lem dg.id w1 (omega (arith, length-drop 1 dst))) (
        rw
          (
            same,
            write_u16_lem (length dg.bytes) w2
                (omega (arith, length-drop 1 dst, length-drop 4 (drop 1 dst))),
          )
          (rw
            (write_slice_lem dg.bytes w3 (
              omega (
                arith,
                length-drop 1 dst,
                length-drop 4 (drop 1 dst),
                length-drop 2 (drop 4 (drop 1 dst)),
              )))
            (rw (drop_header (length dg.bytes) dst)))))

datagram_reads :
    (dg : Datagram)
    → DatagramFits dg
    → (rest : List ℕ)
    → datagram_read (encode_datagram dg ++ rest) ≡ done (some (dg, 7 + length dg.bytes))
unfolding datagram_read reader encode_datagram be_bytes_u32 be_bytes_u16 read_u8 read_u32 read_u16
    info_bits
datagram_reads dg f rest =
    let total : length (encode_datagram dg ++ rest) ≡ 7 + length dg.bytes + length rest =
      omega (arith, length-append dg.bytes rest) in
    let (unrel, first, last) = flags_back dg.unrel dg.first dg.last in
    rw
      (
        le→ltb_false (length (encode_datagram dg ++ rest)) 7 (omega (arith, total)),
        be_u32-be_bytes dg.id f.0,
        be_u16-be_bytes (length dg.bytes) f.1,
        unrel,
        first,
        last,
      )
      (rw (
        le→ltb_false (length (encode_datagram dg ++ rest)) (7 + length dg.bytes)
            (omega (arith, total)),
        take-append (length dg.bytes) dg.bytes rest refl,
      ))

-- A datagram with an id of 32 bits and less than 65536 bytes of data is written to any buffer
-- with room for it, and read back from that buffer, with as many bytes read as were written.
pub datagram_round_trip :
    (dg : Datagram) (dst : List ℕ)
    → DatagramFits dg
    → 7 + length dg.bytes ≤ length dst
    → (written : List ℕ) × (datagram_write dst dg ≡ done (some (written, 7 + length dg.bytes)))
      × (datagram_read written ≡ done (some (dg, 7 + length dg.bytes)))
datagram_round_trip dg dst f h =
    (_, datagram_writes dg f dst h, datagram_reads dg f (drop (length (encode_datagram dg)) dst))

pub datagram_writes_codec :
    (dg : Datagram)
    → DatagramFits dg
    → (dst : List ℕ) → length (encode_datagram dg) ≤ length dst
    → datagram_write dst dg
      ≡ done (
          some (
            encode_datagram dg ++ drop (length (encode_datagram dg)) dst,
            length (encode_datagram dg),
          ))
unfolding encode_datagram be_bytes_u32 be_bytes_u16
datagram_writes_codec dg f dst h =
    datagram_writes dg f dst (omega arith)
    ∙ ap (λ n. done (some (encode_datagram dg ++ drop (length (encode_datagram dg)) dst, n)))
        (omega arith)

pub datagram_write_short :
    (dg : Datagram)
    → DatagramFits dg
    → (dst : List ℕ) → length dst < length (encode_datagram dg)
    → datagram_write dst dg ≡ done none
unfolding datagram_write encode_datagram be_bytes_u32 be_bytes_u16
datagram_write_short dg f dst h = rw (lt→ltb (length dst) (7 + length dg.bytes) (omega arith))

pub datagram_reads_codec :
    (dg : Datagram)
    → DatagramFits dg
    → (rest : List ℕ)
    → datagram_read (encode_datagram dg ++ rest) ≡ done (some (dg, length (encode_datagram dg)))
unfolding encode_datagram be_bytes_u32 be_bytes_u16
datagram_reads_codec dg f rest =
    datagram_reads dg f rest ∙ ap (λ n. done (some (dg, n))) (omega arith)

unfoldable pub datagram-IsCodec : IsCodec datagram_serial DatagramFits
unfolding datagram_serial
datagram-IsCodec = record {
  encode = encode_datagram;
  write_fits = datagram_writes_codec;
  write_short = datagram_write_short;
  read_back = datagram_reads_codec;
}
