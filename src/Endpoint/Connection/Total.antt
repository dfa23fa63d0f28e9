-- ===== src/Endpoint/Connection/Total.antt =====
-- About the datagrams that endpoint/mod.rs reads from the segments of another host.
use mathlib.Core.List.{map-append}
use redpine_rs.Common.{
  ℕ, zero, suc, ◌+◌, ◌-◌, ◌≤◌, ◌<◌, ◌≡◌, refl, sym, ◌∙◌, ◌⊎◌, inl, inr, Option, none, some, List,
  [], ◌∷◌, ◌++◌, map, append_assoc, arith, Bool-cases, Run, done, length, take, drop, length-drop,
  append-nil, length-take,
}
use redpine_rs.Frame.DatagramSerial.{datagram_serial, datagram_read}
use redpine_rs.Frame.DatagramSerial.Laws.{IsRead, nothing, something, datagram_read-IsRead}
use redpine_rs.Frame.Envelope.{payload_reader, payload_read}
use redpine_rs.Frame.Envelope.Writing.{slice_lem}
use redpine_rs.Endpoint.Host.{Host, on_receive}
use redpine_rs.Frame.{Datagram}
use redpine_rs.Endpoint.Connection.Receiving.{
  Inbox, deliver, receive_datagram, receive_datagrams, receive_segments,
}

-- From one inbox to the next nothing but packets for the program came up.
pub record Delivered (before after : Inbox) : Type 0 where
  pub packets : List (List ℕ)
  pub calls_lem : after.host.calls ≡ before.host.calls ++ map on_receive packets
  pub draws_lem : after.host.draws ≡ before.host.draws

Delivered-refl : (inbox : Inbox) → Delivered inbox inbox
Delivered-refl inbox = record {
  packets = [];
  calls_lem = sym (append-nil inbox.host.calls);
  draws_lem = refl;
}

Delivered-trans :
    {before between after : Inbox}
    → Delivered before between
    → Delivered between after
    → Delivered before after
Delivered-trans {before} first second = record {
  packets = first.packets ++ second.packets;
  calls_lem =
      second.calls_lem
      ∙ rw
          (
            first.calls_lem,
            append_assoc before.host.calls (map on_receive first.packets)
                (map on_receive second.packets),
            map-append on_receive first.packets second.packets,
          )
          refl;
  draws_lem = second.draws_lem ∙ first.draws_lem;
}

abbrev packets_of : Option (List ℕ) → List (List ℕ)
packets_of none = []
packets_of (some packet) = packet ∷ []

deliver-packets_of :
    (packet : Option (List ℕ)) (host : Host)
    → ((deliver packet host).calls ≡ host.calls ++ map on_receive (packets_of packet))
      × ((deliver packet host).draws ≡ host.draws)
deliver-packets_of none host = (sym (append-nil host.calls), refl)
deliver-packets_of (some packet) host = (refl, refl)

receive_datagram-Delivered :
    (dg : Datagram) (inbox : Inbox) → Delivered inbox (receive_datagram dg inbox)
unfolding receive_datagram
receive_datagram-Delivered dg inbox = elim (Bool-cases dg.unrel) [
  | inl unrel ↦ rw unrel (
      let (calls, draws) = deliver-packets_of _ inbox.host in
      record { packets = _; calls_lem = calls; draws_lem = draws })
  | inr rel ↦ rw rel (
      let (calls, draws) = deliver-packets_of _ inbox.host in
      record { packets = _; calls_lem = calls; draws_lem = draws })
]

-- What a datagram is read as: none, or one of seven bytes or more that lies inside.
datagram_read_cases :
    (src : List ℕ)
    → (datagram_read src ≡ done none)
      ⊎ ((dg : Datagram) × (n : ℕ) × (datagram_read src ≡ done (some (dg, n)))
          × (7 ≤ n)
          × (n ≤ length src))
datagram_read_cases src = by_case (datagram_read-IsRead src) refl
  where
    by_case :
        {result : Run (Option (Datagram × ℕ))}
        → IsRead src result
        → datagram_read src ≡ result
        → (datagram_read src ≡ done none)
          ⊎ ((dg : Datagram) × (n : ℕ) × (datagram_read src ≡ done (some (dg, n)))
              × (7 ≤ n)
              × (n ≤ length src))
    by_case nothing e = inl e
    by_case (something dg n size inside) e = inr (dg, n, e, omega arith, inside)

receive_datagrams-Delivered :
    (rounds : ℕ) (buffer : List ℕ) (read_idx : ℕ) (inbox : Inbox)
    → read_idx ≤ length buffer
    → length buffer < read_idx + rounds
    → (after : Inbox) × (receive_datagrams rounds
          (record { buffer = buffer; read_idx = read_idx })
          inbox
        ≡ done after)
      × Delivered inbox after
unfolding receive_datagrams payload_read datagram_serial
receive_datagrams-Delivered zero buffer read_idx inbox h k = absurd (omega arith)
receive_datagrams-Delivered (suc rounds) buffer read_idx inbox h k =
    let src = take (length buffer - read_idx) (drop read_idx buffer) in
    rw (slice_lem buffer read_idx (length buffer) h (omega arith)) (elim (datagram_read_cases src) [
      | inl over ↦ rw over (inbox, refl, Delivered-refl inbox)
      | inr (dg, n, e, seven, inside) ↦
          let (after, last, rest) =
            receive_datagrams-Delivered rounds buffer (read_idx + n) (receive_datagram dg inbox)
              (omega (
                arith,
                length-take (length buffer - read_idx) (drop read_idx buffer),
                length-drop read_idx buffer,
              ))
              (omega arith) in
          rw e (after, last, Delivered-trans (receive_datagram-Delivered dg inbox) rest)
    ])

-- Whatever bytes another host has sent: taking the datagrams from the segments delivered comes to
-- an end without a panic, and asks nothing of the program but to take packets.
pub receive_segments-Delivered :
    (segments : List (List ℕ)) (inbox : Inbox)
    → (after : Inbox) × (receive_segments segments inbox ≡ done after) × Delivered inbox after
unfolding receive_segments payload_reader
receive_segments-Delivered [] inbox = (inbox, refl, Delivered-refl inbox)
receive_segments-Delivered (segment_bytes ∷ rest) inbox =
    let (between, first, one) =
      receive_datagrams-Delivered (length segment_bytes + 1) segment_bytes 0 inbox (omega arith)
        (omega arith) in
    let (after, last, others) = receive_segments-Delivered rest between in
    (after, rw first last, Delivered-trans one others)
