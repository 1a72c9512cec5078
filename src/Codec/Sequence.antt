-- ===== src/Codec/Sequence.antt =====
-- The order of the packets received, as the loop of `AudioOutputCallback` in lib/codec.cpp keeps it.
pub mod Order
use net_isdn.Common.{
  ℕ, zero, suc, ◌+◌, ◌-◌, ◌*◌, ◌%◌, ◌^◌, Bool, true, false, not, ◌&&◌, List, [], ◌∷◌, ltb, ◌==◌,
  if◌then◌else◌,
}

-- The `codec_recv_…` members.
pub record Receiver : Type 0 where
  pub ssrc : ℕ
  pub total_packets_lost : ℕ
  pub interval_packets_lost : ℕ
  pub sequence_lo_number : ℕ
  pub sequence_hi_number : ℕ
  pub last_sequence_number : ℕ
  pub start_sequence_number : ℕ
  pub ntp_timestamp : ℕ
  pub start_packet_count : ℕ

-- `InitAudioInterface` and the constructor.
abbrev pub cleared_receiver : Receiver
cleared_receiver = record {
  ssrc = 0;
  total_packets_lost = 0;
  interval_packets_lost = 0;
  sequence_lo_number = 0;
  sequence_hi_number = 0;
  last_sequence_number = 0;
  start_sequence_number = 0;
  ntp_timestamp = 0;
  start_packet_count = 0;
}

-- A packet that is neither the next nor the last one counts as a loss.
unfoldable pub count_loss : Receiver → ℕ → Receiver
count_loss r number =
    if number == r.sequence_lo_number + 1
    then r
    else if number == r.sequence_lo_number
    then r
    else record r {
      total_packets_lost = (r.total_packets_lost + 1) % 2 ^ 32;
      interval_packets_lost = (r.interval_packets_lost + 1) % 2 ^ 32;
    }

-- A lower number by more than 0xff00 means that the numbers rolled over.
unfoldable pub rolled_over : Receiver → ℕ → Bool
rolled_over r number = ltb 0xff00 r.sequence_lo_number && ltb number (r.sequence_lo_number - 0xff00)

-- The highest number received.
unfoldable pub follow_number : Receiver → ℕ → Receiver
follow_number r number =
    if ltb r.sequence_lo_number number
    then record r { sequence_lo_number = number }
    else if rolled_over r number
    then record r {
      sequence_lo_number = number;
      sequence_hi_number = (r.sequence_hi_number + 1) % 2 ^ 16;
      last_sequence_number = 0;
    }
    else r

-- The first packet of another source.
unfoldable pub change_source : Receiver → ℕ → ℕ → Receiver
change_source r ssrc number = record r {
  ssrc = ssrc;
  total_packets_lost = 0;
  interval_packets_lost = 0;
  sequence_lo_number = number;
  last_sequence_number = number;
  start_sequence_number = number;
  ntp_timestamp = 0;
  start_packet_count = 0;
}

-- Whether a packet is in its turn: the next one, and a higher number or the first after the numbers
-- rolled over.
unfoldable pub is_in_turn : Receiver → ℕ → ℕ → Bool
is_in_turn r ssrc number =
    if ssrc == r.ssrc
    then number == r.sequence_lo_number + 1
      && (if ltb r.sequence_lo_number number then true else rolled_over r number)
    else true

-- Whether the payload of a packet is decoded: `flen` is not 0, which is the length of the payload for
-- a packet in its turn and 0 for the others.
unfoldable pub is_played : Receiver → ℕ → ℕ → ℕ → Bool
is_played r ssrc number payload = is_in_turn r ssrc number && ltb 0 payload

-- A packet of source `ssrc` and number `number`.
unfoldable pub receive_packet : Receiver → ℕ → ℕ → Receiver
receive_packet r ssrc number =
    if ssrc == r.ssrc
    then follow_number (count_loss r number) number
    else change_source r ssrc number

-- A packet as the loop has it: the source and the number of `hdr` after its `readBlock`, the `n` bytes
-- read, and `n-l`, the length of the payload as an `unsigned`.
pub record Packet : Type 0 where
  pub ssrc : ℕ
  pub number : ℕ
  pub size : ℕ
  pub payload : ℕ

-- `RTPHEADER_MIN_SIZE`
abbrev pub rtpheader_min_size : ℕ
rtpheader_min_size = 8

-- The packets of a pass of the loop: the receiver after them, and the numbers of the packets whose
-- payload was decoded, each with the number of roll-overs before it. A packet that is no longer than
-- the least header is passed over.
unfoldable pub receive_packets : Receiver → List Packet → Receiver × List (ℕ × ℕ)
receive_packets r [] = (r, [])
receive_packets r (p ∷ ps) =
    let seen = ltb rtpheader_min_size p.size in
    let next = if seen then receive_packet r p.ssrc p.number else r in
    let (last, played) = receive_packets next ps in
    (
      last,
      if seen && is_played r p.ssrc p.number p.payload
          then (next.sequence_hi_number, p.number) ∷ played
          else played,
    )
