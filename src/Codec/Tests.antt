-- ===== src/Codec/Tests.antt =====
-- The call logic of the codec at concrete values.
use net_isdn.Common.{
  ℕ, ◌+◌, ◌^◌, ◌%◌, ◌≡◌, refl, true, false, none, some, List, [], ◌∷◌, length, replicate,
  length-replicate, arith,
}
use net_isdn.Rtp.Orders.{little_endian}
use net_isdn.Rtp.Block.{Fractions}
use net_isdn.Codec.Stats.{CodecStats}
use net_isdn.Codec.Sequence.{
  Receiver, Packet, cleared_receiver, count_loss, follow_number, is_in_turn, is_played,
  receive_packet, receive_packets,
}
use net_isdn.Codec.Sequence.Order.{
  Rising, highest, in_order, numbers_in_order, receive_packets-Rising, receive_packets-in_order,
  receive_packet_roll_over,
}
use net_isdn.Codec.Gpio.{gpio_chunk, line_on, read_private, send_gpio}
use net_isdn.Codec.Gpio.Signals.{follow, follow-read_private, read_private-gpio_chunk}
use net_isdn.Codec.Gpio.{changes}
use net_isdn.Codec.Call.{
  Call, Attempt, speex, no_format, sets_header, init_encoder, connect_to_host, step, new_call, run,
  connecting_to,
}
use net_isdn.Codec.Reports.{Endpoint, reported, generate_packet, last_packet}
use net_isdn.Codec.Reports.Ending.{Ended, last_packet-Ended}
use net_isdn.Codec.Reports.Delivery.{IsEndpoint, Delivered, generate_packet-Delivered}

-- Fractions in parts of 256, rounded down.
abbrev parts256 : Fractions ℕ
parts256 = record { nothing = 0; parts = λ n. n; of_parts = λ n. n; parts-of_parts = λ n h. refl }

abbrev at_source : ℕ → ℕ → Receiver
at_source ssrc number = record cleared_receiver { ssrc = ssrc; sequence_lo_number = number }

-- A packet of source 7 with a header of 12 bytes and a payload of 100.
abbrev of_number : ℕ → Packet
of_number n = record { ssrc = 7; number = n; size = 112; payload = 100 }

third_on : send_gpio 1 3 true 500 ≡ (9, some (3, 500))
unfolding send_gpio line_on
third_on = refl

receive_packets-Rising_example :
    Rising
      (highest (at_source 7 10))
      (receive_packets (at_source 7 10) (of_number 11 ∷ of_number 13 ∷ [])).1
receive_packets-Rising_example =
    receive_packets-Rising (at_source 7 10) (of_number 11 ∷ of_number 13 ∷ [])
      (refl, (omega arith, (refl, (omega arith, tt)))) (omega arith) (omega arith)

receive_packets-in_order_example :
    receive_packets (at_source 7 10) (in_order 7 11 ((112, 100) ∷ (13, 1) ∷ [])) ≡ (
      record (at_source 7 10) { sequence_lo_number = 12 },
      numbers_in_order 0 11 ((112, 100) ∷ (13, 1) ∷ []),
    )
receive_packets-in_order_example =
    receive_packets-in_order (at_source 7 10) ((112, 100) ∷ (13, 1) ∷ [])
      (omega arith, (omega arith, (omega arith, (omega arith, tt)))) (omega arith)

-- A packet of 12 bytes that is all header is not played, and one of 8 bytes is passed over.
header_only :
    receive_packets
      (at_source 7 10)
      (record (of_number 11) { size = 12; payload = 0 } ∷ record (of_number 12) { size = 8 } ∷ [])
    ≡ (record (at_source 7 10) { sequence_lo_number = 11 }, [])
unfolding receive_packets is_played is_in_turn receive_packet count_loss follow_number
header_only = refl

receive_packet_roll_over_example :
    (is_played (at_source 7 65535) 7 0 100 ≡ false)
    × (receive_packet (at_source 7 65535) 7 0 ≡ record (at_source 7 65535) {
      total_packets_lost = (0 + 1) % 2 ^ 32;
      interval_packets_lost = (0 + 1) % 2 ^ 32;
      sequence_lo_number = 0;
      sequence_hi_number = (0 + 1) % 2 ^ 16;
      last_sequence_number = 0;
    })
receive_packet_roll_over_example = receive_packet_roll_over (at_source 7 65535) 100 refl

follow-read_private_example :
    follow (read_private 5 (gpio_chunk 6)).0 (line_on 5) 1
    ≡ line_on (read_private 5 (gpio_chunk 6)).1 1
follow-read_private_example = follow-read_private 5 (gpio_chunk 6) 1 (omega arith)

read_private-gpio_chunk_example : read_private 5 (gpio_chunk 6) ≡ (changes 6 5 0 32, 6)
read_private-gpio_chunk_example = read_private-gpio_chunk 5 6 (omega arith)

abbrev no_stats : CodecStats ℕ
no_stats = record {
  transmit_cname = [];
  reception_cname = [];
  transmit_ssrc = 0;
  reception_ssrc = 0;
  name = [];
  email = [];
  phone = [];
  location = [];
  tool = [];
  note = [];
  transmit_packets_sent = 0;
  transmit_packets_lost = 0;
  transmit_fraction_lost = 0;
  reception_packets_sent = 0;
  reception_packets_received = 0;
  reception_packets_lost = 0;
  reception_pll_offset = 0;
  transmit_cpu_load = 0;
  transmit_gpio_mask = 0;
  reception_gpio_mask = 0;
}

-- A side with the name "ab" and two lines on.
abbrev side : Endpoint ℕ
side = record {
  ssrc = 9;
  transmit_cname = 97 ∷ 98 ∷ [];
  transmit_packets = 4;
  transmit_octets = 600;
  trans_gpio = 6;
  recv_gpio = 5;
  pll_offset = 0;
  receiver = at_source 7 10;
  stats = no_stats;
}

side-IsEndpoint : IsEndpoint side
side-IsEndpoint = record {
  ssrc = omega arith;
  packets = omega arith;
  octets = omega arith;
  lines = omega arith;
  hi = omega arith;
  cname_length = omega arith;
  cname_bytes = (omega arith, (omega arith, tt));
  cname_text = (omega arith, (omega arith, tt));
}

abbrev zeros : List ℕ
zeros = replicate 100 0

abbrev no_ratio : ℕ → ℕ → ℕ
no_ratio a b = 0

generate_packet-Delivered_example :
    (n : ℕ) × (e : List ℕ) × (generate_packet parts256 little_endian no_ratio 1000 side zeros
        (length zeros)
      ≡ some (n, e, record side { receiver = reported side.receiver }))
    × Delivered parts256 little_endian no_ratio side side 1000 n e
generate_packet-Delivered_example =
    generate_packet-Delivered parts256 little_endian no_ratio side side 1000 zeros side-IsEndpoint
      (omega arith) (omega arith)

-- The array of `disconnect`.
abbrev packet_array : List ℕ
packet_array = replicate 1500 0

last_packet-Ended_example :
    (n : ℕ) × (e : List ℕ) × (last_packet parts256 little_endian no_ratio 1000 side packet_array
      ≡ some (n, e, record side { receiver = reported side.receiver }))
    × Ended parts256 little_endian no_ratio side side n e
last_packet-Ended_example =
    last_packet-Ended parts256 little_endian no_ratio side side 1000 packet_array side-IsEndpoint
      (omega arith) (length-replicate {A = ℕ} 1500 0)

abbrev placed : Attempt
placed = record {
  format = speex;
  sample_rate = 16000;
  bound = true;
  addressed = true;
  opened = true;
}

-- A first connection without a format uses a null header.
no_header : run new_call (connecting_to (record placed { format = no_format }) ∷ []) ≡ none
unfolding run step connect_to_host init_encoder sets_header
no_header = refl
