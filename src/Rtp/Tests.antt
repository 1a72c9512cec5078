-- ===== src/Rtp/Tests.antt =====
-- The RTCP packets at concrete contents, on a little-endian host.
use net_isdn.Common.{
  ℕ, ◌+◌, ◌-◌, ◌*◌, ◌≡◌, refl, true, false, none, some, List, [], ◌∷◌, replicate, map, arith,
}
use net_isdn.Rtp.Orders.{little_endian}
use net_isdn.Rtp.Bye.{RtpBye, add_ssrc, read_bye, write_bye}
use net_isdn.Rtp.Bye.RoundTrip.{IsBye, read_bye-write_bye, read_bye_padded}
use net_isdn.Rtp.Block.{Fractions, ReceptionBlock}
use net_isdn.Rtp.Block.RoundTrip.{IsBlock}
use net_isdn.Rtp.Sender.{
  SenderReport, blocks_sent, add_reception_block, new_report, read_sender_report,
  write_sender_report,
}
use net_isdn.Rtp.Sender.RoundTrip.{IsReport, received_report, read_sender_report-write}
use net_isdn.Rtp.Wire.{load}
use net_isdn.Rtp.Source.{
  SourceDescription, total_size, until_nul, chunk_string, read_source, write_source,
}
use net_isdn.Rtp.Source.Layout.{received_chunk}
use net_isdn.Rtp.Source.RoundTrip.{IsSource, read_source-write_source}
use net_isdn.Rtp.Compound.{new_control_header, read_control, read_packets}
use net_isdn.Rtp.Compound.RoundTrip.{read_packets-enough, received, read_control-written}
use net_isdn.Rtp.Reception.{
  ReceptionReport, cleared_reception, read_reception_report, write_reception_report,
}
use net_isdn.Rtp.Reception.Refused.{IsReception, read_reception_report-write}

-- Fractions in parts of 256.
abbrev parts256 : Fractions ℕ
parts256 = record { nothing = 0; parts = λ n. n; of_parts = λ n. n; parts-of_parts = λ n h. refl }

abbrev zeros : List ℕ
zeros = replicate 16 0

abbrev two_left : RtpBye
two_left = record { version = 2; padding_bit = false; ssrcs = 7 ∷ 4000000000 ∷ [] }

two_left-IsBye : IsBye two_left
two_left-IsBye = record {
  version = omega arith;
  count = omega arith;
  ssrcs = (omega arith, (omega arith, tt));
}

added : (add_ssrc two_left 9).1.ssrcs ≡ 7 ∷ 4000000000 ∷ 9 ∷ []
unfolding add_ssrc
added = refl

read_bye-write_bye_example :
    ((write_bye little_endian two_left zeros 1 16).0 ≡ 3)
    × (read_bye little_endian (write_bye little_endian two_left zeros 1 16).1 1
        ≡ some (3, record two_left { padding_bit = false }))
read_bye-write_bye_example =
    read_bye-write_bye little_endian two_left zeros 1 16 two_left-IsBye (omega arith) (omega arith)
      refl

abbrev padded : RtpBye
padded = record { version = 2; padding_bit = true; ssrcs = 7 ∷ [] }

padded-IsBye : IsBye padded
padded-IsBye = record { version = omega arith; count = omega arith; ssrcs = (omega arith, tt) }

read_bye_padded_example :
    read_bye little_endian (write_bye little_endian padded zeros 0 16).1 0 ≡ none
read_bye_padded_example =
    read_bye_padded little_endian padded zeros 0 16 padded-IsBye (omega arith) (omega arith) refl
      (omega arith) (omega arith)

abbrev block : ReceptionBlock ℕ
block = record {
  ssrc = 5;
  fraction_packets_lost = 200;
  cumulative_packets_lost = 5000;
  highest_sequence_number = 70000;
  interarrival_jitter = 12;
  last_send_report_timestamp = 99;
  send_report_delay = 3;
}

block-IsBlock : IsBlock block
block-IsBlock = record {
  ssrc = omega arith;
  highest = omega arith;
  jitter = omega arith;
  last_report = omega arith;
  delay = omega arith;
}

abbrev report : SenderReport ℕ
report = record {
  version = 2;
  padding_bit = false;
  ssrc = 7;
  ntp_timestamp = 12345678901234567890;
  rtp_timestamp = 160;
  sender_packet_count = 3;
  sender_octet_count = 480;
  reception_blocks = block ∷ [];
}

report-IsReport : IsReport report
report-IsReport = record {
  version = omega arith;
  ssrc = omega arith;
  ntp = omega arith;
  stamp = omega arith;
  packets = omega arith;
  octets = omega arith;
  count = omega arith;
  blocks = (block-IsBlock, tt);
}

block_added : (add_reception_block (new_report 7 2) block).1.reception_blocks ≡ block ∷ []
unfolding add_reception_block
block_added = refl

read_sender_report-write_example :
    ((write_sender_report parts256 little_endian report zeros 0 16).0 ≡ 13)
    × (read_sender_report parts256 little_endian
          (write_sender_report parts256 little_endian report zeros 0 16).1
          0
        ≡ some (13, received_report parts256 little_endian report))
unfolding blocks_sent
read_sender_report-write_example =
    read_sender_report-write parts256 little_endian report zeros 0 16 report-IsReport refl
      (omega arith) (omega arith)

abbrev reception : ReceptionReport ℕ
reception = record { version = 2; padding_bit = false; ssrc = 7; reception_blocks = block ∷ [] }

reception-IsReception : IsReception reception
reception-IsReception = record {
  version = omega arith;
  ssrc = omega arith;
  count = omega arith;
  blocks = (block-IsBlock, tt);
}

read_reception_report-write_example :
    read_reception_report parts256 little_endian
      (write_reception_report parts256 little_endian reception zeros 0 16).1
      0
    ≡ some (0, cleared_reception)
unfolding blocks_sent
read_reception_report-write_example =
    read_reception_report-write parts256 little_endian reception zeros 0 16 reception-IsReception
      (omega arith) refl (omega arith) (omega arith) ((λ e. absurd (omega (arith, e))), tt)

-- A description with the name "ab" and a tool of no characters.
abbrev description : SourceDescription
description = record {
  version = 2;
  padding_bit = false;
  chunks =
      record { type = 1; length = 2; string = 97 ∷ 98 ∷ [] }
      ∷ record { type = 6; length = 0; string = [] }
      ∷ [];
  ssrcs = 7 ∷ 7 ∷ [];
}

description-IsSource : IsSource description
description-IsSource = record {
  version = omega arith;
  some_chunk = omega arith;
  count = omega arith;
  chunks = (
    record {
      type = omega arith;
      length = omega arith;
      string = omega arith;
      bytes = (omega arith, (omega arith, tt));
    },
    (record { type = omega arith; length = omega arith; string = omega arith; bytes = tt }, tt),
  );
  some_ssrc = omega arith;
}

not_ended : chunk_string description 0 ≡ none
unfolding chunk_string until_nul
not_ended = refl

read_source-write_source_example :
    (e : List ℕ) × (v : ℕ) × (write_source little_endian description zeros 1 12 ≡ some (6, e))
    × (load little_endian e 3 ≡ some v)
    × (read_source little_endian e 1
        ≡ some (
          6,
          record {
            version = 2;
            padding_bit = false;
            chunks = map received_chunk description.chunks;
            ssrcs = replicate 3 v;
          },
        ))
unfolding total_size
read_source-write_source_example =
    read_source-write_source little_endian description zeros 1 12 description-IsSource (omega arith)
      (omega arith)

abbrev more_zeros : List ℕ
more_zeros = replicate 32 0

read_control-written_example :
    (e : List ℕ) × (v : ℕ) × (write_source little_endian description
        (write_sender_report parts256 little_endian report more_zeros 0 32).1
        (write_sender_report parts256 little_endian report more_zeros 0 32).0
        (32 - (write_sender_report parts256 little_endian report more_zeros 0 32).0)
      ≡ some (total_size description.chunks, e))
    × (load little_endian e (7 + 6 * blocks_sent 1 + 2) ≡ some v)
    × (read_control parts256 little_endian
          (new_control_header 2)
          e
          (4 * (7 + 6 * blocks_sent 1 + total_size description.chunks))
        ≡ some (received parts256 little_endian 2 report description v))
unfolding total_size blocks_sent
read_control-written_example =
    read_control-written parts256 little_endian report description more_zeros 2 32 report-IsReport
      refl description-IsSource refl refl (omega arith) (omega arith) (omega arith)

read_packets-enough_example :
    read_packets parts256 little_endian 16 (new_control_header 2) zeros 16 0 0
    ≡ read_packets parts256 little_endian 20 (new_control_header 2) zeros 16 0 0
read_packets-enough_example =
    read_packets-enough parts256 little_endian 16 20 (new_control_header 2) zeros 16 0 0
      (omega arith) (omega arith)
