-- ===== src/Rtp/Header/Tests.antt =====
-- The header at concrete packets, on a little-endian host.
use net_isdn.Common.{
  ℕ, ◌+◌, ◌*◌, ◌%◌, ◌^◌, ◌≡◌, refl, true, false, some, List, [], ◌∷◌, arith, replicate,
}
use net_isdn.Rtp.Orders.{little_endian}
use net_isdn.Rtp.Header.{RtpHeader, clear, create, first_word, read_block, write_block, remove_csrc}
use net_isdn.Rtp.Header.Fields.{Fits, rfc_word, first_word_rfc}
use net_isdn.Rtp.Header.RoundTrip.{read_block-write_block, read_block_many_csrcs}
use net_isdn.Rtp.Header.Total.{Parsed, read_block-Parsed, after, after_lem}

abbrev counter : ℕ → ℕ × ℕ
counter s = (s + 77, s + 1)

abbrev fresh : RtpHeader
fresh = create counter 5 96 2

create_fresh : fresh.sequence_number ≡ 82
unfolding create clear
create_fresh = refl

-- A packet of dynamic type 96 with `n` sources.
abbrev packet : List ℕ → RtpHeader
packet csrcs = record {
  version = 2;
  padding_bit = true;
  extension_bit = true;
  marker_bit = true;
  payload_type = 96;
  sequence_number = 65535;
  timestamp = 4294967000;
  timestamp_interval = 480;
  ssrc = 7;
  random_seedp = 3;
  csrcs = csrcs;
}

abbrev two : RtpHeader
two = packet (11 ∷ 12 ∷ [])

abbrev eight : RtpHeader
eight = packet (replicate 8 5)

two-Fits : Fits two
two-Fits = omega arith

eight-Fits : Fits eight
eight-Fits = omega arith

abbrev zeros : List ℕ
zeros = replicate 20 0

first_word-two : first_word two ≡ 0x92e0ffff
unfolding first_word
first_word-two = refl

first_goes : remove_csrc two 1 ≡ some (packet (12 ∷ []))
unfolding remove_csrc
first_goes = refl

first_word_rfc_example : first_word two ≡ rfc_word 2 0 1 2 1 96 65535
first_word_rfc_example = first_word_rfc two two-Fits

read_block-write_block_example :
    ((write_block little_endian two zeros 20).0 ≡ 5)
    × (read_block little_endian counter fresh (write_block little_endian two zeros 20).1 20
        ≡ some (
          5,
          record two {
            extension_bit = false;
            timestamp_interval = 44100;
            random_seedp = (counter fresh.random_seedp).1;
          },
        ))
read_block-write_block_example =
    read_block-write_block little_endian counter two fresh zeros 20 two-Fits (omega arith)
      (omega arith) (omega arith)

read_block_many_csrcs_example :
    read_block little_endian counter fresh (write_block little_endian eight zeros 20).1 20
    ≡ some (
      11,
      record eight {
        extension_bit = true;
        timestamp_interval = 44100;
        random_seedp = (counter fresh.random_seedp).1;
      },
    )
read_block_many_csrcs_example =
    read_block_many_csrcs little_endian counter eight fresh zeros 20 eight-Fits (omega arith)
      (omega arith) 0 (omega arith) refl

read_block-Parsed_example : Parsed 20 (read_block little_endian counter fresh zeros 20)
read_block-Parsed_example = read_block-Parsed little_endian counter fresh zeros 20 (omega arith)

after_lem_example : after 3 two ≡ record two {
  sequence_number = (65535 + 3) % 2 ^ 16;
  timestamp = (4294967000 + 3 * 480) % 2 ^ 32;
}
after_lem_example = after_lem 3 two (omega arith) (omega arith)
