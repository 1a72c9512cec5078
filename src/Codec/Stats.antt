-- ===== src/Codec/Stats.antt =====
-- lib/codec_stats.cpp: what a call reports to its user. The fields are the accessors of the class, its
-- setters updates of them.
use net_isdn.Common.{ℕ, [], Word}

pub record CodecStats (D : Type 0) : Type 0 where
  pub transmit_cname : Word
  pub reception_cname : Word
  pub transmit_ssrc : ℕ
  pub reception_ssrc : ℕ
  pub name : Word
  pub email : Word
  pub phone : Word
  pub location : Word
  pub tool : Word
  pub note : Word
  pub transmit_packets_sent : ℕ
  pub transmit_packets_lost : ℕ
  pub transmit_fraction_lost : D
  pub reception_packets_sent : ℕ
  pub reception_packets_received : ℕ
  pub reception_packets_lost : ℕ
  pub reception_pll_offset : D
  pub transmit_cpu_load : D
  pub transmit_gpio_mask : ℕ
  pub reception_gpio_mask : ℕ

-- `0.0` is an argument.
module _ {D : Type 0} (nothing : D) where
  abbrev pub clear_transmit : CodecStats D → CodecStats D
  clear_transmit s = record s {
    transmit_cname = [];
    transmit_ssrc = 0;
    transmit_packets_sent = 0;
    transmit_packets_lost = 0;
    transmit_fraction_lost = nothing;
    transmit_cpu_load = nothing;
    transmit_gpio_mask = 0;
  }

  abbrev pub clear_reception : CodecStats D → CodecStats D
  clear_reception s = record s {
    name = [];
    email = [];
    phone = [];
    location = [];
    tool = [];
    note = [];
    reception_cname = [];
    reception_ssrc = 0;
    reception_packets_sent = 0;
    reception_packets_received = 0;
    reception_packets_lost = 0;
    reception_pll_offset = nothing;
    reception_gpio_mask = 0;
  }

  abbrev pub clear_all : CodecStats D → CodecStats D
  clear_all s = clear_reception (clear_transmit s)
