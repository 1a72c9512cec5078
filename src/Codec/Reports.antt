-- ===== src/Codec/Reports.antt =====
-- The RTCP packets of lib/codec.cpp: `GenerateRtcpPacket` and `rtcpTransmitData`, which send the
-- state of a call, and the body of `rtcpReceiveData`, which takes that of the other side.
pub mod Delivery
pub mod Ending
use net_isdn.Common.{
  ℕ, zero, suc, ◌+◌, ◌-◌, ◌*◌, ◌%◌, ◌^◌, bit_and, bit_or, Bool, true, false, Option, none, some,
  List, [], ◌∷◌, ◌++◌, length, get_or, get_elem?, ltb, ◌==◌, if◌then◌else◌, ◌>>=◌, Word,
}
use net_isdn.Common.Bits.{◌<<◌, ◌>>◌}
use net_isdn.Rtp.Wire.{ByteOrder}
use net_isdn.Rtp.Block.{Fractions, ReceptionBlock, new_block}
use net_isdn.Rtp.Sender.{SenderReport, new_report, write_sender_report}
use net_isdn.Rtp.Source.{
  SourceDescription, Chunk, new_source, add_chunk, chunk_string, chunk_data, write_source,
}
use net_isdn.Rtp.Compound.{ControlHeader, new_control_header, read_control}
use net_isdn.Rtp.Bye.{RtpBye, new_bye, add_ssrc, write_bye}
use net_isdn.Codec.Stats.{CodecStats, clear_all}
use net_isdn.Codec.Sequence.{Receiver}
use net_isdn.Codec.Gpio.{gpio_chunk, read_private}

-- The members of the codec that the reports carry. `ssrc` is that of `codec_transmit_header`.
pub record Endpoint (D : Type 0) : Type 0 where
  pub ssrc : ℕ
  pub transmit_cname : Word
  pub transmit_packets : ℕ
  pub transmit_octets : ℕ
  pub trans_gpio : ℕ
  pub recv_gpio : ℕ
  pub pll_offset : D
  pub receiver : Receiver
  pub stats : CodecStats D

-- `RTPSourceDescription::ChunkType`
abbrev pub chunk_cname : ℕ
chunk_cname = 1

abbrev pub chunk_name : ℕ
chunk_name = 2

abbrev pub chunk_email : ℕ
chunk_email = 3

abbrev pub chunk_phone : ℕ
chunk_phone = 4

abbrev pub chunk_loc : ℕ
chunk_loc = 5

abbrev pub chunk_tool : ℕ
chunk_tool = 6

abbrev pub chunk_note : ℕ
chunk_note = 7

abbrev pub chunk_priv : ℕ
chunk_priv = 8

-- Whether packets came since the last report.
unfoldable pub has_news : Receiver → Bool
has_news v = ltb v.last_sequence_number v.sequence_lo_number

-- The receiver after a report.
unfoldable pub reported : Receiver → Receiver
reported v =
    if has_news v
    then record v { interval_packets_lost = 0; last_sequence_number = v.sequence_lo_number }
    else v

-- The receiver after a BYE.
unfoldable pub reset_receiver : Receiver → Receiver
reset_receiver v = record v {
  ssrc = 0;
  total_packets_lost = 0;
  interval_packets_lost = 0;
  sequence_lo_number = 0;
  sequence_hi_number = 0;
  last_sequence_number = 0;
  start_sequence_number = 0;
  ntp_timestamp = 0;
}

module _ {D : Type 0} (fr : Fractions D) (net : ByteOrder) where
  -- The block on the other side, where packets came since the last report; `ratio a b` is
  -- `(double)a/(double)b`.
  abbrev pub own_block : (ℕ → ℕ → D) → Endpoint D → ReceptionBlock D
  own_block ratio c =
      let v = c.receiver in
      record (new_block fr c.ssrc) {
        fraction_packets_lost =
            ratio v.interval_packets_lost (v.sequence_lo_number - v.last_sequence_number);
        cumulative_packets_lost = v.total_packets_lost;
        highest_sequence_number =
            bit_or (v.sequence_hi_number << 16) (bit_and 0xffff v.sequence_lo_number);
        last_send_report_timestamp = bit_and 0xffffffff (v.ntp_timestamp >> 16);
        send_report_delay = 0;
      }

  -- The report, at the time `ntp`.
  unfoldable pub own_report : (ℕ → ℕ → D) → ℕ → Endpoint D → SenderReport D
  own_report ratio ntp c = record (new_report c.ssrc 2) {
    ntp_timestamp = ntp;
    rtp_timestamp = (90000 * c.transmit_packets) % 2 ^ 32;
    sender_packet_count = c.transmit_packets;
    sender_octet_count = c.transmit_octets;
    reception_blocks = if has_news c.receiver then own_block ratio c ∷ [] else [];
  }

  -- The description: the canonical name and the lines. `addChunk` does not fail on it.
  unfoldable pub own_description : Endpoint D → Option SourceDescription
  own_description c = do
    (_, named) ←
        add_chunk (new_source 2) chunk_cname c.ssrc c.transmit_cname (length c.transmit_cname)
    (_, full) ← add_chunk named chunk_priv c.ssrc (gpio_chunk c.trans_gpio) 9
    some full

  -- `GenerateRtcpPacket (packet, len)`: the number of words, the packet, and the codec after it.
  unfoldable pub generate_packet :
      (ℕ → ℕ → D) → ℕ → Endpoint D → List ℕ → ℕ → Option (ℕ × List ℕ × Endpoint D)
  generate_packet ratio ntp c d len = do
    sd ← own_description c
    let sent = write_sender_report fr net (own_report ratio ntp c) d 0 len
    (m, e) ← write_source net sd sent.1 sent.0 (len - sent.0)
    some (sent.0 + m, e, record c { receiver = reported c.receiver })

  -- The last packet of a call, which `disconnect` sends, in its array `d` of 1500 words: the reports
  -- and a BYE behind them.
  unfoldable pub last_packet :
      (ℕ → ℕ → D) → ℕ → Endpoint D → List ℕ → Option (ℕ × List ℕ × Endpoint D)
  last_packet ratio ntp c d = do
    (n, e, c₁) ← generate_packet ratio ntp c d 1500
    let (m, e₁) = write_bye net (add_ssrc (new_bye 2) c.ssrc).1 e n (1500 - n)
    some (n + m, e₁, c₁)

  -- The statistics that `rtcpTransmitData` sets before it sends; `load` is the load of the streams.
  unfoldable pub transmit_stats : D → Endpoint D → Endpoint D
  transmit_stats load c =
      let v = c.receiver in
      record c {
        stats = record c.stats {
          transmit_ssrc = c.ssrc;
          transmit_packets_sent = c.transmit_packets;
          reception_packets_received =
              (bit_or (v.sequence_hi_number << 16) v.last_sequence_number
                + 2 ^ 32
                - (v.start_sequence_number + v.total_packets_lost) % 2 ^ 32)
              % 2 ^ 32;
          reception_packets_lost = v.total_packets_lost;
          reception_pll_offset = c.pll_offset;
          transmit_cpu_load = load;
          transmit_gpio_mask = c.trans_gpio;
          reception_gpio_mask = c.recv_gpio;
        };
      }

  -- `rtcpTransmitData`, on a packet array `d` of 1500 words.
  unfoldable pub transmit_data :
      (ℕ → ℕ → D) → ℕ → D → Endpoint D → List ℕ → Option (ℕ × List ℕ × Endpoint D)
  transmit_data ratio ntp load c d = generate_packet ratio ntp (transmit_stats load c) d 1500

  -- A text that is kept in the statistics.
  abbrev pub take_text :
      Endpoint D
      → SourceDescription
      → ℕ
      → (Word → CodecStats D)
      → Option (Endpoint D × List (ℕ × Bool))
  take_text c sd i put = do t ← chunk_string sd i; some (record c { stats = put t }, [])

  -- The switch over the type of chunk `i`: the codec after it, and the signals of the lines.
  unfoldable pub take_chunk :
      Endpoint D → SourceDescription → ℕ → ℕ → Option (Endpoint D × List (ℕ × Bool))
  take_chunk c sd i type =
      if type == chunk_cname
      then take_text c sd i (λ t. record c.stats { reception_cname = t })
      else if type == chunk_name
      then take_text c sd i (λ t. record c.stats { name = t })
      else if type == chunk_email
      then take_text c sd i (λ t. record c.stats { email = t })
      else if type == chunk_phone
      then take_text c sd i (λ t. record c.stats { phone = t })
      else if type == chunk_loc
      then take_text c sd i (λ t. record c.stats { location = t })
      else if type == chunk_tool
      then take_text c sd i (λ t. record c.stats { tool = t })
      else if type == chunk_note
      then take_text c sd i (λ t. record c.stats { note = t })
      else if type == chunk_priv
      then (chunk_data sd i 256 >>= λ bytes.
          if ltb 0 (length bytes)
          then (let (signals, lines) = read_private c.recv_gpio bytes in
              some (record c { recv_gpio = lines }, signals))
          else some (c, []))
      else some (c, [])

  -- The loop over the chunks from `i` on.
  unfoldable pub take_chunks :
      Endpoint D → SourceDescription → ℕ → List Chunk → Option (Endpoint D × List (ℕ × Bool))
  take_chunks c sd i [] = some (c, [])
  take_chunks c sd i (k ∷ ks) = do
    (c₁, first) ← take_chunk c sd i k.type
    (c₂, rest) ← take_chunks c₁ sd (i + 1) ks
    some (c₂, first ++ rest)

  -- What the report of the other side tells.
  unfoldable pub take_blocks : CodecStats D → List (ReceptionBlock D) → CodecStats D
  take_blocks s [] = s
  take_blocks s (b ∷ bs) = record s {
    reception_ssrc = b.ssrc;
    transmit_packets_lost = b.cumulative_packets_lost;
    transmit_fraction_lost = b.fraction_packets_lost;
  }

  unfoldable pub take_report : Endpoint D → SenderReport D → Endpoint D
  take_report c r =
      let v = c.receiver in
      let start =
        if v.start_packet_count == 0 then r.sender_packet_count else v.start_packet_count in
      record c {
        receiver = record v { start_packet_count = start; ntp_timestamp = r.ntp_timestamp };
        stats =
            take_blocks
              (record c.stats {
                reception_packets_sent = (r.sender_packet_count + 2 ^ 32 - start) % 2 ^ 32;
              })
              r.reception_blocks;
      }

  abbrev pub take_description :
      Endpoint D → Option SourceDescription → Option (Endpoint D × List (ℕ × Bool))
  take_description c none = some (c, [])
  take_description c (some sd) = take_chunks c sd 0 sd.chunks

  abbrev pub take_sender : Endpoint D → Option (SenderReport D) → Endpoint D
  take_sender c none = c
  take_sender c (some r) = take_report c r

  abbrev pub is_present : Option RtpBye → Bool
  is_present none = false
  is_present (some b) = true

  -- What a BYE does to these members: `disconnect`, which clears the statistics but for the own name
  -- and the count of roll-overs, and the reset behind it. The slot runs only in a call, so that
  -- `disconnect` finds the codec connecting or connected.
  unfoldable pub take_bye : Endpoint D → Endpoint D
  take_bye c = record c {
    receiver = reset_receiver c.receiver;
    stats = record (clear_all fr.nothing c.stats) { transmit_cname = c.transmit_cname };
  }

  -- The body of the loop of `rtcpReceiveData` on a packet of `n` bytes in the array `d`: the codec
  -- after it, the signals, and whether the other side ended the call, when the slot returns.
  unfoldable pub receive_data :
      Endpoint D → List ℕ → ℕ → Option (Endpoint D × List (ℕ × Bool) × Bool)
  receive_data c d n = do
    h ← read_control fr net (new_control_header 2) d n
    (c₁, signals) ← take_description c h.source_description
    let c₂ = take_sender c₁ h.sender_report
    let ended = is_present h.bye
    some (if ended then take_bye c₂ else c₂, signals, ended)
