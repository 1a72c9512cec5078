-- ===== src/Codec/Reports/Ending.antt =====
-- The last packet of a call, and what it does to the other side.
use net_isdn.Common.{
  ℕ, ◌+◌, ◌-◌, ◌*◌, ◌^◌, ◌<◌, ◌≡◌, refl, sym, ap, ◌∙◌, true, some, List, length, arith, ◌>>=◌,
}
use net_isdn.Rtp.Wire.{ByteOrder}
use net_isdn.Rtp.Block.{Fractions}
use net_isdn.Rtp.Bye.{write_bye, add_ssrc}
use net_isdn.Rtp.Sender.{blocks_sent}
use net_isdn.Rtp.Sender.RoundTrip.{received_report, written_report}
use net_isdn.Rtp.Source.{total_size}
use net_isdn.Rtp.Compound.{new_control_header, read_control}
use net_isdn.Rtp.Compound.RoundTrip.{received}
use net_isdn.Rtp.Compound.Ending.{bye_of, read_control-ended}
use net_isdn.Codec.Stats.{clear_all}
use net_isdn.Codec.Sequence.{cleared_receiver}
use net_isdn.Codec.Gpio.{changes}
use net_isdn.Codec.Reports.{
  Endpoint, own_report, reported, reset_receiver, generate_packet, last_packet, take_report,
  take_bye, receive_data,
}
use net_isdn.Codec.Reports.Delivery.{
  IsEndpoint, described, described-IsSource, own_report-Small, told, take_description-told,
  generated, blocks_sent-small, total_size-described,
}

module _ {D : Type 0} (fr : Fractions D) (net : ByteOrder) (ratio : ℕ → ℕ → D) where
  -- What the other side has after the last packet of a codec: its lines, with the signals, and no
  -- trace of the source in the receiver and the statistics.
  pub record Ended (c other : Endpoint D) (n : ℕ) (e : List ℕ) : Type 0 where
    pub codec : Endpoint D
    pub receives :
        receive_data fr net other e (4 * n)
        ≡ some (codec, changes c.trans_gpio other.recv_gpio 0 32, true)
    pub lines : codec.recv_gpio ≡ c.trans_gpio
    pub receiver :
        codec.receiver
        ≡ record cleared_receiver { start_packet_count = codec.receiver.start_packet_count }
    pub stats :
        codec.stats
        ≡ record (clear_all fr.nothing other.stats) { transmit_cname = other.transmit_cname }

  ended :
      (c other : Endpoint D) (ntp v n : ℕ) (e : List ℕ)
      → IsEndpoint c
      → read_control fr net (new_control_header 2) e (4 * n)
        ≡ some
            (record (received fr net 2
              (own_report fr net ratio ntp c)
              (described fr net ratio c)
              v) { bye = some (bye_of c.ssrc) })
      → Ended c other n e
  unfolding receive_data take_report take_bye reset_receiver
  ended c other ntp v n e f read = record {
    codec = take_bye fr net (
        take_report fr net (told fr net ratio c other)
          (received_report fr net (own_report fr net ratio ntp c)));
    receives = rw (read, take_description-told fr net ratio c other v f) refl;
    lines = refl;
    receiver = refl;
    stats = refl;
  }

  -- The last packet that a codec that fits the wire sends at a 64-bit time, in its array of 1500
  -- words, ends the call on the other side: it takes the lines, with the signals of the lines that
  -- change, and is left with a cleared receiver, but for the count of packets at the start, and with
  -- cleared statistics, but for its own name.
  pub last_packet-Ended :
      (c other : Endpoint D) (ntp : ℕ) (d : List ℕ)
      → IsEndpoint c
      → ntp < 2 ^ 64
      → length d ≡ 1500
      → (n : ℕ) × (e : List ℕ) × (last_packet fr net ratio ntp c d
          ≡ some (n, e, record c { receiver = reported c.receiver }))
        × Ended c other n e
  unfolding last_packet add_ssrc
  last_packet-Ended c other ntp d f time room =
      let r = own_report fr net ratio ntp c in
      let s = described fr net ratio c in
      let small = own_report-Small fr net ratio c ntp f time in
      let g = described-IsSource fr net ratio c f in
      let m = length r.reception_blocks in
      let one : blocks_sent m ≡ 1 = blocks_sent-small fr net ratio m small.blocks in
      let most = total_size-described fr net ratio c f in
      let n = 7 + 6 * blocks_sent m in
      let k = n + total_size s.chunks in
      let (size, words) =
        written_report fr net r d 0 (length d) small.fits small.plain (omega arith)
          (omega (arith, small.blocks)) in
      let (e, v, wrote, two, read) =
        read_control-ended fr net r s d n c.ssrc small.fits small.plain g small.version refl f.ssrc
          refl (omega arith) in
      let made = generated fr net ratio c ntp n (total_size s.chunks) d e f wrote size in
      let e₁ = (write_bye net (bye_of c.ssrc) e k (length d - k)).1 in
      (
        k + 2,
        e₁,
        ap
              (λ len. generate_packet fr net ratio ntp c d len >>= λ (q, x, c₁). some (
                q + (write_bye net (bye_of c.ssrc) x q (len - q)).0,
                (write_bye net (bye_of c.ssrc) x q (len - q)).1,
                c₁,
              ))
              (sym room)
            ∙ ap
                (λ o. o >>= λ (q, x, c₁). some (
                  q + (write_bye net (bye_of c.ssrc) x q (length d - q)).0,
                  (write_bye net (bye_of c.ssrc) x q (length d - q)).1,
                  c₁,
                ))
                made
            ∙ ap (λ q. some (k + q, e₁, record c { receiver = reported c.receiver })) two,
        ended c other ntp v (k + 2) e₁ f read,
      )
