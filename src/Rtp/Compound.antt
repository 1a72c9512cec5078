-- ===== src/Rtp/Compound.antt =====
-- lib/rtpcontrolheader.cpp: the packets of a compound RTCP packet.
pub mod Ending
pub mod RoundTrip
use net_isdn.Common.{
  ℕ, zero, suc, ◌+◌, ◌/◌, bit_and, Bool, true, false, not, Option, none, some, List, ltb, ◌==◌,
  if◌then◌else◌, ◌>>=◌,
}
use net_isdn.Rtp.Wire.{ByteOrder, load}
use net_isdn.Rtp.Head.{head_type, head_version, head_size}
use net_isdn.Rtp.Block.{Fractions}
use net_isdn.Rtp.Bye.{RtpBye, bye_pt, read_bye}
use net_isdn.Rtp.Sender.{SenderReport, sender_pt, read_sender_report}
use net_isdn.Rtp.Reception.{ReceptionReport, reception_pt, read_reception_report}
use net_isdn.Rtp.Source.{SourceDescription, source_pt, read_source}

-- The accessors of the class are the fields, its setters updates of them; `none` is a null pointer.
pub record ControlHeader (D : Type 0) : Type 0 where
  pub version : ℕ
  pub padding_bit : Bool
  pub sender_report : Option (SenderReport D)
  pub reception_report : Option (ReceptionReport D)
  pub source_description : Option SourceDescription
  pub bye : Option RtpBye

-- A packet read where none was before: kept unless `readBlock` returned 0.
abbrev pub kept : {A : Type 0} → Option A → Option (ℕ × A) → Option (Option A)
kept (some a) read = some (some a)
kept none read = read >>= λ (size, a). some (if size == 0 then none else some a)

module _ {D : Type 0} where
  -- `clear`, and the constructor.
  abbrev pub cleared_header : ControlHeader D
  cleared_header = record {
    version = 2;
    padding_bit = false;
    sender_report = none;
    reception_report = none;
    source_description = none;
    bye = none;
  }

  abbrev pub new_control_header : ℕ → ControlHeader D
  new_control_header version = record cleared_header { version = version }

  module _ (fr : Fractions D) (net : ByteOrder) where
    -- The switch over the type of the packet at word `ptr`.
    unfoldable pub read_packet : ControlHeader D → List ℕ → ℕ → ℕ → Option (ControlHeader D)
    read_packet h d ptr type =
        if type == sender_pt
        then (kept h.sender_report (read_sender_report fr net d ptr) >>= λ p.
            some (record h { sender_report = p }))
        else if type == reception_pt
        then (kept h.reception_report (read_reception_report fr net d ptr) >>= λ p.
            some (record h { reception_report = p }))
        else if type == source_pt
        then (kept h.source_description (read_source net d ptr) >>= λ p.
            some (record h { source_description = p }))
        else if type == bye_pt
        then (kept h.bye (read_bye net d ptr) >>= λ p. some (record h { bye = p }))
        else some h

    -- The loop at word `ptr`, of which the head `w` has been read, over `words` words; the first
    -- argument bounds the number of packets. The head of the next packet is read before the bound
    -- of the array is tested.
    unfoldable pub read_packets :
        ℕ → ControlHeader D → List ℕ → ℕ → ℕ → ℕ → Option (ControlHeader D)
    read_packets zero h d words ptr w = some h
    read_packets (suc n) h d words ptr w =
        if not (ltb ptr words)
        then some h
        else if not (head_version w == h.version)
        then some h
        else do
          h' ← read_packet h d ptr (head_type w)
          w' ← load net d (ptr + (head_size w + 1))
          read_packets n h' d words (ptr + (head_size w + 1)) w'

    -- `readBlock (data, len)`, of `len` bytes. `none`: the call reads outside of `d`.
    unfoldable pub read_control : ControlHeader D → List ℕ → ℕ → Option (ControlHeader D)
    read_control h d len = do w ← load net d 0; read_packets (len / 4) h d (len / 4) 0 w
