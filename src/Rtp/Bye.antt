-- ===== src/Rtp/Bye.antt =====
-- lib/rtpbye.cpp: the RTCP packet that ends a session.
pub mod RoundTrip
use net_isdn.Common.{
  ℕ, zero, suc, ◌+◌, ◌-◌, Bool, true, false, not, Option, none, some, List, [], ◌∷◌, ◌++◌, length,
  ltb, ◌==◌, if◌then◌else◌, ◌>>=◌,
}
use net_isdn.Rtp.Wire.{ByteOrder, load, load_words, store, store_words}
use net_isdn.Rtp.Head.{head_word, head_type, head_version, head_padding, head_count}

-- The accessors of the class are the fields, its setters updates of them.
pub record RtpBye : Type 0 where
  pub version : ℕ
  pub padding_bit : Bool
  pub ssrcs : List ℕ

-- `RTPBYE_PT`, `RTPBYE_MAX_SSRCS`, `RTPBYE_BASE_SIZE`
abbrev pub bye_pt : ℕ
bye_pt = 203

abbrev pub max_ssrcs : ℕ
max_ssrcs = 31

abbrev pub bye_base_size : ℕ
bye_base_size = 1

-- `clear`
abbrev pub cleared_bye : RtpBye
cleared_bye = record { version = 2; padding_bit = false; ssrcs = [] }

-- The constructor.
abbrev pub new_bye : ℕ → RtpBye
new_bye version = record cleared_bye { version = version }

-- `false`: the list is full.
unfoldable pub add_ssrc : RtpBye → ℕ → Bool × RtpBye
add_ssrc b ssrc =
    if length b.ssrcs == max_ssrcs
    then (false, b)
    else (true, record b { ssrcs = b.ssrcs ++ (ssrc ∷ []) })

module _ (net : ByteOrder) where
  -- `readBlock (data + at)`: what it returns and the packet; the fields before do not matter, since
  -- it clears them. `none`: the call reads outside of `d`.
  unfoldable pub read_bye : List ℕ → ℕ → Option (ℕ × RtpBye)
  read_bye d at = do
    w ← load net d at
    if not (head_type w == bye_pt)
        then some (0, cleared_bye)
        else load_words net d (at + 1) (head_count w) >>= λ ssrcs. some (
          bye_base_size + length ssrcs,
          record { version = head_version w; padding_bit = head_padding w; ssrcs = ssrcs },
        )

  -- `writeBlock (data + at, len)`: what it returns, and the array after it.
  unfoldable pub write_bye : RtpBye → List ℕ → ℕ → ℕ → ℕ × List ℕ
  write_bye b d at len =
      let size = bye_base_size + length b.ssrcs in
      if ltb len size then (0, d) else (
        size,
        store_words net
            (store net d at (head_word b.version b.padding_bit (length b.ssrcs) bye_pt (size - 1)))
            (at + 1) b.ssrcs,
      )
