-- ===== src/Codec/Sequence/Order.antt =====
-- Which packets of a source are played, and what counts as lost.
use net_isdn.Common.{
  ℕ, suc, ◌+◌, ◌-◌, ◌*◌, ◌%◌, ◌^◌, ◌≤◌, ◌<◌, ◌≡◌, refl, sym, ap, ◌∙◌, true, false, List, [], ◌∷◌,
  length, ltb, ◌==◌, ==_refl, ==_iff, lt→ltb, arith, Bool-cases, inl, inr,
}
use net_isdn.Codec.Sequence.{
  Receiver, Packet, rtpheader_min_size, count_loss, rolled_over, follow_number, is_in_turn,
  is_played, receive_packet, receive_packets,
}

-- The number of a packet with the roll-overs before it.
abbrev pub extended : ℕ → ℕ → ℕ
extended hi lo = hi * 2 ^ 16 + lo

abbrev pub highest : Receiver → ℕ
highest r = extended r.sequence_hi_number r.sequence_lo_number

-- Numbers that increase strictly from above `low` on.
abbrev pub Rising : ℕ → List (ℕ × ℕ) → Type 0
Rising low [] = Unit
Rising low ((hi, lo) ∷ ps) = (low < extended hi lo) × Rising (extended hi lo) ps

-- Packets of one source with 16-bit numbers.
abbrev pub OfSource : ℕ → List Packet → Type 0
OfSource ssrc [] = Unit
OfSource ssrc (p ∷ ps) = (p.ssrc ≡ ssrc) × ((p.number < 2 ^ 16) × OfSource ssrc ps)

-- What a packet of the source at hand does to the receiver.
record Received (r : Receiver) (number : ℕ) (r' : Receiver) : Type 0 where
  ssrc : r'.ssrc ≡ r.ssrc
  lo : r'.sequence_lo_number < 2 ^ 16
  hi : r'.sequence_hi_number ≤ r.sequence_hi_number + 1
  rises : highest r ≤ highest r'
  played :
      is_in_turn r r.ssrc number ≡ true
      → (r.sequence_hi_number ≡ r'.sequence_hi_number)
        × (r'.sequence_lo_number ≡ number)
        × (number ≡ r.sequence_lo_number + 1)

count_loss-same :
    (r : Receiver) (number : ℕ)
    → ((count_loss r number).ssrc ≡ r.ssrc)
      × ((count_loss r number).sequence_lo_number ≡ r.sequence_lo_number)
      × ((count_loss r number).sequence_hi_number ≡ r.sequence_hi_number)
unfolding count_loss
count_loss-same r number = elim (Bool-cases (number == r.sequence_lo_number + 1)) [
  | inl e ↦ rw e (refl, refl, refl)
  | inr e ↦ rw e (elim (Bool-cases (number == r.sequence_lo_number)) [
    | inl q ↦ rw q (refl, refl, refl)
    | inr q ↦ rw q (refl, refl, refl)
  ])
]

is_in_turn-next :
    (r : Receiver) (number : ℕ) → is_in_turn r r.ssrc number ≡ (number == r.sequence_lo_number + 1)
unfolding is_in_turn
is_in_turn-next r number =
    rw (==_refl r.ssrc) (elim (Bool-cases (number == r.sequence_lo_number + 1)) [
      | inl e ↦
          let next : number ≡ r.sequence_lo_number + 1 =
            (==_iff number (r.sequence_lo_number + 1)).0 e in
          rw (e, lt→ltb r.sequence_lo_number number (omega arith)) refl
      | inr e ↦ rw e refl
    ])

follow_number-Received :
    (r : Receiver) (number : ℕ)
    → r.sequence_lo_number < 2 ^ 16
    → r.sequence_hi_number + 1 < 2 ^ 16
    → number < 2 ^ 16
    → Received r number (follow_number r number)
unfolding follow_number
follow_number-Received r number lo hi small =
    let next : is_in_turn r r.ssrc number ≡ true → number ≡ r.sequence_lo_number + 1 =
      λ e. (==_iff number (r.sequence_lo_number + 1)).0 (sym (is_in_turn-next r number) ∙ e) in
    elim (Bool-cases (ltb r.sequence_lo_number number)) [
      | inl e ↦ rw e (record {
        ssrc = refl;
        lo = small;
        hi = omega arith;
        rises = ground arith;
        played = λ p. (refl, refl, next p);
      })
      | inr e ↦
          let above : number ≤ r.sequence_lo_number = ground arith in
          rw e (elim (Bool-cases (rolled_over r number)) [
            | inl q ↦ rw q (record {
              ssrc = refl;
              lo = small;
              hi = omega arith;
              rises = omega arith;
              played = λ p. absurd (omega (arith, next p));
            })
            | inr q ↦ rw q (record {
              ssrc = refl;
              lo = lo;
              hi = omega arith;
              rises = omega arith;
              played = λ p. absurd (omega (arith, next p));
            })
          ])
    ]

receive_packet-Received :
    (r : Receiver) (number : ℕ)
    → r.sequence_lo_number < 2 ^ 16
    → r.sequence_hi_number + 1 < 2 ^ 16
    → number < 2 ^ 16
    → Received r number (receive_packet r r.ssrc number)
unfolding receive_packet
receive_packet-Received r number lo hi small =
    let c = count_loss r number in
    let (ssrc, same_lo, same_hi) = count_loss-same r number in
    let f = follow_number-Received c number (omega arith) (omega arith) small in
    let next : is_in_turn r r.ssrc number ≡ is_in_turn c c.ssrc number =
      is_in_turn-next r number
      ∙ ap (λ l. number == l + 1) (sym same_lo)
      ∙ sym (is_in_turn-next c number) in
    rw (==_refl r.ssrc) (record {
      ssrc = f.ssrc ∙ ssrc;
      lo = f.lo;
      hi = omega (arith, f.hi);
      rises = omega (arith, f.rises);
      played = λ p.
          let (hi_same, here, following) = f.played (sym next ∙ p) in
          (sym same_hi ∙ hi_same, here, omega (arith, following));
    })

Rising-from : (low high : ℕ) (ps : List (ℕ × ℕ)) → low ≤ high → Rising high ps → Rising low ps
Rising-from low high [] h rising = tt
Rising-from low high ((hi, lo) ∷ ps) h rising = (omega (arith, rising.0), rising.1)

false≢true : false ≡ true → ⊥
false≢true e = cc

passed :
    (r : Receiver) (p : Packet)
    → is_in_turn r r.ssrc p.number ≡ false
    → is_played r r.ssrc p.number p.payload ≡ false
unfolding is_played
passed r p e = rw e refl

in_turn :
    (r : Receiver) (p : Packet)
    → is_played r r.ssrc p.number p.payload ≡ true
    → is_in_turn r r.ssrc p.number ≡ true
unfolding is_played
in_turn r p h = elim (Bool-cases (is_in_turn r r.ssrc p.number)) [
  | inl e ↦ e
  | inr e ↦ absurd (false≢true (sym (passed r p e) ∙ h))
]

-- While fewer packets come than roll-overs are left in the 16-bit counter, the packets of the source
-- at hand that are played have strictly increasing numbers, with the roll-overs counted, all above
-- the highest number before: none is played twice or after a later one.
pub receive_packets-Rising :
    (r : Receiver) (ps : List Packet)
    → OfSource r.ssrc ps
    → r.sequence_lo_number < 2 ^ 16
    → r.sequence_hi_number + length ps < 2 ^ 16
    → Rising (highest r) (receive_packets r ps).1
unfolding receive_packets
receive_packets-Rising r [] of lo hi = tt
receive_packets-Rising r (p ∷ ps) (same, (small, of)) lo hi =
    let f = receive_packet-Received r p.number lo (omega arith) small in
    let r' = receive_packet r r.ssrc p.number in
    let rest = receive_packets-Rising r' ps (rw f.ssrc of) f.lo (omega (arith, f.hi)) in
    rw same (elim (Bool-cases (ltb rtpheader_min_size p.size)) [
      | inr short ↦ rw short (receive_packets-Rising r ps of lo (omega arith))
      | inl seen ↦ rw seen (elim (Bool-cases (is_played r r.ssrc p.number p.payload)) [
        | inl e ↦
            let (hi_same, here, next) = f.played (in_turn r p e) in
            rw e (
              omega arith,
              Rising-from (extended r'.sequence_hi_number p.number) (highest r')
                  (receive_packets r' ps).1 (omega arith) rest,
            )
        | inr e ↦ rw e (Rising-from (highest r) (highest r') (receive_packets r' ps).1 f.rises rest)
      ])
    ])

-- The packets that follow one another from a number on, with their sizes and the lengths of their
-- payloads.
abbrev pub in_order : ℕ → ℕ → List (ℕ × ℕ) → List Packet
in_order ssrc number [] = []
in_order ssrc number ((size, payload) ∷ xs) =
    record { ssrc = ssrc; number = number; size = size; payload = payload }
    ∷ in_order ssrc (number + 1) xs

-- Their numbers, each with `hi` roll-overs before it.
abbrev pub numbers_in_order : ℕ → ℕ → List (ℕ × ℕ) → List (ℕ × ℕ)
numbers_in_order hi number [] = []
numbers_in_order hi number (x ∷ xs) = (hi, number) ∷ numbers_in_order hi (number + 1) xs

-- Packets longer than the least header and with something behind their header.
abbrev pub Carry : List (ℕ × ℕ) → Type 0
Carry [] = Unit
Carry ((size, payload) ∷ xs) = (rtpheader_min_size < size) × ((0 < payload) × Carry xs)

next_in_order :
    (r : Receiver)
    → receive_packet r r.ssrc (r.sequence_lo_number + 1)
      ≡ record r { sequence_lo_number = r.sequence_lo_number + 1 }
unfolding receive_packet count_loss follow_number
next_in_order r =
    rw
      (
        ==_refl r.ssrc,
        ==_refl (r.sequence_lo_number + 1),
        lt→ltb r.sequence_lo_number (r.sequence_lo_number + 1) (omega arith),
      )
      refl

-- The packets that follow the last one without a gap and without a roll-over are all played, and none
-- counts as lost, where each is longer than the least header and carries a payload.
pub receive_packets-in_order :
    (r : Receiver) (xs : List (ℕ × ℕ))
    → Carry xs
    → r.sequence_lo_number + length xs < 2 ^ 16
    → receive_packets r (in_order r.ssrc (r.sequence_lo_number + 1) xs) ≡ (
      record r { sequence_lo_number = r.sequence_lo_number + length xs },
      numbers_in_order r.sequence_hi_number (r.sequence_lo_number + 1) xs,
    )
unfolding receive_packets is_played
receive_packets-in_order r [] carry h =
    ap (λ l. (record r { sequence_lo_number = l }, [])) (omega arith)
receive_packets-in_order r ((size, payload) ∷ xs) (long, (full, carry)) h =
    let lo = r.sequence_lo_number in
    let rest =
      receive_packets-in_order (record r { sequence_lo_number = lo + 1 }) xs carry (omega arith) in
    let sum : lo + 1 + length xs ≡ lo + suc (length xs) = omega arith in
    rw
      (
        lt→ltb rtpheader_min_size size long,
        next_in_order r,
        is_in_turn-next r (lo + 1),
        ==_refl (lo + 1),
        lt→ltb 0 payload full,
        rest,
        sum,
      )
      refl

-- When the number after the highest 16-bit number is 0 again, the packet of number 0 is counted as a
-- roll-over and as a loss, and is not played.
pub receive_packet_roll_over :
    (r : Receiver) (payload : ℕ)
    → r.sequence_lo_number ≡ 2 ^ 16 - 1
    → (is_played r r.ssrc 0 payload ≡ false)
      × (receive_packet r r.ssrc 0 ≡ record r {
        total_packets_lost = (r.total_packets_lost + 1) % 2 ^ 32;
        interval_packets_lost = (r.interval_packets_lost + 1) % 2 ^ 32;
        sequence_lo_number = 0;
        sequence_hi_number = (r.sequence_hi_number + 1) % 2 ^ 16;
        last_sequence_number = 0;
      })
unfolding is_played receive_packet count_loss follow_number rolled_over
receive_packet_roll_over r payload last =
    (rw (is_in_turn-next r 0, last) refl, rw (==_refl r.ssrc, last) refl)
