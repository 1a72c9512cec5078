-- ===== src/Sip/Port/Free.antt =====
-- The search for a port ends, and finds one that no connection of the address has.
use net_isdn.Common.{
  ℕ, zero, suc, ◌+◌, ◌*◌, ◌^◌, ◌≤◌, ◌<◌, ◌≡◌, ◌≢◌, refl, Bool, true, false, ◌&&◌, some, none≢some,
  some_inj, ap, sym, ◌∙◌, ◌⊎◌, [], ◌∷◌, length, leb, ◌==◌, arith, Bool-cases, inl, inr, bit,
}
use net_isdn.Sip.Connection.{SipConnection, Table, find}
use net_isdn.Sip.Table.{find_hit, find_miss}
use net_isdn.Sip.Port.{taken, sweep, search_port, generate_port, rtp_port}

-- Whether a connection of an address has this port or a higher one, and how many do.
counted : ℕ → ℕ → SipConnection → ℕ
counted addr port c = bit (c.peer_address == addr && leb port c.source_port)

above : ℕ → ℕ → Table → ℕ
above addr port [] = 0
above addr port ((k, c) ∷ t) = counted addr port c + above addr port t

counted_anti : (addr p q : ℕ) (c : SipConnection) → p ≤ q → counted addr q c ≤ counted addr p c
unfolding counted
counted_anti addr p q c h = ground arith

counted_le : (addr p : ℕ) (c : SipConnection) → counted addr p c ≤ 1
unfolding counted
counted_le addr p c = ground arith

counted-taken : (addr p : ℕ) (c : SipConnection) → taken addr p c ≡ true → counted addr p c ≡ 1
unfolding counted
counted-taken addr p c h = ground arith

counted_passed :
    (addr p q : ℕ) (c : SipConnection) → taken addr p c ≡ true → p < q → counted addr q c ≡ 0
unfolding counted
counted_passed addr p q c h l = ground arith

above_anti : (addr p q : ℕ) (t : Table) → p ≤ q → above addr q t ≤ above addr p t
unfolding above
above_anti addr p q [] h = omega arith
above_anti addr p q ((k, c) ∷ t) h =
    omega (arith, above_anti addr p q t h, counted_anti addr p q c h)

above-length : (addr p : ℕ) (t : Table) → above addr p t ≤ length t
unfolding above
above-length addr p [] = omega arith
above-length addr p ((k, c) ∷ t) = omega (arith, above-length addr p t, counted_le addr p c)

sweep-taken :
    (addr k : ℕ) (c : SipConnection) (t : Table) (p : ℕ) (f : Bool)
    → taken addr p c ≡ true
    → p + 2 < 2 ^ 16
    → sweep addr ((k, c) ∷ t) p f ≡ sweep addr t (p + 2) true
unfolding sweep
sweep-taken addr k c t p f e h = rw e (ap (λ q. sweep addr t q true) (omega arith))

sweep_free :
    (addr k : ℕ) (c : SipConnection) (t : Table) (p : ℕ) (f : Bool)
    → taken addr p c ≡ false
    → sweep addr ((k, c) ∷ t) p f ≡ sweep addr t p f
unfolding sweep
sweep_free addr k c t p f e = rw e refl

above_cons :
    (addr p k : ℕ) (c : SipConnection) (t : Table)
    → above addr p ((k, c) ∷ t) ≡ counted addr p c + above addr p t
unfolding above
above_cons addr p k c t = refl

-- Each step of two ports passes a connection.
sweep-above :
    (addr : ℕ) (t : Table) (p : ℕ) (f : Bool)
    → p + 2 * above addr p t < 2 ^ 16
    → (p ≤ (sweep addr t p f).0)
      × ((sweep addr t p f).0 + 2 * above addr (sweep addr t p f).0 t ≤ p + 2 * above addr p t)
sweep-above addr [] p f h = unfold sweep above in (omega arith, omega arith)
sweep-above addr ((k, c) ∷ t) p f h = elim (Bool-cases (taken addr p c)) [
  | inl e ↦
      let one = counted-taken addr p c e in
      let cons = above_cons addr p k c t in
      let fewer = above_anti addr p (p + 2) t (omega arith) in
      let (le, sum) = sweep-above addr t (p + 2) true (omega arith) in
      let q = (sweep addr t (p + 2) true).0 in
      let cons_q = above_cons addr q k c t in
      let gone = counted_passed addr p q c e (omega arith) in
      rw (sweep-taken addr k c t p f e (omega arith)) (omega arith, omega arith)
  | inr e ↦
      let cons = above_cons addr p k c t in
      let (le, sum) = sweep-above addr t p f (omega arith) in
      let q = (sweep addr t p f).0 in
      let cons_q = above_cons addr q k c t in
      let fewer = counted_anti addr p q c le in rw (sweep_free addr k c t p f e) (le, omega arith)
]

-- No connection of the address has the port.
abbrev pub IsFree : ℕ → ℕ → Table → Type 0
IsFree addr port t =
    (fd : ℕ) (c : SipConnection) → find t fd ≡ some c → c.peer_address ≡ addr → c.source_port ≢ port

not_taken :
    (addr p : ℕ) (c d : SipConnection)
    → taken addr p c ≡ false
    → c ≡ d
    → d.peer_address ≡ addr
    → d.source_port ≡ p
    → ⊥
not_taken addr p c d e same same_addr same_port =
    let peer : c.peer_address ≡ addr = ap (λ x. x.peer_address) same ∙ same_addr in
    let port : c.source_port ≡ p = ap (λ x. x.source_port) same ∙ same_port in ground arith

IsFree-cons :
    (addr p k : ℕ) (c : SipConnection) (t : Table)
    → taken addr p c ≡ false
    → IsFree addr p t
    → IsFree addr p ((k, c) ∷ t)
IsFree-cons addr p k c t e free fd d found same_addr same_port = elim (Bool-cases (k == fd)) [
  | inl f ↦
      let c≡d : c ≡ d = some_inj (sym (find_hit k fd c t f) ∙ found) in
      absurd (not_taken addr p c d e c≡d same_addr same_port)
  | inr f ↦ free fd d (sym (find_miss k fd c t f) ∙ found) same_addr same_port
]

sweep_moves :
    (addr : ℕ) (t : Table) (p : ℕ)
    → p + 2 * above addr p t < 2 ^ 16
    → (sweep addr t p true).1 ≡ true
sweep_moves addr [] p h = unfold sweep in refl
sweep_moves addr ((k, c) ∷ t) p h = elim (Bool-cases (taken addr p c)) [
  | inl e ↦
      let one = counted-taken addr p c e in
      let cons = above_cons addr p k c t in
      let fewer = above_anti addr p (p + 2) t (omega arith) in
      rw (sweep-taken addr k c t p true e (omega arith)) (sweep_moves addr t (p + 2) (omega arith))
  | inr e ↦
      let cons = above_cons addr p k c t in
      rw (sweep_free addr k c t p true e) (sweep_moves addr t p (omega arith))
]

-- A pass that finds nothing leaves the port, and one that does moves on.
sweep-found :
    (addr : ℕ) (t : Table) (p : ℕ)
    → p + 2 * above addr p t < 2 ^ 16
    → ((sweep addr t p false ≡ (p, false)) × IsFree addr p t)
      ⊎ (((sweep addr t p false).1 ≡ true) × (p < (sweep addr t p false).0))
sweep-found addr [] p h = unfold sweep in inl (refl, λ fd c e. absurd (none≢some e))
sweep-found addr ((k, c) ∷ t) p h = elim (Bool-cases (taken addr p c)) [
  | inl e ↦
      let one = counted-taken addr p c e in
      let cons = above_cons addr p k c t in
      let fewer = above_anti addr p (p + 2) t (omega arith) in
      let (le, sum) = sweep-above addr t (p + 2) true (omega arith) in
      rw (sweep-taken addr k c t p false e (omega arith))
        (inr (sweep_moves addr t (p + 2) (omega arith), omega arith))
  | inr e ↦
      let cons = above_cons addr p k c t in
      rw (sweep_free addr k c t p false e) (elim (sweep-found addr t p (omega arith)) [
        | inl (same, free) ↦ inl (same, IsFree-cons addr p k c t e free)
        | inr moved ↦ inr moved
      ])
]

search_step :
    (fuel addr : ℕ) (t : Table) (p : ℕ)
    → (sweep addr t p false).1 ≡ true
    → search_port (suc fuel) addr t p ≡ search_port fuel addr t (sweep addr t p false).0
unfolding search_port
search_step fuel addr t p e = rw e refl

search_done :
    (fuel addr : ℕ) (t : Table) (p : ℕ)
    → sweep addr t p false ≡ (p, false)
    → search_port (suc fuel) addr t p ≡ some p
unfolding search_port
search_done fuel addr t p e = rw e refl

search_port-IsFree :
    (fuel addr : ℕ) (t : Table) (p : ℕ)
    → above addr p t < fuel
    → p + 2 * above addr p t < 2 ^ 16
    → (port : ℕ) × (search_port fuel addr t p ≡ some port)
      × IsFree addr port t
      × (p ≤ port)
      × (port ≤ p + 2 * above addr p t)
search_port-IsFree zero addr t p hf h = absurd (omega arith)
search_port-IsFree (suc fuel) addr t p hf h = elim (sweep-found addr t p h) [
  | inl (same, free) ↦ (p, search_done fuel addr t p same, free, omega arith, omega arith)
  | inr (found, moved) ↦
      let (le, sum) = sweep-above addr t p false h in
      let (port, eq, free, lo, hi) =
        search_port-IsFree fuel addr t (sweep addr t p false).0 (omega arith) (omega arith) in
      (port, rw (search_step fuel addr t p found) eq, free, omega arith, omega arith)
]

-- With fewer than 30266 connections, GeneratePort ends and returns a port of at least 5004 and at
-- most 5004 + 2 n for n connections, that no connection with this peer address has.
pub generate_port-IsFree :
    (addr : ℕ) (t : Table)
    → length t < 30266
    → (port : ℕ) × (generate_port addr t ≡ some port)
      × IsFree addr port t
      × (rtp_port ≤ port)
      × (port ≤ rtp_port + 2 * length t)
generate_port-IsFree addr t h =
    let few = above-length addr rtp_port t in
    let (port, eq, free, lo, hi) =
      search_port-IsFree (suc (length t)) addr t rtp_port (omega arith) (omega arith) in
    (port, eq, free, lo, omega arith)
