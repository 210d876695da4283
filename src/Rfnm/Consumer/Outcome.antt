-- ===== src/Rfnm/Consumer/Outcome.antt =====
-- What the consumer does with a packet (`rfnm_handler_out` of
-- kernel_driver/la9310rfnm/la9310_rfnm.c).
use native.Mathlib.Nat.{div-lt_iff_lt-mul, lt-div-mul-add, mod-lt}
use la9310_driver.Base.{
  ℕ, zero, suc, ◌+◌, ◌-◌, ◌*◌, ◌/◌, ◌%◌, ◌^◌, ◌≤◌, ◌<◌, ◌≡◌, ◌≢◌, refl, ◌∙◌, ◌⊎◌, inl, inr, true,
  false, List, ◌++◌, length, length-append, replicate, ◌==◌, Bool-cases, sub32, ==_iff, arith,
}
use la9310_driver.Rfnm.Consumer.{
  Geometry, bufcnt, Packet, Env, Tx, min_lead_ticks, judge, Verdict, late, wild, early, good,
}
use la9310_driver.Rfnm.Consumer.Lead.{lead_lem}
use la9310_driver.Rfnm.Consumer.Place.{
  lb_multi, samples, tps, offset, slot_at, pad_samples, span, win_close, break_window, assemble,
  fill_timed, place_timed, place_pos, verdict, settle, consume,
}
use la9310_driver.Rfnm.Consumer.Timed.{aired, written_all, fill_other, aired-fill}

pos_left : (a b : ℕ) → 0 < a * b → 0 < a
pos_left zero b h = absurd (omega arith)
pos_left (suc a) b h = omega arith

le-mul : (a b : ℕ) → 0 < a → b ≤ a * b
le-mul a b h = grind arith

module _ {A W : Type 0} (z : A) (g : Geometry) (e : Env W) where
  -- Every base buffer of the packet has the size of a slot.
  abbrev pub IsFull : Packet A → Type 0
  IsFull p = (i : ℕ) → length (p.chunk i) ≡ g.elems_per_slot

  length-samples :
      (p : Packet A) (n : ℕ) → IsFull p → length (samples z g p n) ≡ n * g.elems_per_slot
  unfolding samples
  length-samples p zero full = omega arith
  length-samples p (suc n) full =
      let times : suc n * g.elems_per_slot ≡ g.elems_per_slot + n * g.elems_per_slot =
        grind arith in
      omega (arith, length-append (samples z g p n) (p.chunk n), full n, length-samples p n full)

  pad-lt :
      (p : Packet A) → 0 < g.elems_per_slot → 0 < tps z g e → pad_samples z g e p < g.elems_per_slot
  pad-lt p he ht =
      let below : offset z g e p % tps z g e < tps z g e = mod-lt _ ht in
      (div-lt_iff_lt-mul ht).1 (grind arith)

  span_enough :
      (p : Packet A)
      → 0 < g.elems_per_slot
      → pad_samples z g e p + lb_multi z g p * g.elems_per_slot ≤ span z g e p * g.elems_per_slot
  span_enough p he = omega (
    arith,
    lt-div-mul-add
        {a = pad_samples z g e p + lb_multi z g p * g.elems_per_slot + g.elems_per_slot - 1}
        {b = g.elems_per_slot} he,
  )

  slot_at-lt : (p : Packet A) → 0 < bufcnt g → slot_at z g e p < bufcnt g
  slot_at-lt p h = mod-lt _ h

  -- The samples that stand in the slots of a packet, from its first on.
  abbrev pub on_air : Packet A → Tx A W → List A
  on_air p x = aired z g x.ring (slot_at z g e p) 0 (span z g e p)

  -- A timed packet outside of a windowed session, whose slots are not more than those of the ring,
  -- stands in the ring from the slot of its stamp on: as many zeros as its stamp is into the slot,
  -- its samples, and zeros up to the end of the last slot. The other slots are as before.
  pub place_timed_lem :
      (p : Packet A) (x : Tx A W)
      → e.windowed ≡ false
      → 0 < g.elems_per_slot
      → 0 < tps z g e
      → 0 < lb_multi z g p
      → span z g e p ≤ bufcnt g
      → IsFull p
      → (on_air p (place_timed z g e p x)
          ≡ replicate (pad_samples z g e p) z
            ++ (samples z g p (lb_multi z g p)
                ++ replicate
                    (span z g e p * g.elems_per_slot
                      - (pad_samples z g e p + lb_multi z g p * g.elems_per_slot))
                    z))
        × ((i : ℕ)
            → ((j : ℕ) → j < span z g e p → i ≢ (slot_at z g e p + j) % bufcnt g)
            → (place_timed z g e p x).ring i ≡ x.ring i)
  unfolding place_timed fill_timed
  place_timed_lem p x off he ht hm fits full =
      let c = lb_multi z g p * g.elems_per_slot in
      let pad = pad_samples z g e p in
      let src = samples z g p (lb_multi z g p) in
      let big : g.elems_per_slot ≤ c = le-mul (lb_multi z g p) g.elems_per_slot hm in
      let some : 0 < span z g e p =
        pos_left (span z g e p) g.elems_per_slot (omega (arith, span_enough p he)) in
      let room : 0 < bufcnt g = omega arith in
      rw off (
        aired-fill z g (slot_at z g e p) pad src c (span z g e p) 0 0 x.ring (slot_at-lt p room)
              (omega arith)
            ∙ written_all z g src c pad (span z g e p) (pad-lt p he ht) big
                (length-samples p (lb_multi z g p) full) (span_enough p he),
        λ i apart.
            fill_other z g (slot_at z g e p) pad src c (span z g e p) 0 0 x.ring i
              (λ j _ below. apart j (omega arith)),
      )

  -- The ticks from the clock to the stamp, on the circle of 2^32 ticks.
  abbrev pub ahead : Packet A → ℕ
  ahead p = sub32 p.phytimer (e.now64 % 2 ^ 32)

  -- The stamp lies ahead of the clock, by the least lead or more, and by half of the ring at most.
  abbrev pub IsInTime : Packet A → Type 0
  IsInTime p =
      (min_lead_ticks e.lead_margin_slots (tps z g e) ≤ ahead p)
      × (ahead p ≤ bufcnt g / 2 * tps z g e)
      × (ahead p < 2 ^ 31)

  good_lem :
      (p : Packet A)
      → e.now64 < 2 ^ 63
      → p.phytimer < 2 ^ 32
      → ahead p ≢ 2 ^ 31
      → verdict z g e p ≡ good
      → IsInTime p
  unfolding judge
  good_lem p small word apart h =
      let l = lead_lem e.now64 p.phytimer small word apart in ground (arith, l)

  -- The packets that are written into the ring: timed ones, and positional ones on the grid that are
  -- not refused.
  abbrev pub IsPlaced : Packet A → Type 0
  IsPlaced p =
      (p.time_valid ≡ true)
      ⊎ ((p.pos_valid ≡ true) × (e.pos_refused ≡ false) × (offset z g e p % tps z g e ≡ 0))

  settle_cases :
      (v : Verdict) (p : Packet A) (x : Tx A W)
      → ((settle z g e v p x).1.ring ≡ x.ring) ⊎ ((v ≡ good) × IsPlaced p)
  unfolding settle place_pos
  settle_cases late p x = inl refl
  settle_cases wild p x = inl refl
  settle_cases early p x = inl refl
  settle_cases good p x = elim (Bool-cases p.time_valid) [
    | inl timed ↦ inr (refl, inl timed)
    | inr no_time ↦ rw no_time (elim (Bool-cases p.pos_valid) [
      | inl positional ↦ rw positional (elim (Bool-cases e.pos_refused) [
        | inl refused ↦ inl (rw refused)
        | inr served ↦ elim (Bool-cases (offset z g e p % tps z g e == 0)) [
          | inl grid ↦ inr (refl, inr (refl, served, (==_iff _ _).0 grid))
          | inr off_grid ↦ inl (rw served (rw off_grid refl))
        ]
      ])
      | inr unmarked ↦ inl (rw unmarked)
    ])
  ]

  -- Where the ring changes, the packet has one of the two stamps, and what it writes is in time: the
  -- stamp lies ahead of the clock by the least lead or more, and by no more than half of the ring. A
  -- positional packet is also on the grid of slots and not refused.
  pub consume-Safe :
      (p : Packet A) (x : Tx A W)
      → e.now64 < 2 ^ 63
      → p.phytimer < 2 ^ 32
      → ahead p ≢ 2 ^ 31
      → ((consume z g e p x).1.ring ≡ x.ring) ⊎ (IsInTime p × IsPlaced p)
  unfolding consume
  consume-Safe p x small word apart = elim (settle_cases (verdict z g e p) p x) [
    | inl same ↦ inl same
    | inr (judged, placed) ↦ inr (good_lem p small word apart judged, placed)
  ]

  -- The counters of what became of packets.
  abbrev pub tally : Tx A W → ℕ
  tally x =
      x.timed_reject + x.pos_late + x.timed_placed + x.mode_reject + x.pos_misaligned + x.pos_placed
      + x.unstamped

  place_timed-tally :
      (p : Packet A) (x : Tx A W) → tally (place_timed z g e p x) % 2 ^ 32 ≡ (tally x + 1) % 2 ^ 32
  unfolding place_timed fill_timed assemble break_window win_close
  place_timed-tally p x = ground arith

  settle-tally :
      (v : Verdict) (p : Packet A) (x : Tx A W)
      → (((settle z g e v p x).0 ≡ true)
          × (tally (settle z g e v p x).1 % 2 ^ 32 ≡ (tally x + 1) % 2 ^ 32))
        ⊎ ((settle z g e v p x ≡ (false, x)) × (v ≡ early))
  unfolding settle place_pos
  settle-tally late p x = inl (refl, ground arith)
  settle-tally wild p x = inl (refl, ground arith)
  settle-tally early p x = inr (refl, refl)
  settle-tally good p x = let timed = place_timed-tally p x in inl (ground arith, ground arith)

  -- The consumer is done with a packet and counts it once, modulo 2^32, as rejected, placed or
  -- refused; or the packet is early, and then nothing changes and it stays in the queue.
  pub consume-tally :
      (p : Packet A) (x : Tx A W)
      → (((consume z g e p x).0 ≡ true)
          × (tally (consume z g e p x).1 % 2 ^ 32 ≡ (tally x + 1) % 2 ^ 32))
        ⊎ ((consume z g e p x ≡ (false, x)) × (verdict z g e p ≡ early))
  unfolding consume
  consume-tally p x = settle-tally (verdict z g e p) p x
