-- ===== src/Rfnm/Consumer/Place.antt =====
-- Where the consumer puts a packet (`rfnm_handler_out` and `rfnm_tx_win_close` of
-- kernel_driver/la9310rfnm/la9310_rfnm.c): by its stamp into the ring, and into a window.
use Prim.Native.Nat.{min}
use la9310_driver.Base.{
  ℕ, zero, suc, ◌+◌, ◌-◌, ◌*◌, ◌/◌, ◌%◌, ◌^◌, Bool, true, false, not, ◌&&◌, ◌||◌, List, [], ◌++◌,
  none, some, ltb, ◌==◌, if◌then◌else◌, ℤ, neg, is_zero, sub32, next32, take, drop, replicate,
}
use la9310_driver.Rfnm.Consumer.{
  Geometry, bufcnt, Packet, Env, Tx, next64, lead, ticks_per_slot, min_lead_ticks, Verdict, late,
  wild, early, good, judge,
}

module _ {A : Type 0} (z : A) (g : Geometry) where
  abbrev pub write : (ℕ → List A) → ℕ → List A → ℕ → List A
  write ring s v i = if i == s then v else ring i

  abbrev pub zeros : ℕ → List A
  zeros n = replicate n z

  -- `multi` of the header, if it is in range.
  unfoldable pub lb_multi : Packet A → ℕ
  lb_multi p = if ltb 0 p.multi && not (ltb g.buf_multi p.multi) then p.multi else g.buf_multi

  -- `csrc`: the samples of the first `n` base buffers.
  unfoldable pub samples : Packet A → ℕ → List A
  samples p zero = []
  samples p (suc n) = samples p n ++ p.chunk n

  -- What a round of the loop leaves in a slot: `s0` zeros, the next samples, and zeros up to the end.
  unfoldable pub slot_of : List A → ℕ → ℕ → ℕ → List A
  slot_of src content s0 done =
      let n = min (g.elems_per_slot - s0) (content - done) in
      zeros s0 ++ (take n (drop done src) ++ zeros (g.elems_per_slot - s0 - n))

  -- The loop of a timed packet over `k` slots from the `w`-th on, with `done` samples copied.
  unfoldable pub fill : ℕ → ℕ → List A → ℕ → ℕ → ℕ → ℕ → (ℕ → List A) → ℕ → List A
  unfolding slot_of
  fill base_slot pad src content zero w done ring = ring
  fill base_slot pad src content (suc k) w done ring =
      let s0 = if w == 0 then pad else 0 in
      fill base_slot pad src content k (w + 1) (done + min (g.elems_per_slot - s0) (content - done))
        (write ring ((base_slot + w) % bufcnt g) (slot_of src content s0 done))

  -- The base buffers of a positional packet, one to a slot.
  unfoldable pub copy : ℕ → Packet A → ℕ → (ℕ → List A) → ℕ → List A
  copy slot p zero ring = ring
  copy slot p (suc k) ring = write (copy slot p k ring) ((slot + k) % bufcnt g) (p.chunk k)

  module _ {W : Type 0} (e : Env W) where
    abbrev pub tps : ℕ
    tps = ticks_per_slot e.tx_r_shift

    -- `off`: the ticks from the anchor to the stamp.
    abbrev pub offset : Packet A → ℕ
    offset p = sub32 p.phytimer e.tx_t0

    -- `base_slot` and `pad_samples`
    abbrev pub slot_at : Packet A → ℕ
    slot_at p = offset p / tps % bufcnt g

    abbrev pub pad_samples : Packet A → ℕ
    pad_samples p = offset p % tps * g.elems_per_slot / tps

    abbrev pub span : Packet A → ℕ
    span p =
        (pad_samples p + lb_multi p * g.elems_per_slot + g.elems_per_slot - 1) / g.elems_per_slot

    -- rfnm_tx_win_close: the sink gets the window with its pad slot, or -ENXIO stands for its result.
    unfoldable pub win_close : Bool → Tx A W → Tx A W
    win_close implicit x =
        let result : ℤ × W = elim e.window_cb [
          | none ↦ (neg 6, x.world)
          | some cb ↦ cb x.win.open_tick x.win.first_slot ((x.win.slots + 1) % 2 ^ 32) x.world
        ] in
        if not x.win.active then x else record x {
          ring = write x.ring x.win.next_slot (zeros g.elems_per_slot);
          win = record x.win { active = false };
          wa_cbfail = if is_zero result.0 then x.wa_cbfail else next32 x.wa_cbfail;
          wa_windows = if is_zero result.0 then next32 x.wa_windows else x.wa_windows;
          wa_implicit = if implicit then next32 x.wa_implicit else x.wa_implicit;
          world = result.1;
        }

    abbrev pub is_aligned : Packet A → Bool
    is_aligned p = (pad_samples p == 0) && (span p == lb_multi p)

    -- A window that stands and that the packet does not go on with is closed.
    unfoldable pub break_window : Packet A → Tx A W → Tx A W
    unfolding win_close
    break_window p x =
        if x.win.active && (not (is_aligned p) || not (slot_at p == x.win.next_slot))
        then win_close true x
        else x

    abbrev pub start_window : Packet A → Tx A W → Tx A W
    start_window p x = if x.win.active then x else record x {
      win = record {
        open_tick = p.phytimer;
        first_slot = slot_at p;
        next_slot = slot_at p;
        slots = 0;
        active = true;
      };
    }

    abbrev pub extend_window : Packet A → Tx A W → Tx A W
    extend_window p x = record x {
      win = record x.win {
        next_slot = (x.win.next_slot + lb_multi p) % bufcnt g;
        slots = (x.win.slots + lb_multi p) % 2 ^ 32;
      };
    }

    -- The assembly of windows from the timed packets.
    unfoldable pub assemble : Packet A → Tx A W → Tx A W
    unfolding break_window win_close
    assemble p x =
        let x₁ = break_window p x in
        if not (is_aligned p)
        then record x₁ { wa_ragged = next32 x₁.wa_ragged }
        else (let x₂ = extend_window p (start_window p x₁) in
            if p.eob then win_close false x₂ else x₂)

    -- A timed packet is copied to its place.
    unfoldable pub fill_timed : Packet A → Tx A W → Tx A W
    unfolding fill samples lb_multi
    fill_timed p x = record x {
      ring =
          fill (slot_at p) (pad_samples p) (samples p (lb_multi p)) (lb_multi p * g.elems_per_slot)
            (span p) 0 0 x.ring;
    }

    unfoldable pub place_timed : Packet A → Tx A W → Tx A W
    unfolding fill_timed assemble
    place_timed p x =
        let x₁ = fill_timed p x in
        let x₂ = if e.windowed then assemble p x₁ else x₁ in
        record x₂ {
          timed_placed = next32 x₂.timed_placed;
          usb_cc = next64 p.usb_cc;
          local_tx_ok = next64 x₂.local_tx_ok;
        }

    unfoldable pub place_pos : Packet A → Tx A W → Tx A W
    unfolding copy lb_multi
    place_pos p x =
        let x₁ = record x {
          cc_gap = if p.usb_cc == x.usb_cc then x.cc_gap else next32 x.cc_gap;
          usb_cc = next64 p.usb_cc;
        } in
        let after = (slot_at p + lb_multi p) % bufcnt g in
        if e.pos_refused
        then record x₁ { mode_reject = next32 x₁.mode_reject }
        else if not (offset p % tps == 0)
        then record x₁ { pos_misaligned = next32 x₁.pos_misaligned }
        else record x₁ {
          ring = copy (slot_at p) p (lb_multi p) x₁.ring;
          pos_expect = after;
          pos_expect_valid = true;
          head = after;
          pos_placed = next32 x₁.pos_placed;
          local_tx_ok = next64 x₁.local_tx_ok;
        }

    -- A packet that is dropped by the judge, late or wild.
    abbrev pub reject : Packet A → Tx A W → Tx A W
    reject p x = record x {
      timed_reject = if p.time_valid then next32 x.timed_reject else x.timed_reject;
      pos_late = if p.time_valid then x.pos_late else next32 x.pos_late;
      usb_cc = next64 p.usb_cc;
    }

    abbrev pub verdict : Packet A → Verdict
    verdict p = judge g (min_lead_ticks e.lead_margin_slots tps) tps (lead e.now64 p.phytimer)

    -- What becomes of a packet that was judged. The result tells whether it is done with; if not, it
    -- stays at the head of the queue.
    unfoldable pub settle : Verdict → Packet A → Tx A W → Bool × Tx A W
    unfolding place_timed place_pos
    settle late p x = (true, record (reject p x) { last_late_usb_cc = p.usb_cc })
    settle wild p x = (true, reject p x)
    settle early p x = (false, x)
    settle good p x =
        if p.time_valid
        then (true, place_timed p x)
        else if p.pos_valid
        then (true, place_pos p x)
        else (true, record x { unstamped = next32 x.unstamped; usb_cc = next64 p.usb_cc })

    -- One packet, from the judgement on.
    unfoldable pub consume : Packet A → Tx A W → Bool × Tx A W
    unfolding settle
    consume p x = settle (verdict p) p x

    -- `tx_consume_done`: the statistics of every packet that is done with.
    unfoldable pub take_packet : Packet A → Tx A W → Bool × Tx A W
    unfolding consume
    take_packet p x =
        let (done, x₁) = consume p x in
        if done then (true, record x₁ { local_tx_ok = next64 x₁.local_tx_ok }) else (false, x₁)
