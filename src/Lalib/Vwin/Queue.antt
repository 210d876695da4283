-- ===== src/Lalib/Vwin/Queue.antt =====
-- What a new window does to the queue (`rfnm_la9310_tx_window` of
-- kernel_driver/la9310rfnm/rfnm_lalib.c).
use la9310_driver.Base.{
  ℕ, ◌+◌, ◌*◌, ◌/◌, ◌%◌, ◌^◌, ◌<◌, ◌≡◌, ◌≢◌, ◌⊎◌, inl, inr, refl, ap, ◌∙◌, not, ◌||◌, if-intro, leb,
  ◌==◌, if◌then◌else◌, ℤ, pos, is_zero, failure, arith,
}
use la9310_driver.Lalib.Vwin.{
  Window, Air, Vwin, sub32, next32, used, qlen, slot_ticks, enqueue, pump, tx_window,
}
use la9310_driver.Lalib.Vwin.Pump.{IsQueue, Pumped, pump-Pumped}

module _ {W : Type 0} (air : Air W) where
  -- The window that is asked for: it closes a quarter of a slot before the end of its slots.
  abbrev pub wanted : ℕ → ℕ → ℕ → Vwin W → Window
  wanted open_tick src_slot len_slots v =
      let tps = slot_ticks air (air.tx_r_shift v.world) in
      record {
        open_tick = open_tick;
        close_tick = (open_tick + sub32 (len_slots * tps % 2 ^ 32) (tps / 4)) % 2 ^ 32;
        src_slot = src_slot;
        len_slots = len_slots;
      }

  -- The window `w` stands at the end of the queue of `v`, and the other slots are as before.
  pub record Queued (w : Window) (v v' : Vwin W) : Type 0 where
    pub room : used v < qlen
    pub prod : v'.prod ≡ next32 v.prod
    pub slot : v'.q (v.prod % qlen) ≡ w
    pub others : (i : ℕ) → i ≢ v.prod % qlen → v'.q i ≡ v.q i

  pub record Refused (v v' : Vwin W) : Type 0 where
    pub q : v'.q ≡ v.q
    pub prod : v'.prod ≡ v.prod
    pub cons : v'.cons ≡ v.cons

  -- Queued with the result 0, or refused with another; the queue stays one.
  pub record WindowOutcome (w : Window) (v : Vwin W) (r : ℤ × Vwin W) : Type 0 where
    pub queue : IsQueue r.1
    pub result : ((r.0 ≡ pos 0) × Queued w v r.1) ⊎ ((r.0 ≢ pos 0) × Refused v r.1)

  refusal :
      (w : Window) (v : Vwin W) (r : ℤ × Vwin W)
      → IsQueue v
      → r.0 ≢ pos 0
      → r.1.q ≡ v.q
      → r.1.prod ≡ v.prod
      → r.1.cons ≡ v.cons
      → WindowOutcome w v r
  refusal w v r h bad q p c = record {
    queue = record {
      prod_bound = omega (arith, p, h.prod_bound);
      cons_bound = omega (arith, c, h.cons_bound);
      used_bound = omega (arith, p, c, h.used_bound);
    };
    result = inr (bad, record { q = q; prod = p; cons = c });
  }

  queued :
      (w : Window) (v v₁ v₂ : Vwin W)
      → IsQueue v
      → used v < qlen
      → v₁.prod ≡ next32 v.prod
      → v₁.cons ≡ v.cons
      → v₁.q ≡ (λ (i : ℕ). if i == v.prod % qlen then w else v.q i)
      → Pumped air v₁ v₂
      → WindowOutcome w v (pos 0, v₂)
  queued w v v₁ v₂ h room p c q d = record {
    queue = record {
      prod_bound = omega (arith, d.prod, p);
      cons_bound = d.cons_bound;
      used_bound = omega (arith, d.fewer, p, c, h.prod_bound, h.cons_bound);
    };
    result = inl (
      refl,
      record {
        room = room;
        prod = d.prod ∙ p;
        slot =
            ap (λ (f : ℕ → Window). f (v.prod % qlen)) (d.q ∙ q)
            ∙ if-intro (λ (x : Window). x ≡ w) (v.prod % qlen == v.prod % qlen) w _ (λ _. refl)
                (λ off. absurd (ground arith));
        others = λ i ne.
            ap (λ (f : ℕ → Window). f i) (d.q ∙ q)
            ∙ if-intro (λ (x : Window). x ≡ v.q i) (i == v.prod % qlen) w (v.q i)
                (λ on. absurd (ne (ground arith))) (λ _. refl);
      },
    );
  }

  -- A window is put at the end of the queue, with the result 0, only where the queue has room; else
  -- the result is an error and the queue is as before. The close of a queued window is a quarter of a
  -- slot before the end of its slots. Either way at most 512 windows wait afterwards.
  pub tx_window_lem :
      (open_tick src_slot len_slots : ℕ) (v : Vwin W)
      → IsQueue v
      → WindowOutcome
          (wanted open_tick src_slot len_slots v)
          v
          (tx_window air open_tick src_slot len_slots v)
  unfolding tx_window enqueue
  tx_window_lem open_tick src_slot len_slots v h =
      let w = wanted open_tick src_slot len_slots v in
      let P = WindowOutcome w v in
      if-intro P (not (air.reachable v.world) || not air.has_status) _ _
        (λ _. refusal w v _ h (λ e. cc) refl refl refl)
        λ _.
          if-intro P (air.tx_state v.world / 2 ^ 5 % 2 == 0) _ _
            (λ _. refusal w v _ h (λ e. cc) refl refl refl)
            λ _.
              if-intro P (leb qlen (used v)) _ _ (λ _. refusal w v _ h (λ e. cc) refl refl refl)
                λ room.
                  let push =
                    air.rtc_push open_tick
                      (sub32 (len_slots * slot_ticks air (air.tx_r_shift v.world) % 2 ^ 32)
                        (slot_ticks air (air.tx_r_shift v.world) / 4))
                      v.world in
                  if-intro P (not (is_zero push.0)) _ _
                    (λ bad. refusal w v _ h (failure push.0 bad) refl refl refl)
                    λ _.
                      let v₁ : Vwin W =
                        record (enqueue air w (record v { world = air.rtc_doorbell push.1 })) {
                          next_ns = 0;
                        } in
                      let few : used v < qlen = ground arith in
                      queued w v v₁ (pump air v₁) h few refl refl refl (
                        pump-Pumped air v₁ (record {
                          prod_bound = omega arith;
                          cons_bound = h.cons_bound;
                          used_bound = omega (arith, h.prod_bound, h.cons_bound);
                        }))
