-- ===== src/Lalib/Vwin/Pump.antt =====
-- What the pump of the window queue does (`rfnm_vwin_pump` of
-- kernel_driver/la9310rfnm/rfnm_lalib.c).
use mathlib.Core.Path.{subst}
use la9310_driver.Base.{
  ℕ, zero, suc, ◌%◌, ◌^◌, ◌≤◌, ◌<◌, ◌≡◌, ◌≢◌, ◌⊎◌, inl, inr, refl, sym, ap, ◌∙◌, Bool, true, false,
  ◌+◌, not, ◌&&◌, if-intro, List, [], ◌∷◌, ◌++◌, ◌==◌, arith,
}
use la9310_driver.Lalib.Vwin.{
  close_margin, Window, Air, Send, Vwin, Turn, ends, goes_on, sub32, after, next32, ticks_to_ns,
  used, is_late, head_at, turn, pump_for, pump, qlen,
}

-- A queue within its slots, with counters of 32 bits.
pub record IsQueue {W : Type 0} (v : Vwin W) : Type 0 where
  pub prod_bound : v.prod < 2 ^ 32
  pub cons_bound : v.cons < 2 ^ 32
  pub used_bound : used v ≤ qlen

ticks_pos : (t : ℕ) → 0 < t → ticks_to_ns t ≢ 0
unfolding ticks_to_ns
ticks_pos t h e = omega arith

module _ {W : Type 0} (air : Air W) where
  -- The window before had closed by the time of a send, and the send was not late.
  abbrev pub InTime : Send → Type 0
  InTime s =
      ((s.busy_valid && after s.busy_until s.at_tick) ≡ false)
      × (is_late air s.at_tick s.window ≡ false)

  -- The pacing after some sends, the last one first, from that of a queue: a send keeps the modem busy
  -- until its window has closed.
  abbrev pub pace : List Send → Bool × ℕ → Bool × ℕ
  pace [] start = start
  pace (s ∷ l) start = (true, (s.window.close_tick + close_margin) % 2 ^ 32)

  -- Every send was in time, by the pacing that the send before it had set.
  abbrev pub AllInTime : List Send → Bool × ℕ → Type 0
  AllInTime [] start = Unit
  AllInTime (s ∷ l) start =
      InTime s × ((s.busy_valid, s.busy_until) ≡ pace l start) × AllInTime l start

  abbrev pub pacing : Vwin W → Bool × ℕ
  pacing v = (v.busy_valid, v.busy_until)

  -- There is a reason to stop with windows waiting: the timer is to fire again, or the device is gone.
  abbrev pub Waits : Vwin W → Type 0
  Waits v = (v.next_ns ≢ 0) ⊎ (air.reachable v.world ≡ false)

  record Same (v v' : Vwin W) : Type 0 where
    q : v'.q ≡ v.q
    prod : v'.prod ≡ v.prod

  record Stops (v v' : Vwin W) : Type 0 where
    same : Same v v'
    cons : v'.cons ≡ v.cons
    sends : v'.sends ≡ v.sends
    paced : pacing v' ≡ pacing v
    waits : Waits v'

  record Goes (v v' : Vwin W) : Type 0 where
    same : Same v v'
    cons : v'.cons ≡ next32 v.cons
    sends :
        ((v'.sends ≡ v.sends) × (pacing v' ≡ pacing v))
        ⊎ ((s : Send) × InTime s
            × (v'.sends ≡ s ∷ v.sends)
            × (◌≡◌ {A = Bool × ℕ} (s.busy_valid, s.busy_until) (pacing v))
            × (pacing v' ≡ pace (s ∷ []) (pacing v)))

  abbrev Turned : Vwin W → Turn air → Type 0
  Turned v (ends v') = Stops v v'
  Turned v (goes_on v') = Goes v v'

  head-Turned : (now : ℕ) (w : Window) (v : Vwin W) → Turned v (head_at air now w v)
  unfolding head_at
  head-Turned now w v =
      if-intro (Turned v) (v.busy_valid && after v.busy_until now) _ _
        (λ busy. record {
          same = record { q = refl; prod = refl };
          cons = refl;
          sends = refl;
          paced = refl;
          waits = inl (ticks_pos (sub32 v.busy_until now) (ground arith));
        })
        λ free.
          if-intro (Turned v) (is_late air now w) _ _
            (λ _. record {
              same = record { q = refl; prod = refl };
              cons = refl;
              sends = inl (refl, refl);
            })
            λ in_time.
              if-intro (Turned v) (air.mbox_unconsumed v.world).0 _ _
                (λ _. record {
                  same = record { q = refl; prod = refl };
                  cons = refl;
                  sends = refl;
                  paced = refl;
                  waits = inl (λ e. omega (arith, e));
                })
                λ _. record {
                  same = record { q = refl; prod = refl };
                  cons = refl;
                  sends = inr (
                    record {
                      window = w;
                      at_tick = now;
                      busy_valid = v.busy_valid;
                      busy_until = v.busy_until;
                    },
                    (free, in_time),
                    refl,
                    refl,
                    refl,
                  );
                }

  -- Reading the time changes nothing that a turn is measured by.
  from_time : (w : W) (v : Vwin W) (t : Turn air) → Turned (record v { world = w }) t → Turned v t
  from_time w v (ends v') h = record {
    same = record { q = h.same.q; prod = h.same.prod };
    cons = h.cons;
    sends = h.sends;
    paced = h.paced;
    waits = h.waits;
  }
  from_time w v (goes_on v') h = record {
    same = record { q = h.same.q; prod = h.same.prod };
    cons = h.cons;
    sends = h.sends;
  }

  turn-Turned : (v : Vwin W) → Turned v (turn air v)
  unfolding turn
  turn-Turned v =
      if-intro (Turned v) (not (air.reachable v.world)) _ _
        (λ gone. record {
          same = record { q = refl; prod = refl };
          cons = refl;
          sends = refl;
          paced = refl;
          waits = inr (ground arith);
        })
        λ _.
          let (now, w) = air.phytimer_now v.world in
          from_time w v _ (head-Turned now (v.q (v.cons % qlen)) (record v { world = w }))

  snoc : (new : List Send) (s : Send) (l : List Send) → new ++ (s ∷ l) ≡ (new ++ (s ∷ [])) ++ l
  snoc [] s l = refl
  snoc (x ∷ new) s l = ap (λ (r : List Send). x ∷ r) (snoc new s l)

  pace-snoc :
      (new : List Send) (s : Send) (start : Bool × ℕ)
      → pace (new ++ (s ∷ [])) start ≡ pace new (pace (s ∷ []) start)
  pace-snoc [] s start = refl
  pace-snoc (x ∷ new) s start = refl

  AllInTime-snoc :
      (new : List Send) (s : Send) (start : Bool × ℕ)
      → AllInTime new (pace (s ∷ []) start)
      → InTime s
      → ◌≡◌ {A = Bool × ℕ} (s.busy_valid, s.busy_until) start
      → AllInTime (new ++ (s ∷ [])) start
  AllInTime-snoc [] s start h i e = (i, e, tt)
  AllInTime-snoc (x ∷ new) s start (a, p, h) i e =
      (a, p ∙ sym (pace-snoc new s start), AllInTime-snoc new s start h i e)

  -- From `v` the pump comes to `v'`: the slots and the end of the queue are the same, no more windows
  -- wait than before, those that were sent were sent in time with the pacing handed on, and it is
  -- done or has a reason to wait.
  pub record Pumped (v v' : Vwin W) : Type 0 where
    pub q : v'.q ≡ v.q
    pub prod : v'.prod ≡ v.prod
    pub cons_bound : v'.cons < 2 ^ 32
    pub fewer : used v' ≤ used v
    pub sends :
        (new : List Send) × (v'.sends ≡ new ++ v.sends)
        × AllInTime new (pacing v)
        × (pacing v' ≡ pace new (pacing v))
    pub done : (v'.cons ≡ v'.prod) ⊎ Waits v'

  -- After a turn that goes on.
  after_turn :
      (v v₁ v₂ : Vwin W)
      → v.prod < 2 ^ 32
      → v.cons < 2 ^ 32
      → v.cons ≢ v.prod
      → Goes v v₁
      → Pumped v₁ v₂
      → Pumped v v₂
  after_turn v v₁ v₂ hp hc ne g r = record {
    q = r.q ∙ g.same.q;
    prod = r.prod ∙ g.same.prod;
    cons_bound = r.cons_bound;
    fewer = omega (arith, r.fewer, g.same.prod, g.cons);
    sends =
        let (new, e, ok, p) = r.sends in
        elim (g.sends) [
          | inl (f, same) ↦ (
            new,
            e ∙ ap (λ (l : List Send). new ++ l) f,
            subst (AllInTime new) same ok,
            p ∙ ap (pace new) same,
          )
          | inr (s, i, f, was, now) ↦ (
            new ++ (s ∷ []),
            e ∙ ap (λ (l : List Send). new ++ l) f ∙ snoc new s v.sends,
            AllInTime-snoc new s (pacing v) (subst (AllInTime new) now ok) i was,
            p ∙ ap (pace new) now ∙ sym (pace-snoc new s (pacing v)),
          )
        ];
    done = r.done;
  }

  -- Nothing waits, or the turn was the last.
  rests : (v : Vwin W) → v.cons < 2 ^ 32 → v.cons ≡ v.prod → Pumped v v
  rests v hc e = record {
    q = refl;
    prod = refl;
    cons_bound = hc;
    fewer = omega arith;
    sends = ([], refl, tt, refl);
    done = inl e;
  }

  stops : (v v' : Vwin W) → v.cons < 2 ^ 32 → Stops v v' → Pumped v v'
  stops v v' hc h = record {
    q = h.same.q;
    prod = h.same.prod;
    cons_bound = omega (arith, h.cons);
    fewer = omega (arith, h.cons, h.same.prod);
    sends = ([], h.sends, tt, h.paced);
    done = inr (h.waits);
  }

  pump_for-Pumped :
      (n : ℕ) (v : Vwin W)
      → v.prod < 2 ^ 32
      → v.cons < 2 ^ 32
      → used v ≤ n
      → Pumped v (pump_for air n v)
  unfolding pump_for
  pump_for-Pumped zero v hp hc few = rests v hc (omega arith)
  pump_for-Pumped (suc n) v hp hc few =
      if-intro (Pumped v) (v.cons == v.prod) _ _ (λ e. rests v hc (ground arith))
        λ ne. goes (pump_for-Pumped n) (turn air v) (λ e. ground arith) (turn-Turned v)
    where
      goes :
          ((x : Vwin W)
            → x.prod < 2 ^ 32
            → x.cons < 2 ^ 32
            → used x ≤ n
            → Pumped x (pump_for air n x))
          → (t : Turn air) → v.cons ≢ v.prod
          → Turned v t
          → Pumped v (elim t [ ends v' ↦ v' | goes_on v' ↦ pump_for air n v' ])
      goes rest (ends v') ne h = stops v v' hc h
      goes rest (goes_on v') ne h = after_turn v v' (pump_for air n v') hp hc ne h (
          rest v' (omega (arith, h.same.prod)) (omega (arith, h.cons))
            (omega (arith, h.same.prod, h.cons)))

  -- The pump of a queue comes to an end with no more windows waiting than before. Either none waits, or
  -- the timer is to fire again, or the device is gone. By the 32-bit comparison of ticks, no window
  -- that it sent went out later than 6144 ticks before it opens, or while the window sent before it
  -- kept the modem busy, which is until 64 ticks after its close; for the first of them the pacing
  -- stands as the queue had it, and the last one's is left to the next pump.
  pub pump-Pumped : (v : Vwin W) → IsQueue v → Pumped v (pump air v)
  unfolding pump
  pump-Pumped v h = pump_for-Pumped (used v) v (h.prod_bound) (h.cons_bound) (omega arith)
