-- ===== src/Lalib/Session/Life.antt =====
-- The ends of a session: the quiesce, and an uncommanded restart of the modem
-- (`rfnm_la9310_quiesce` and `rfnm_phy_restart_workfn` of kernel_driver/la9310rfnm/rfnm_lalib.c).
use mathlib.Core.Path.{subst}
use la9310_driver.Base.{
  ℕ, ◌≡◌, ◌≢◌, ◌⊎◌, inl, inr, refl, sym, ap, ◌∙◌, true, false, not, ◌&&◌, ◌||◌, if-intro,
  Bool-cases, if◌then◌else◌, ◌==◌, ℤ, pos, is_zero, failure, success, arith,
}
use la9310_driver.Lalib.Word.{rx_lanes, bit}
use la9310_driver.Lalib.Session.{
  Session, Modem, Sys, with_word, stream_send, stream_send_locked, stream_reapply, tdd, quiesce,
  phy_restart_notify, phy_restart_work, inject, gen_tx_init_cycle,
}
use la9310_driver.Lalib.Session.Outcome.{send_lem, Sent, prepared}

module _ {W : Type 0} (m : Modem W) where
  reapply_idle : (s : Sys W) → s.session.stream_word ≡ 0 → stream_reapply m s ≡ s
  unfolding stream_reapply
  reapply_idle s h =
      if-intro (λ (x : Sys W). x ≡ s)
        ((s.session.stream_word == 0) || (rx_lanes s.session.stream_word == 0)) _ _ (λ _. refl)
        λ live. ground arith

  inject-zero : (s : Sys W) → inject m s 0 ≡ 0
  inject-zero s =
      if-intro (λ (u : ℕ). u ≡ 0) (m.rtc_armed s.world && not (bit 0 0 == 0)) _ _
        (λ h. ground arith) λ _. refl

  prepared-zero : (init : Sys W → Sys W) (s : Sys W) → prepared m init (inject m s 0) s ≡ s
  prepared-zero init s = rw (inject-zero s) refl

  -- The session after the word 0 was sent.
  abbrev ended : Session → Session
  ended x = record x { stream_word = 0 }

  send_zero : (s : Sys W) → ended (stream_send m 0 s).1.session ≡ ended s.session
  unfolding stream_send stream_send_locked
  send_zero s =
      let init = gen_tx_init_cycle m (inject m s 0) in
      let r = stream_send m 0 s in
      elim (send_lem m init 0 false s) [
        | inl (_, _, kept) ↦ ap (λ (x : ℤ × Sys W). ended x.1.session) kept
        | inr (_, o) ↦ elim (Bool-cases (not (is_zero r.0))) [
          | inl bad ↦
              let (same, _) = o.failed (failure r.0 bad) in
              ap ended (same ∙ ap (λ (x : Sys W). x.session) (prepared-zero init s))
          | inr ok ↦
              let (word, _) = o.succeeded (success r.0 ok) in
              ap ended (word) ∙ ap (λ (x : Sys W). ended x.session) (prepared-zero init s)
        ]
      ]

  -- A session that ended from `s`.
  pub record Ended (s s' : Sys W) : Type 0 where
    pub word : s'.session.stream_word ≡ 0
    pub tick : s'.session.anchor_tick ≡ s.session.anchor_tick
    pub valid : s'.session.anchor_valid ≡ s.session.anchor_valid
    -- no pattern is armed, or the time generation was not good or the modem refused the stop
    pub disarmed :
        (s'.session.tdd_armed ≡ false)
        ⊎ ((w : W) × ((m.phy_gen_session_ok w ≡ false) ⊎ ((m.send_tdd 0 0 w).0 ≢ pos 0)))

  tdd_zero : (s : Sys W) → s.session.stream_word ≡ 0 → Ended s (tdd m 0 0 s).1
  unfolding tdd
  tdd_zero s h =
      let w = (m.send_tdd 0 0 s.world).1 in
      let x : Sys W = record s {
        session = record s.session { tdd_period_chunks = 0; tdd_armed = false };
        world = w;
      } in
      if-intro (λ (r : ℤ × Sys W). Ended s r.1) (not (m.phy_gen_session_ok s.world)) _ _
        (λ dead. record {
          word = h;
          tick = refl;
          valid = refl;
          disarmed = inr (s.world, inl (ground arith));
        })
        λ _.
          if-intro (λ (r : ℤ × Sys W). Ended s r.1) (not (is_zero (m.send_tdd 0 0 s.world).0)) _ _
            (λ bad. record {
              word = h;
              tick = refl;
              valid = refl;
              disarmed = inr (s.world, inr (failure (m.send_tdd 0 0 s.world).0 bad));
            })
            λ _.
              subst (Ended s) (sym (reapply_idle x h))
                (record { word = h; tick = refl; valid = refl; disarmed = inl refl })

  -- After the quiesce no word is live and the standing anchor is as before. No pattern is armed either,
  -- unless the session's time generation was not good or the modem refused to stop the pattern.
  pub quiesce_lem : (s : Sys W) → Ended s (quiesce m s)
  unfolding quiesce
  quiesce_lem s =
      let s₁ : Sys W =
        if not (s.session.stream_word == 0) then with_word (stream_send m 0 s).1 0 else s in
      let e : s₁.session ≡ ended s.session =
        if-intro (λ (x : Sys W). x.session ≡ ended s.session) (not (s.session.stream_word == 0)) _ _
          (λ _. send_zero s)
          (λ h.
            let z : s.session.stream_word ≡ 0 = ground arith in
            λ i. record s.session { stream_word = z i }) in
      let z : s₁.session.stream_word ≡ 0 = ap (λ (x : Session). x.stream_word) e in
      let done = tdd_zero s₁ z in
      let tick : s₁.session.anchor_tick ≡ s.session.anchor_tick =
        ap (λ (x : Session). x.anchor_tick) e in
      let valid : s₁.session.anchor_valid ≡ s.session.anchor_valid =
        ap (λ (x : Session). x.anchor_valid) e in
      if-intro (Ended s) s₁.session.tdd_armed _ _
        (λ _. record {
          word = done.word;
          tick = done.tick ∙ tick;
          valid = done.valid ∙ valid;
          disarmed = done.disarmed;
        })
        λ idle. record { word = z; tick = tick; valid = valid; disarmed = inl idle }

  -- The system of the work that follows a restart, before it sends.
  abbrev pub restarted : Sys W → Sys W
  restarted s = record (with_word s 0) { restart_stash = 0; restart_work = false }

  abbrev notified : Sys W → Sys W
  notified s = record (with_word s 0) { restart_stash = s.session.stream_word; restart_work = true }

  notify_lem : (s : Sys W) → s.session.stream_word ≢ 0 → phy_restart_notify m s ≡ notified s
  unfolding phy_restart_notify
  notify_lem s live =
      if-intro (λ (x : Sys W). x ≡ notified s) (not (s.session.stream_word == 0)) _ _ (λ _. refl)
        λ h. absurd (live (ground arith))

  work_idle :
      (s : Sys W)
      → rx_lanes s.session.stream_word ≡ 0
      → phy_restart_work m (notified s) ≡ restarted s
  unfolding phy_restart_work
  work_idle s h =
      if-intro (λ (x : Sys W). x ≡ restarted s)
        (not (s.session.stream_word == 0) && not (rx_lanes s.session.stream_word == 0)) _ _
        (λ on. ground arith) λ _. refl

  work_live :
      (s : Sys W)
      → s.session.stream_word ≢ 0
      → rx_lanes s.session.stream_word ≢ 0
      → phy_restart_work m (notified s)
        ≡ (stream_send_locked m s.session.stream_word true (restarted s)).1
  unfolding phy_restart_work
  work_live s live h =
      if-intro
        (λ (x : Sys W). x ≡ (stream_send_locked m s.session.stream_word true (restarted s)).1)
        (not (s.session.stream_word == 0) && not (rx_lanes s.session.stream_word == 0)) _ _
        (λ _. refl) λ off. absurd (ground arith)

  -- The modem restarts under a live word. If the word has a lane of reception, the work sends it
  -- again, once or twice, although it is the word that was last sent. If it has none, the work sends
  -- nothing, and no word is live.
  pub restart_lem :
      (s : Sys W)
      → s.session.stream_word ≢ 0
      → ((rx_lanes s.session.stream_word ≡ 0)
          × (phy_restart_work m (phy_restart_notify m s) ≡ restarted s))
        ⊎ ((rx_lanes s.session.stream_word ≢ 0)
            × ((r : ℤ × Sys W) × (phy_restart_work m (phy_restart_notify m s) ≡ r.1)
                × Sent m
                    (inject m (restarted s) s.session.stream_word)
                    (prepared m
                      (gen_tx_init_cycle m (inject m (restarted s) s.session.stream_word))
                      (inject m (restarted s) s.session.stream_word)
                      (restarted s))
                    r))
  unfolding stream_send_locked
  restart_lem s live =
      let noted = ap (phy_restart_work m) (notify_lem s live) in
      let t = s.session.stream_word in
      elim (Bool-cases (rx_lanes t == 0)) [
        | inl off ↦
            let none_on : rx_lanes t ≡ 0 = ground arith in
            inl (none_on, noted ∙ work_idle s none_on)
        | inr on ↦
            let some_on : rx_lanes t ≢ 0 = λ e. ground arith in
            let init = gen_tx_init_cycle m (inject m (restarted s) t) in
            elim (send_lem m init t true (restarted s)) [
              | inl (forced, _, _) ↦ absurd (cc)
              | inr (_, o) ↦ inr (
                some_on,
                (stream_send_locked m t true (restarted s), noted ∙ work_live s live some_on, o),
              )
            ]
      ]
