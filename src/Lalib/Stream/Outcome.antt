-- ===== src/Lalib/Stream/Outcome.antt =====
-- What a request for a rate comes to (`rfnm_la9310_stream` of
-- kernel_driver/la9310rfnm/rfnm_lalib.c).
use mathlib.Core.Path.{subst}
use la9310_driver.Base.{
  ℕ, ◌*◌, ◌/◌, ◌^◌, ◌≡◌, ◌⊎◌, inl, inr, refl, sym, ap, ◌∙◌, Bool, true, false, not, ◌&&◌, ◌||◌,
  if-intro, if◌then◌else◌, ◌==◌, ◌∷◌, ℤ, pos, is_zero, failure, success, arith,
}
use la9310_driver.Lalib.Plan.{Lanes, DcsPlan, PlanResult, planned, refused, plan, any_rx, einval}
use la9310_driver.Lalib.Plan.Window.{InWindow, plan-InWindow, Refused, plan-Refused}
use la9310_driver.Lalib.Word.{stream_word, windowed, bit}
use la9310_driver.Lalib.Session.{
  Session, Sys, stream_send, stream_send_locked, inject, gen_tx_init_cycle,
}
use la9310_driver.Lalib.Session.Outcome.{send_lem}
use la9310_driver.Lalib.Reset.{Platform, Drv, outside}
use la9310_driver.Lalib.Stream.BringUp.{bring_up-BroughtUp}
use la9310_driver.Lalib.Stream.{cpu_qos_update, bring_up, publish, apply_word, run_plan, stream}

module _ {W : Type 0} (pf : Platform W) where
  cpu_qos-lem : (streaming held : Bool) → cpu_qos_update streaming held ≡ streaming
  unfolding cpu_qos_update
  cpu_qos-lem streaming held = ground arith

  -- The word that goes out: with the mark of a windowed session, or without.
  inject-cases :
      (s : Sys W) (t : ℕ) → (inject pf.modem s t ≡ t) ⊎ (inject pf.modem s t ≡ windowed t)
  inject-cases s t =
      if-intro (λ (u : ℕ). (u ≡ t) ⊎ (u ≡ windowed t))
        (pf.modem.rtc_armed s.world && not (bit t 0 == 0)) _ _ (λ _. inr refl) λ _. inl refl

  abbrev pub Carries : ℕ → Sys W → Type 0
  Carries t s = (s.session.stream_word ≡ t) ⊎ (s.session.stream_word ≡ windowed t)

  stream_send-Carries :
      (t : ℕ) (s : Sys W)
      → (stream_send pf.modem t s).0 ≡ pos 0
      → Carries t (stream_send pf.modem t s).1
  unfolding stream_send stream_send_locked
  stream_send-Carries t s e =
      elim (send_lem pf.modem (gen_tx_init_cycle pf.modem (inject pf.modem s t)) t false s) [
        | inl (_, same, kept) ↦
            let word : (stream_send pf.modem t s).1.session.stream_word ≡ inject pf.modem s t =
              ap (λ (r : ℤ × Sys W). r.1.session.stream_word) kept ∙ sym same in
            carried word
        | inr (_, o) ↦
            let (word, _) = o.succeeded e in carried (ap (λ (x : Session). x.stream_word) word)
      ]
    where
      carried :
          (stream_send pf.modem t s).1.session.stream_word ≡ inject pf.modem s t
          → Carries t (stream_send pf.modem t s).1
      carried word = elim (inject-cases s t) [ inl f ↦ inl (word ∙ f) | inr f ↦ inr (word ∙ f) ]

  -- What a request that gives 0 leaves behind.
  pub record Streams (rate tx : ℕ) (rx : Lanes) (p : DcsPlan) (d : Drv W) : Type 0 where
    pub word :
        (d.sys.session.stream_word ≡ stream_word tx rx p)
        ⊎ (d.sys.session.stream_word ≡ windowed (stream_word tx rx p))
    pub clock : d.selected_dcs_freq ≡ p.dcs_freq
    pub held : d.cpu_qos_held ≡ (not (tx == 0) || any_rx rx)
    pub was_on : d.tx_was_on ≡ tx
    pub anchor_step :
        d.sched_anchor_step_ticks
        ≡ 384 * 2 ^ (if not (p.rx_dcs == 0) || not (p.tx_dcs == 0) then 1 else 0)
    pub slot_rate : d.tx_slot_rate_hz ≡ (if tx == 0 then 0 else rate / 256)

  -- What publishing keeps and sets.
  pub record Published (rate tx : ℕ) (rx : Lanes) (p : DcsPlan) (d d' : Drv W) : Type 0 where
    pub registry : d'.registry ≡ d.registry
    pub reprobed : d'.reprobed ≡ d.reprobed
    pub clock : d'.selected_dcs_freq ≡ d.selected_dcs_freq
    pub held : d'.cpu_qos_held ≡ (not (tx == 0) || any_rx rx)
    pub was_on : d'.tx_was_on ≡ tx
    pub anchor_step :
        d'.sched_anchor_step_ticks
        ≡ 384 * 2 ^ (if not (p.rx_dcs == 0) || not (p.tx_dcs == 0) then 1 else 0)
    pub slot_rate : d'.tx_slot_rate_hz ≡ (if tx == 0 then 0 else rate / 256)

  pub publish-Published :
      (rate tx : ℕ) (rx : Lanes) (p : DcsPlan) (d : Drv W)
      → Published rate tx rx p d (publish pf rate tx rx p d)
  unfolding publish
  publish-Published rate tx rx p d =
      let d₁ : Drv W = record d {
        tx_slot_rate_hz = if tx == 0 then 0 else rate / 256;
        sched_anchor_step_ticks =
            384 * 2 ^ (if not (p.rx_dcs == 0) || not (p.tx_dcs == 0) then 1 else 0);
      } in
      let set : Drv W → Drv W = λ (x : Drv W). record x {
        tx_was_on = tx;
        cpu_qos_held = cpu_qos_update (not (tx == 0) || any_rx rx) x.cpu_qos_held;
      } in
      if-intro (λ (x : Drv W). Published rate tx rx p d (set x)) (tx == d₁.tx_was_on) d₁
        (outside pf (pf.tx_flush_staging (tx == 0)) d₁)
        (λ _. record {
          registry = refl;
          reprobed = refl;
          clock = refl;
          held = cpu_qos-lem _ _;
          was_on = refl;
          anchor_step = refl;
          slot_rate = refl;
        })
        λ _. record {
          registry = refl;
          reprobed = refl;
          clock = refl;
          held = cpu_qos-lem _ _;
          was_on = refl;
          anchor_step = refl;
          slot_rate = refl;
        }

  -- Only the session changes.
  pub record Sends (t : ℕ) (d : Drv W) (r : ℤ × Drv W) : Type 0 where
    pub word : r.0 ≡ pos 0 → Carries t r.1.sys
    pub same : r.1 ≡ record d { sys = r.1.sys }

  pub apply_word-Sends : (t : ℕ) (d : Drv W) → Sends t d (apply_word pf t d)
  unfolding apply_word
  apply_word-Sends t d =
      if-intro (Sends t d) (t == d.sys.session.stream_word) _ _
        (λ e. record { word = λ _. inl (ground arith); same = refl })
        λ _. record { word = stream_send-Carries t d.sys; same = refl }

  -- The clock of a reprobe, if there was one: it is the plan's, in the window, and the generator makes
  -- it or runs at it already.
  abbrev pub SafeReprobe : DcsPlan → Drv W → Drv W → Type 0
  SafeReprobe p d d' =
      (d'.reprobed ≡ d.reprobed)
      ⊎ ((d'.reprobed ≡ p.dcs_freq ∷ d.reprobed)
          × InWindow p
          × ((pf.dcs_freq_supported p.dcs_freq ≡ true)
              ⊎ (p.dcs_freq ≡ pf.get_dcs_freq d.sys.world)))

  -- A refusal that changes nothing but the cached clock, or a plan and what comes of it.
  abbrev pub StreamOutcome : ℕ → ℕ → Lanes → Drv W → ℤ × Drv W → Type 0
  StreamOutcome rate tx rx d r =
      ((plan d.registry rate tx rx ≡ refused einval)
        × (r ≡ (einval, record d { selected_dcs_freq = pf.get_dcs_freq d.sys.world })))
      ⊎ ((p : DcsPlan) × (plan d.registry rate tx rx ≡ planned p)
          × SafeReprobe p d r.1
          × (r.0 ≡ pos 0 → Streams rate tx rx p r.1))

  -- A plan that was run.
  record Ran (rate tx : ℕ) (rx : Lanes) (p : DcsPlan) (d : Drv W) (r : ℤ × Drv W) : Type 0 where
    reprobed :
        (r.1.reprobed ≡ d.reprobed)
        ⊎ ((r.1.reprobed ≡ p.dcs_freq ∷ d.reprobed)
            × ((pf.dcs_freq_supported p.dcs_freq ≡ true) ⊎ (p.dcs_freq ≡ d.selected_dcs_freq)))
    streams : r.0 ≡ pos 0 → Streams rate tx rx p r.1

  run_plan-Ran :
      (rate tx : ℕ) (rx : Lanes) (p : DcsPlan) (d : Drv W)
      → Ran rate tx rx p d (run_plan pf rate tx rx p d)
  unfolding run_plan
  run_plan-Ran rate tx rx p d =
      let b = bring_up pf p d in
      let up = bring_up-BroughtUp pf p d in
      let t = stream_word tx rx p in
      let out = publish-Published rate tx rx p b.1 in
      let r = apply_word pf t (publish pf rate tx rx p b.1) in
      let sends = apply_word-Sends t (publish pf rate tx rx p b.1) in
      if-intro (Ran rate tx rx p d) (not (is_zero b.0)) _ _
        (λ bad. record { reprobed = up.reprobed; streams = λ e. absurd (failure b.0 bad e) })
        λ ok.
          let reset : r.1.reprobed ≡ b.1.reprobed =
            ap (λ (x : Drv W). x.reprobed) sends.same ∙ out.reprobed in
          record {
            reprobed = elim (up.reprobed) [
              | inl e ↦ inl (reset ∙ e)
              | inr (e, s) ↦ inr (reset ∙ e, s)
            ];
            streams = λ e. record {
              word = sends.word e;
              clock =
                  ap (λ (x : Drv W). x.selected_dcs_freq) sends.same
                  ∙ out.clock
                  ∙ up.selected (success b.0 ok);
              held = ap (λ (x : Drv W). x.cpu_qos_held) sends.same ∙ out.held;
              was_on = ap (λ (x : Drv W). x.tx_was_on) sends.same ∙ out.was_on;
              anchor_step =
                  ap (λ (x : Drv W). x.sched_anchor_step_ticks) sends.same ∙ out.anchor_step;
              slot_rate = ap (λ (x : Drv W). x.tx_slot_rate_hz) sends.same ∙ out.slot_rate;
            };
          }

  -- A request for a rate is refused with -EINVAL, and then nothing changes but the cached clock, or it
  -- has a plan. On the way to the plan the modem is reprobed at most once: at the clock of the plan,
  -- which is 100 to 200 MHz and which the clock generator makes or runs at already. If the request
  -- gives 0, the session's word is that of the plan, with or without the mark of a windowed session,
  -- the cached clock is that of the plan, the latency request is held exactly if some direction
  -- streams, and the transmit state, the slot rate and the anchor step are published for it.
  pub stream_lem :
      (rate tx : ℕ) (rx : Lanes) (d : Drv W) → StreamOutcome rate tx rx d (stream pf rate tx rx d)
  unfolding stream
  stream_lem rate tx rx d = go (plan d.registry rate tx rx) refl
    where
      d₁ : Drv W
      d₁ = record d { selected_dcs_freq = pf.get_dcs_freq d.sys.world }

      go :
          (q : PlanResult)
          → plan d.registry rate tx rx ≡ q
          → StreamOutcome rate tx rx d
              (elim q [ planned p ↦ run_plan pf rate tx rx p d₁ | refused e ↦ (e, d₁) ])
      go (refused e) h =
          let code : e ≡ einval = subst Refused h (plan-Refused d.registry rate tx rx) in
          inl (h ∙ ap refused code, ap (λ (x : ℤ). (x, d₁)) code)
      go (planned p) h =
          let ran = run_plan-Ran rate tx rx p d₁ in
          let w = plan-InWindow d.registry rate tx rx p h in
          inr
            (p, h, elim (ran.reprobed) [ inl e ↦ inl e | inr (e, s) ↦ inr (e, w, s) ], ran.streams)
