-- ===== src/Agc/Blanking.antt =====
-- What a poll of the receive levelling leaves alone
-- (`agc_poll` of kernel_driver/la9310rfnm/rfnm_agc.c).
use la9310_driver.Base.{
  ℕ, ◌≡◌, refl, Bool, true, false, not, ◌||◌, Option, none, some, leb, ◌==◌, if◌then◌else◌,
}
use la9310_driver.Agc.{
  Agc, Sys, View, Params, Layer, Channel, slot_cnt, int_eq, is_packed12, find_target, deadline,
}
use la9310_driver.Agc.Poll.{channel_of, blank, running, on_channel, on_target, poll}

-- A property of either branch.
choose :
    {A : Type 0} (P : A → Type 0) (c : Bool) (x y : A)
    → (c ≡ true → P x)
    → (c ≡ false → P y)
    → P (if c then x else y)
choose P true x y hx hy = hx refl
choose P false x y hx hy = hy refl

-- The boards and the gain epoch are the same: no gain was changed.
pub record SameGain (s s' : Sys) : Type 0 where
  pub boards_kept : s'.boards ≡ s.boards
  pub epoch_kept : s'.epoch ≡ s.epoch

abbrev same : (s : Sys) (st : Agc) → SameGain s (record s { st = st })
same s st = record { boards_kept = refl; epoch_kept = refl }

module _ (params : Params) (layer : Layer) (v : View) where
  -- The time is before `u`.
  abbrev pub Before : ℕ → Type 0
  Before u = layer.time_after u v.jiffies ≡ true

  module _ (future : Before (deadline params layer v.jiffies params.stream_settle_ms)) where
    running-SameGain :
        (ch : Channel) (s : Sys)
        → Before s.st.blank_until
        → SameGain s (running params layer v ch s)
    unfolding running
    running-SameGain ch s early =
        let st₁ : Agc = record (s.st) { last_rx_buf_id = v.rx_buf_id } in
        let st₂ : Agc =
          if st₁.was_idle
          then blank params layer v params.stream_settle_ms (record st₁ { was_idle = false })
          else st₁ in
        let still : Before st₂.blank_until =
          choose (λ (st : Agc). Before st.blank_until) st₁.was_idle _ _ (λ _. future) λ _. early in
        choose (SameGain s) (layer.time_after st₂.blank_until v.jiffies) _ _ (λ _. same s _)
          λ late. absurd (cc (still, late))

    on_channel-SameGain :
        (ch : Channel) (s : Sys)
        → Before s.st.blank_until
        → SameGain s (on_channel params layer v ch s)
    unfolding on_channel
    on_channel-SameGain ch s early =
        let st : Agc =
          if int_eq ch.freq s.st.last_freq
          then s.st
          else blank params layer v params.stream_settle_ms
              (record (s.st) { last_freq = ch.freq }) in
        let still : Before st.blank_until =
          choose (λ (st : Agc). Before st.blank_until) (int_eq ch.freq s.st.last_freq) _ _
            (λ _. early) λ _. future in
        choose (SameGain s) (leb slot_cnt v.rx_buf_id) _ _ (λ _. same s _)
          λ _.
            choose (SameGain s) (v.rx_buf_id == st.last_rx_buf_id) _ _ (λ _. same s _)
              λ _.
                (let r = running-SameGain ch (record s { st = st }) still in
                  record { boards_kept = r.boards_kept; epoch_kept = r.epoch_kept })

    on_target-SameGain :
        (t : Option (ℕ × ℕ)) (s : Sys)
        → Before s.st.blank_until
        → SameGain s (on_target params layer v t s)
    unfolding on_target
    on_target-SameGain none s early = same s s.st
    on_target-SameGain (some (i, q)) s early = go (channel_of (s.boards i) q)
      where
        go :
            (c : Option Channel)
            → SameGain s (elim c [
              | none ↦ record s { st = record (s.st) { dgb_id = i; ch_id = q } }
              | some ch ↦
                  on_channel params layer v ch
                    (record s { st = record (s.st) { dgb_id = i; ch_id = q } })
            ])
        go none = same s _
        go (some ch) =
            let r =
              on_channel-SameGain ch (record s { st = record (s.st) { dgb_id = i; ch_id = q } })
                early in
            record { boards_kept = r.boards_kept; epoch_kept = r.epoch_kept }

    -- While the loop is blanked, a poll changes no gain, whatever it sees: neither a new frequency
    -- nor a stream that starts again ends the blanking, if a deadline that is set now is not over
    -- yet.
    pub poll_blanked : (s : Sys) → Before s.st.blank_until → SameGain s (poll params layer v s)
    unfolding poll
    poll_blanked s early =
        choose (SameGain s) (not (is_packed12 v.format) || not v.native_rx) _ _ (λ _. same s s.st)
          λ _. on_target-SameGain (find_target s.boards) s early
