-- ===== src/Agc/Window.antt =====
-- Which slots of the ring a poll of the receive levelling reads
-- (`agc_poll` of kernel_driver/la9310rfnm/rfnm_agc.c).
use la9310_driver.Base.{
  false, leb, if◌then◌else◌, if-intro, Option, none, some, ℕ, zero, suc, ◌+◌, ◌-◌, ◌%◌, ◌^◌, ◌≤◌,
  ◌<◌, ◌≡◌, ◌≢◌, refl, inl, inr, Bool-cases, arith, bool_tests, ltb,
}
use la9310_driver.Agc.{
  slot_cnt, writer_guard, Agc, Sys, View, Params, Layer, Channel, find_target, int_eq,
}
use la9310_driver.Agc.Poll.{
  blank, window, slot_at, target_slot, read_slots, act, measure_window, running, on_channel,
  channel_of, on_target, poll,
}

-- What a poll reads when the writer is at slot `cur`: `n` slots after slot `from`.
pub record IsWindow (slots_per_wake cur from n : ℕ) : Type 0 where
  pub few : n ≤ slots_per_wake
  pub newest : (from + n) % slot_cnt ≡ target_slot cur
  pub inside : (k : ℕ) → k < n → slot_at from k < slot_cnt
  pub clear :
      (k j : ℕ) → k < n → j < writer_guard → slot_at from k ≢ (cur + slot_cnt - j) % slot_cnt
  pub once : (i k : ℕ) → i < n → k < n → slot_at from i ≡ slot_at from k → i ≡ k

-- Any window that ends at the target and is short enough leaves the writer alone.
IsWindow-facts :
    (spw cur from n : ℕ)
    → cur < slot_cnt
    → from < slot_cnt
    → n ≤ spw
    → n + writer_guard ≤ slot_cnt
    → (from + n) % slot_cnt ≡ target_slot cur
    → IsWindow spw cur from n
IsWindow-facts spw cur from n hc hf few short newest = record {
  few = few;
  newest = newest;
  inside = λ k h. omega arith;
  clear = λ k j hk hj e. omega arith;
  once = λ i k hi hk e. omega arith;
}

-- With at most 4092 slots per wake, a poll reads only slots of the ring, each once, no more than
-- the parameter allows, the newest being four behind the writer. It never reads the slot of the
-- writer or one of the three behind it, however far the writer got since the last poll.
pub window-IsWindow :
    (slots_per_wake cur last : ℕ)
    → slots_per_wake + writer_guard ≤ slot_cnt
    → cur < slot_cnt
    → last < slot_cnt
    → let (from, n) = window slots_per_wake cur last in IsWindow slots_per_wake cur from n
unfolding window
window-IsWindow spw cur last hs hc hl =
    let target = target_slot cur in
    let avail = (target + slot_cnt + 2 ^ 32 - last) % 2 ^ 32 % slot_cnt in
    elim (Bool-cases (ltb spw avail)) [
      | inl far ↦ rw far (
          IsWindow-facts spw cur ((target + slot_cnt - spw) % slot_cnt) spw hc (omega arith)
            (omega arith) hs (omega arith))
      | inr near ↦
          let few : avail ≤ spw = omega (bool_tests, near) in
          rw near (
            IsWindow-facts spw cur last avail hc hl few (omega arith)
              (reach target last avail (omega arith) hl refl))
    ]
  where
    reach :
        (t l a : ℕ)
        → t < 4096
        → l < 4096
        → a ≡ (t + 4096 + 2 ^ 32 - l) % 2 ^ 32 % 4096
        → (l + a) % 4096 ≡ t
    reach t l a ht hl e = omega arith

-- A view of another ring.
abbrev pub with_ring : (ℕ → ℕ → ℕ) → View → View
with_ring ring v = record v { ring = ring }

module _ (params : Params) (layer : Layer) (v : View) (ring : ℕ → ℕ → ℕ) where
  -- The loop reads the slots that it is given and no others.
  read_slots-same :
      (from n k : ℕ) (st : Agc)
      → ((j : ℕ) → k ≤ j → j < k + n → ring (slot_at from j) ≡ v.ring (slot_at from j))
      → read_slots layer (with_ring ring v) from n k st ≡ read_slots layer v from n k st
  unfolding read_slots
  read_slots-same from zero k st h = refl
  read_slots-same from (suc n) k st h =
      rw (h k (omega arith) (omega arith))
        (read_slots-same from n (k + 1) _ (λ j a b. h j (omega arith) (omega arith)))

  -- The rings agree but for the slot of the writer and the three behind it.
  abbrev pub AgreeOff : ℕ → Type 0
  AgreeOff cur =
      (i : ℕ)
      → i < slot_cnt
      → ((j : ℕ) → j < writer_guard → i ≢ (cur + slot_cnt - j) % slot_cnt)
      → ring i ≡ v.ring i

  measure_window-same :
      (ch : Channel) (s : Sys)
      → params.slots_per_wake + writer_guard ≤ slot_cnt
      → v.rx_buf_id < slot_cnt
      → s.st.last_slot < slot_cnt
      → AgreeOff v.rx_buf_id
      → measure_window params layer (with_ring ring v) ch s ≡ measure_window params layer v ch s
  unfolding measure_window act
  measure_window-same ch s few hc hl agree =
      let w = window params.slots_per_wake v.rx_buf_id s.st.last_slot in
      let is = window-IsWindow params.slots_per_wake v.rx_buf_id s.st.last_slot few hc hl in
      rw
        (read_slots-same w.0 w.1 0 (record s.st { peak = 0; last_slot = w.0 })
          (λ j _ lt.
            agree (slot_at w.0 j) (is.inside j (omega arith))
              (λ i below. is.clear j i (omega arith) below)))
        refl

  running-same :
      (ch : Channel) (s : Sys)
      → params.slots_per_wake + writer_guard ≤ slot_cnt
      → v.rx_buf_id < slot_cnt
      → s.st.last_slot < slot_cnt
      → AgreeOff v.rx_buf_id
      → running params layer (with_ring ring v) ch s ≡ running params layer v ch s
  unfolding running
  running-same ch s few hc hl agree =
      let st₁ : Agc = record (s.st) { last_rx_buf_id = v.rx_buf_id } in
      let st₂ : Agc =
        if st₁.was_idle
        then blank params layer v params.stream_settle_ms (record st₁ { was_idle = false })
        else st₁ in
      let last : st₂.last_slot < slot_cnt =
        if-intro (λ (st : Agc). st.last_slot < slot_cnt) st₁.was_idle _ st₁ (λ _. hl) (λ _. hl) in
      rw (measure_window-same ch (record s { st = st₂ }) few hc last agree) refl

  on_channel-same :
      (ch : Channel) (s : Sys)
      → params.slots_per_wake + writer_guard ≤ slot_cnt
      → s.st.last_slot < slot_cnt
      → AgreeOff v.rx_buf_id
      → on_channel params layer (with_ring ring v) ch s ≡ on_channel params layer v ch s
  unfolding on_channel
  on_channel-same ch s few hl agree =
      let st : Agc =
        if int_eq ch.freq s.st.last_freq
        then s.st
        else blank params layer v params.stream_settle_ms (record (s.st) { last_freq = ch.freq }) in
      let last : st.last_slot < slot_cnt =
        if-intro (λ (st : Agc). st.last_slot < slot_cnt) (int_eq ch.freq s.st.last_freq) s.st _
          (λ _. hl) (λ _. hl) in
      elim (Bool-cases (leb slot_cnt v.rx_buf_id)) [
        | inl outside ↦ rw outside refl
        | inr inside ↦
            rw (running-same ch (record s { st = st }) few (ground arith) last agree) refl
      ]

  on_target-same :
      (target : Option (ℕ × ℕ)) (s : Sys)
      → params.slots_per_wake + writer_guard ≤ slot_cnt
      → s.st.last_slot < slot_cnt
      → AgreeOff v.rx_buf_id
      → on_target params layer (with_ring ring v) target s ≡ on_target params layer v target s
  unfolding on_target
  on_target-same none s few hl agree = refl
  on_target-same (some (i, q)) s few hl agree =
      let s' : Sys = record s { st = record (s.st) { dgb_id = i; ch_id = q } } in
      on_found (channel_of (s.boards i) q)
    where
      on_found :
          (found : Option Channel)
          → (elim found [
            | none ↦ record s { st = record (s.st) { dgb_id = i; ch_id = q } }
            | some ch ↦
                on_channel params layer
                  (with_ring ring v)
                  ch
                  (record s { st = record (s.st) { dgb_id = i; ch_id = q } })
          ])
            ≡ (elim found [
              | none ↦ record s { st = record (s.st) { dgb_id = i; ch_id = q } }
              | some ch ↦
                  on_channel params layer v ch
                    (record s { st = record (s.st) { dgb_id = i; ch_id = q } })
            ])
      on_found none = refl
      on_found (some ch) = on_channel-same ch _ few hl agree

  -- With at most 4092 slots per wake and the last slot inside the ring, a poll does not depend on what
  -- stands in the slot of the writer or in one of the three behind it, however far the writer got since
  -- the last poll: on two rings that agree in the other slots it ends in the same state.
  pub poll-same :
      (s : Sys)
      → params.slots_per_wake + writer_guard ≤ slot_cnt
      → s.st.last_slot < slot_cnt
      → ((i : ℕ)
          → i < slot_cnt
          → ((j : ℕ) → j < writer_guard → i ≢ (v.rx_buf_id + slot_cnt - j) % slot_cnt)
          → ring i ≡ v.ring i)
      → poll params layer (with_ring ring v) s ≡ poll params layer v s
  unfolding poll
  poll-same s few hl agree = rw (on_target-same (find_target s.boards) s few hl agree) refl
