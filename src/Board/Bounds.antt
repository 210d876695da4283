-- ===== src/Board/Bounds.antt =====
-- The writes of an apply of receive channels (kernel_driver/la9310rfnm/rfnm_daughterboard.c): when
-- they stay inside the flags of the ADCs, and when not.
use la9310_driver.Base.{
  ℕ, ◌+◌, ◌<◌, ◌≤◌, ◌≡◌, ◌∙◌, refl, ap, Bool, true, false, not, List, [], ◌∷◌, Option, none, some,
  if-intro, ltb, leb, lt→ltb, int_eq, ℤ, pos, negsuc, is_zero, length, replicate, length-set, set,
  arith,
}
use la9310_driver.Base.Fault.{Safe}
use la9310_driver.Board.{
  Rej, rej_none, Codes, RxCh, Chain, put_flag, rx_flagged, flag_of, with_flags, dgb_rx_set,
  validate_rx_ch,
}
use la9310_driver.Board.Apply.{
  list_size, with_entry, report_at, noted, denied, Platform, Timing, ChList, Dir, Bank, Walk,
  is_applied, apply_ch, apply_chs, apply_board, apply_boards, apply_work, rx_dir, keep_gain,
}
use la9310_driver.Board.Walk.{IsNumbered, apply_ch-Stepped}
use la9310_driver.Board.Outcome.{chans}

int_eq-same : (z : ℤ) → int_eq z z ≡ true
int_eq-same (pos n) = ground arith
int_eq-same (negsuc n) = ground arith

module _ {W : Type 0} (c : Codes) (rx_ch_set : ℕ → RxCh → W → ℤ × W) (l : ChList RxCh) where
  abbrev dir : Dir RxCh W
  dir = rx_dir c rx_ch_set

  -- There are four flags.
  abbrev pub HasFlags : Chain W → Type 0
  HasFlags x = length x.rx_adc_s ≡ 4

  -- Every entry of the list names one of the four ADCs.
  abbrev pub IsMapped : Type 0
  IsMapped = (d : ℕ) → (l.ch d).adc_id < 4

  abbrev Flags : Option (List Bool) → Type 0
  Flags o = (fs : List Bool) × (o ≡ some fs) × (length fs ≡ 4)

  put-Flags :
      (flags : List Bool) (i : ℕ) (o : Option Bool)
      → length flags ≡ 4
      → i < 4
      → Flags (put_flag c flags i o)
  unfolding put_flag
  put-Flags flags i none four lt = (flags, refl, four)
  put-Flags flags i (some b) four lt =
      let e : ltb i (length flags) ≡ true = lt→ltb i (length flags) (omega arith) in
      rw e (set flags i b, refl, length-set flags i b ∙ four)

  set-Safe :
      (slot : ℕ) (ch : RxCh) (x : Chain W)
      → ch.adc_id < 4
      → HasFlags x
      → (r : ℤ × Chain W) × (dgb_rx_set c (rx_ch_set slot) ch x ≡ some r) × HasFlags r.1
  unfolding dgb_rx_set rx_flagged
  set-Safe slot ch x lt four =
      let r = rx_ch_set slot ch x.world in
      let (fs, e, four') =
        if-intro Flags (is_zero r.0)
          (put_flag c x.rx_adc_s ch.adc_id (flag_of c ch.stream ch.enable)) (some x.rx_adc_s)
          (λ _. put-Flags x.rx_adc_s ch.adc_id _ four lt) (λ _. (x.rx_adc_s, refl, four)) in
      (
        (r.0, record { rx_adc_s = fs; tx_dac_s = x.tx_dac_s; world = r.1 }),
        ap (with_flags c r.0 x.tx_dac_s r.1) e,
        four',
      )

  -- The walk at the channel `d`, with four flags and eight entries.
  abbrev Ready : ℕ → Walk W → Type 0
  Ready d a = (a.d ≡ d) × HasFlags a.chain × (length a.ecodes ≡ 8) × (length a.rej ≡ 8)

  abbrev WalkOn : {A : Type 0} → ℕ → Option (A × Walk W) → Type 0
  WalkOn {A = A} d o = (t : A × Walk W) × (o ≡ some t) × Ready d t.1

  abbrev Entered : Option (RxCh × Walk W) → Type 0
  Entered o = (t : RxCh × Walk W) × (o ≡ some t) × HasFlags t.1.chain

  with_entry-Safe :
      (live new : RxCh) (code : ℤ) (r : Rej) (x : Chain W) (a : Walk W)
      → live.abs_id < length a.ecodes
      → live.abs_id < length a.rej
      → HasFlags x
      → Entered (with_entry dir l live new code r x a)
  unfolding with_entry report_at rx_dir
  with_entry-Safe live new code r x a h k four =
      let fits : ltb live.abs_id (length a.ecodes) ≡ true = lt→ltb _ _ h in
      let fits' : ltb live.abs_id (length a.rej) ≡ true = lt→ltb _ _ k in
      rw (fits, fits') (_, refl, four)

  entered :
      (slot : ℕ) (live : RxCh) (a : Walk W)
      → IsMapped
      → live.abs_id < 8
      → a.d < 8
      → length a.ecodes ≡ 8
      → length a.rej ≡ 8
      → HasFlags a.chain
      → Entered (apply_ch dir l slot live a)
  unfolding apply_ch noted denied rx_dir
  entered slot live a mapped low room codes rejs four =
      let mapped' : (keep_gain c live (l.ch a.d)).adc_id < 4 =
        if-intro (λ (ch : RxCh). ch.adc_id < 4) (int_eq (l.ch a.d).agc c.agc_off) _ _
          (λ _. mapped a.d) (λ _. mapped a.d) in
      let low' : leb 32 live.abs_id ≡ false = ground arith in
      let room' : leb list_size a.d ≡ false = ground arith in
      let h : live.abs_id < length a.ecodes = omega arith in
      let k : live.abs_id < length a.rej = omega arith in
      let (r, e, four') = set-Safe slot (keep_gain c live (l.ch a.d)) a.chain mapped' four in
      rw (low', room')
        (if-intro Entered (not (is_applied dir l live.abs_id)) _ _ (λ _. (_, refl, four))
          (λ _.
            if-intro Entered (not (is_zero (validate_rx_ch c (l.ch a.d)).0)) _ _
              (λ _. with_entry-Safe live live _ _ a.chain a h k four)
              (λ _. rw e (with_entry-Safe live _ _ _ r.1 a h k four'))))

  apply_ch-Safe :
      (slot d : ℕ) (live : RxCh) (a : Walk W)
      → IsMapped
      → live.abs_id < 8
      → d < 8
      → Ready d a
      → WalkOn (d + 1) (apply_ch dir l slot live a)
  apply_ch-Safe slot d live a mapped low room (at_d, four, codes, rejs) =
      let (t, e, four') = entered slot live a mapped low (omega (arith, at_d)) codes rejs four in
      let s = apply_ch-Stepped dir l slot live a t e in
      (t, e, (omega (arith, s.counts, at_d), four', s.codes ∙ codes, s.rejs ∙ rejs))

  apply_chs-Safe :
      (slot d : ℕ) (ls : List RxCh) (a : Walk W)
      → IsMapped
      → IsNumbered dir l d ls
      → d + length ls ≤ 8
      → Ready d a
      → WalkOn (d + length ls) (apply_chs dir l slot ls a)
  unfolding apply_chs rx_dir
  apply_chs-Safe slot d [] a mapped num few (at_d, four, codes, rejs) =
      (_, refl, (omega (arith, at_d), four, codes, rejs))
  apply_chs-Safe slot d (live ∷ ls) a mapped (here, num) few ready =
      let (one, e₁, ready₁) =
        apply_ch-Safe slot d live a mapped (omega (arith, here)) (omega arith) ready in
      let (rest, e₂, (at_end, four₂, codes₂, rejs₂)) =
        apply_chs-Safe slot (d + 1) ls one.1 mapped num (omega arith) ready₁ in
      rw (e₁, e₂) (_, refl, (omega (arith, at_end), four₂, codes₂, rejs₂))

  apply_board-Safe :
      (slot d : ℕ) (o : Option (List RxCh)) (a : Walk W)
      → IsMapped
      → IsNumbered dir l d (chans dir l o)
      → d + length (chans dir l o) ≤ 8
      → Ready d a
      → WalkOn (d + length (chans dir l o)) (apply_board dir l slot o a)
  unfolding apply_board
  apply_board-Safe slot d none a mapped num few (at_d, four, codes, rejs) =
      (_, refl, (omega (arith, at_d), four, codes, rejs))
  apply_board-Safe slot d (some ls) a mapped num few ready =
      let (rest, e, ready') = apply_chs-Safe slot d ls a mapped num few ready in
      rw e (_, refl, ready')

  -- If the channels are numbered over both boards, at most 8 of them, and every entry of the client's
  -- list names one of the four ADCs, the work for reception comes to an end, whatever else the list
  -- holds: it reads within the list's 8 entries, and writes within the 8 entries of the report and the
  -- four flags.
  pub apply_work-Safe :
      (pf : Platform W) (rate : ℕ) (b : Bank RxCh) (x : Chain W) (t : Timing)
      → IsMapped
      → IsNumbered (rx_dir c rx_ch_set) l 0 (chans (rx_dir c rx_ch_set) l b.dgb0)
      → IsNumbered
          (rx_dir c rx_ch_set)
          l
          (length (chans (rx_dir c rx_ch_set) l b.dgb0))
          (chans (rx_dir c rx_ch_set) l b.dgb1)
      → length (chans (rx_dir c rx_ch_set) l b.dgb0) + length (chans (rx_dir c rx_ch_set) l b.dgb1)
        ≤ 8
      → length x.rx_adc_s ≡ 4
      → Safe (apply_work (rx_dir c rx_ch_set) l c pf rate b x t)
  unfolding apply_work apply_boards
  apply_work-Safe pf rate b x t mapped num0 num1 few four =
      let w = pf.wait_restart_sm_idle x.world in
      if-intro Safe (is_zero w.0) _ _
        (λ _.
          let a₀ : Walk W = record {
            d = 0;
            present = λ i. false;
            ecodes = replicate 8 (pos 0);
            rej = replicate 8 rej_none;
            chain = record x { world = w.1 };
          } in
          let (p, e₀, (at₁, four₁, codes₁, rejs₁)) =
            apply_board-Safe 0 0 b.dgb0 a₀ mapped num0 (omega arith) (refl, four, refl, refl) in
          let (q, e₁, _) =
            apply_board-Safe 1 (length (chans dir l b.dgb0)) b.dgb1 p.1 mapped num1 few
              (omega (arith, at₁), four₁, codes₁, rejs₁) in
          rw (e₀, e₁) (_, refl))
        (λ _. (_, refl))

  dgb-wild :
      (slot : ℕ) (ch : RxCh) (x : Chain W)
      → ch.stream ≡ c.stream_auto
      → is_zero (rx_ch_set slot ch x.world).0 ≡ true
      → length x.rx_adc_s ≤ ch.adc_id
      → dgb_rx_set c (rx_ch_set slot) ch x ≡ none
  unfolding dgb_rx_set rx_flagged flag_of put_flag
  dgb-wild slot ch x follows set wild =
      let out : ltb ch.adc_id (length x.rx_adc_s) ≡ false = ground arith in
      rw (set, follows, int_eq-same c.stream_auto, out) refl

  -- An applied and valid entry that names another ADC, for a channel that the board sets and whose
  -- stream follows it, is written outside the flags.
  pub apply_ch_wild :
      (slot : ℕ) (live : RxCh) (a : Walk W)
      → live.abs_id < 8
      → a.d < 8
      → l.apply live.abs_id ≡ true
      → is_zero (validate_rx_ch c (l.ch a.d)).0 ≡ true
      → (l.ch a.d).stream ≡ c.stream_auto
      → is_zero (rx_ch_set slot (keep_gain c live (l.ch a.d)) a.chain.world).0 ≡ true
      → length a.chain.rx_adc_s ≤ (l.ch a.d).adc_id
      → apply_ch (rx_dir c rx_ch_set) l slot live a ≡ none
  unfolding apply_ch rx_dir
  apply_ch_wild slot live a lt room named valid follows set wild =
      let low : leb 32 live.abs_id ≡ false = ground arith in
      let within : leb list_size a.d ≡ false = ground arith in
      let on : is_applied dir l live.abs_id ≡ true = ground arith in
      let fields =
        if-intro
          (λ (ch : RxCh). (ch.stream ≡ c.stream_auto) × (length a.chain.rx_adc_s ≤ ch.adc_id))
          (int_eq (l.ch a.d).agc c.agc_off) _ (record (l.ch a.d) { gain = live.gain })
          (λ _. (follows, wild)) (λ _. (follows, wild)) in
      let out = dgb-wild slot (keep_gain c live (l.ch a.d)) a.chain fields.0 set fields.1 in
      rw (low, within, on, valid, out) refl
