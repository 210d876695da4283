-- ===== src/Board/Apply.antt =====
-- The works that apply a list of channels (`rfnm_apply_dev_rx_chlist_work_locked` and
-- `rfnm_apply_dev_tx_chlist_work_locked` of kernel_driver/la9310rfnm/rfnm_daughterboard.c), for both
-- directions at once. A mask of 8 bits is the function of its bits.
use la9310_driver.Base.{
  ℕ, ◌+◌, Bool, false, not, ◌&&◌, ◌||◌, List, [], ◌∷◌, Option, none, some, if◌then◌else◌, ltb, leb,
  ◌==◌, ℤ, pos, neg, is_zero, int_eq, negate, set, length, get_or, replicate,
}
use la9310_driver.Base.Fault.{◌>>=◌}
use la9310_driver.Board.{
  Rej, rej_none, rej_rate, rej_ch_missing, rej_device, Codes, RxCh, TxCh, Chain, validate_rx_ch,
  validate_tx_ch, dgb_rx_set, dgb_tx_set,
}

-- The outside: the restart, the streaming library with its counts, and the epochs of the wire.
pub record Platform (W : Type 0) : Type 0 where
  pub wait_restart_sm_idle : W → ℤ × W
  pub la9310_stream : ℕ → Bool → List Bool → W → ℤ × W
  pub stream_send_cnt : W → ℕ
  pub dcs_reclock_cnt : W → ℕ
  pub wire_epochs : W → ℕ × ℕ

-- The entries of a direction in `rfnm_dev_work_res` and `rfnm_dev_work_rej`.
pub record Report : Type 0 where
  pub ecodes : List ℤ
  pub rej : List Rej
  pub cc : ℕ

-- `rfnm_dev_work_timing`, with the bits of `brk`.
pub record Timing : Type 0 where
  pub rx_break : Bool
  pub tx_break : Bool
  pub reclock : Bool
  pub rx_epoch : ℕ
  pub tx_epoch : ℕ

-- The entries of `ch` in struct rfnm_dev_rx_ch_list, as in rfnm_populate_dev_rx_chlist.
abbrev pub list_size : ℕ
list_size = 8

-- struct rfnm_dev_rx_ch_list: its entries, by position.
pub record ChList (C : Type 0) : Type 0 where
  pub ch : ℕ → C
  pub apply : ℕ → Bool
  pub list_cc : ℕ

-- What differs between the directions: the validation, what a channel keeps of its live settings, the
-- call of the board in a slot, and the snapshot of the epochs.
pub record Dir (C : Type 0) (W : Type 0) : Type 0 where
  pub id_of : C → ℕ
  pub validate : C → ℤ × Rej
  pub merge : C → C → C
  pub dgb_set : ℕ → C → Chain W → Option (ℤ × Chain W)
  pub snapshot : ℕ × ℕ → Timing → Timing

-- The channels of both slots, and the report.
pub record Bank (C : Type 0) : Type 0 where
  pub dgb0 : Option (List C)
  pub dgb1 : Option (List C)
  pub report : Report

-- The variables of the walk over the boards.
pub record Walk (W : Type 0) : Type 0 where
  pub d : ℕ
  pub present : ℕ → Bool
  pub ecodes : List ℤ
  pub rej : List Rej
  pub chain : Chain W

-- Entries of an array that are overwritten where a mask tells so, from the index `i` on.
unfoldable pub mark {ℓ} : {A : Type ℓ} → (ℕ → Bool) → A → ℕ → List A → List A
mark mask v i [] = []
mark mask v i (x ∷ xs) = (if mask i then v else x) ∷ mark mask v (i + 1) xs

module _ {C W : Type 0} (dir : Dir C W) (l : ChList C) where
  -- `apply & ch_bit`
  abbrev pub is_applied : ℕ → Bool
  is_applied i = ltb i 8 && l.apply i

  abbrev pub next : C → Walk W → Walk W
  next live a = record a {
    d = a.d + 1;
    present = λ i. a.present i || (ltb i 8 && (i == dir.id_of live));
  }

  -- A write to the entries of the report. One outside the arrays gives `none`.
  unfoldable pub report_at : ℕ → ℤ → Rej → Walk W → Option (Walk W)
  report_at i code r a =
      if ltb i (length a.ecodes) && ltb i (length a.rej)
      then some (record a { ecodes = set a.ecodes i code; rej = set a.rej i r })
      else none

  -- A channel's entry is written, and the channel becomes `new`.
  unfoldable pub with_entry : C → C → ℤ → Rej → Chain W → Walk W → Option (C × Walk W)
  unfolding report_at
  with_entry live new code r x a =
      report_at (dir.id_of live) code r (record (next live a) { chain = x }) >>= λ (a' : Walk W).
      some (new, a')

  -- The channel was set, with the driver's result.
  unfoldable pub noted : C → Walk W → ℤ × Chain W → Option (C × Walk W)
  unfolding with_entry
  noted live a r =
      with_entry live (dir.merge live (l.ch a.d)) (negate r.0)
        (if is_zero r.0 then rej_none else rej_device) r.1 a

  unfoldable pub denied : C → Walk W → ℤ × Rej → Option (C × Walk W)
  unfolding with_entry
  denied live a v = with_entry live live v.0 v.1 a.chain a

  -- One channel of the walk. A shift by 32 or more, a read behind the list, and a write outside an
  -- array give `none`.
  unfoldable pub apply_ch : ℕ → C → Walk W → Option (C × Walk W)
  unfolding noted denied
  apply_ch slot live a =
      let v = dir.validate (l.ch a.d) in
      if leb 32 (dir.id_of live) || leb list_size a.d
      then none
      else if not (is_applied (dir.id_of live))
      then some (dir.merge live (l.ch a.d), next live a)
      else if not (is_zero v.0)
      then denied live a v
      else dir.dgb_set slot (dir.merge live (l.ch a.d)) a.chain >>= noted live a

  unfoldable pub apply_chs : ℕ → List C → Walk W → Option (List C × Walk W)
  unfolding apply_ch
  apply_chs slot [] a = some ([], a)
  apply_chs slot (live ∷ r) a = apply_ch slot live a >>= λ (one : C × Walk W).
      apply_chs slot r one.1 >>= λ (rest : List C × Walk W). some (one.0 ∷ rest.0, rest.1)

  unfoldable pub apply_board : ℕ → Option (List C) → Walk W → Option (Option (List C) × Walk W)
  unfolding apply_chs
  apply_board slot none a = some (none, a)
  apply_board slot (some chs) a =
      apply_chs slot chs a >>= λ (rest : List C × Walk W). some (some rest.0, rest.1)

  module _ (c : Codes) (pf : Platform W) (rate : ℕ) where
    abbrev pub api_error : ℤ → ℤ
    api_error r = if int_eq r (neg 110) then c.timeout else c.probe_fail

    abbrev pub any : List Bool → Bool
    any [] = false
    any (b ∷ bs) = b || any bs

    abbrev pub bounds_moved : Chain W → W → Timing → Timing
    bounds_moved x w t =
        let sent = not (pf.stream_send_cnt w == pf.stream_send_cnt x.world) in
        record t {
          rx_break = t.rx_break || (sent && any x.rx_adc_s);
          tx_break = t.tx_break || (sent && x.tx_dac_s);
          reclock = t.reclock || not (pf.dcs_reclock_cnt w == pf.dcs_reclock_cnt x.world);
        }

    -- From the end of the walk on: the missing channels, the stream and its error.
    unfoldable pub finish : Walk W → Timing → Report × Chain W × Timing
    unfolding mark
    finish a t =
        let missing : ℕ → Bool = λ i. l.apply i && not (a.present i) in
        let codes = mark missing c.not_supported 0 a.ecodes in
        let rej = mark missing rej_ch_missing 0 a.rej in
        let t₁ = dir.snapshot (pf.wire_epochs a.chain.world) t in
        let (r, w) = pf.la9310_stream rate a.chain.tx_dac_s a.chain.rx_adc_s a.chain.world in
        let spared : ℕ → Bool = λ i. not (is_zero r) && is_zero (get_or codes i (pos 0)) in
        (
          record {
            ecodes = mark spared (api_error r) 0 codes;
            rej = mark spared rej_rate 0 rej;
            cc = l.list_cc;
          },
          record a.chain { world = w },
          bounds_moved a.chain w t₁,
        )

    abbrev pub concluded :
        Timing → Option (List C) → Option (List C) × Walk W → Option (Bank C × Chain W × Timing)
    concluded t dgb0 (dgb1, a) =
        let (report, x, t₁) = finish a t in
        some (record { dgb0 = dgb0; dgb1 = dgb1; report = report }, x, t₁)

    unfoldable pub apply_boards : Bank C → Chain W → Timing → Option (Bank C × Chain W × Timing)
    unfolding apply_board finish
    apply_boards b x t =
        let a₀ : Walk W = record {
          d = 0;
          present = λ i. false;
          ecodes = replicate 8 (pos 0);
          rej = replicate 8 rej_none;
          chain = x;
        } in
        apply_board 0 b.dgb0 a₀ >>= λ (p : Option (List C) × Walk W).
        apply_board 1 b.dgb1 p.1 >>= concluded t p.0

    -- The work of a direction. Nothing is applied while a restart is under way.
    unfoldable pub apply_work : Bank C → Chain W → Timing → Option (Bank C × Chain W × Timing)
    unfolding apply_boards
    apply_work b x t =
        let (r, w) = pf.wait_restart_sm_idle x.world in
        if is_zero r
        then apply_boards b (record x { world = w }) t
        else some (
          record b {
            report = record {
              ecodes = replicate 8 (api_error r);
              rej = replicate 8 rej_none;
              cc = l.list_cc;
            };
          },
          record x { world = w },
          t,
        )

-- While the AGC runs, the gain is its own.
abbrev pub keep_gain : Codes → RxCh → RxCh → RxCh
keep_gain c live ch = if int_eq ch.agc c.agc_off then ch else record ch { gain = live.gain }

module _ {W : Type 0} (c : Codes) where
  unfoldable pub rx_dir : (ℕ → RxCh → W → ℤ × W) → Dir RxCh W
  rx_dir rx_ch_set = record {
    id_of = λ ch. ch.abs_id;
    validate = validate_rx_ch c;
    merge = keep_gain c;
    dgb_set = λ slot. dgb_rx_set c (rx_ch_set slot);
    snapshot = λ e t. record t { rx_break = false; rx_epoch = e.0 };
  }

  unfoldable pub tx_dir : (ℕ → TxCh → W → ℤ × W) → Dir TxCh W
  tx_dir tx_ch_set = record {
    id_of = λ ch. ch.abs_id;
    validate = validate_tx_ch c;
    merge = λ live ch. ch;
    dgb_set = λ slot. dgb_tx_set c (tx_ch_set slot);
    snapshot = λ e t. record t { tx_break = false; tx_epoch = e.1 };
  }
