-- ===== src/Rfnm/Pool.antt =====
-- The pools of packets of kernel_driver/la9310rfnm/la9310_rfnm.c: lists of elements that point at the
-- slots of a buffer, the tables of slots that a client has checked out, and the calls of the data
-- endpoint. A call is one step. The lists of the USB side and the times of an element are left out.
pub mod Calls
pub mod Conserve
pub mod Order
pub mod Depth
pub mod Starve
mod Tests
use mathlib.Core.List.{reverse}
use la9310_driver.Base.{
  ℕ, zero, suc, ◌+◌, ◌-◌, ◌%◌, ◌^◌, Bool, true, false, List, [], ◌∷◌, ◌++◌, Option, none, some, ltb,
  leb, ◌==◌, if◌then◌else◌, ℤ, pos, neg, get_or, set, next32,
}

-- struct rfnm_local_buffer_queue_ele; `id` tells the elements apart, as their addresses do.
pub record Ele : Type 0 where
  pub id : ℕ
  pub local_cc : ℕ
  pub addr : ℕ

-- A packet for reception and for transmission: its counter, and the flag DISCONT of the former.
pub record Format (R : Type 0) (T : Type 0) : Type 0 where
  pub usb_cc : T → ℕ
  pub mark_discont : R → R

-- RFNM_IQFLOOD_LOCAL_RX_BUF_SIZE and RFNM_IQFLOOD_LOCAL_TX_BUF_SIZE, and the parameter
-- rfnm_local_rx_queue_bound.
pub record Limits : Type 0 where
  pub rx_size : ℕ
  pub tx_size : ℕ
  pub rx_queue_bound : ℕ

-- The lists `rfnm_local_buffer_in` (free), `_in_user` (ready), `_out` (ready) and `_out_user` (free),
-- the tables of checked-out slots, the buffers, and the counters. The depth is an `int`, which never
-- becomes negative.
pub record Pools (R : Type 0) (T : Type 0) : Type 0 where
  pub rx_free : List Ele
  pub rx_ready : List Ele
  pub rx_owned : List (Option Ele)
  pub rx_buf : ℕ → R
  pub tx_free : List Ele
  pub tx_ready : List Ele
  pub tx_owned : List (Option Ele)
  pub tx_buf : ℕ → T
  pub rx_queue_depth : ℕ
  pub rx_culled : ℕ
  pub last_addr : ℕ
  pub canary : ℕ
  pub rx_errors : ℕ
  pub openers : ℕ
  pub owner_tgid : ℕ
  pub open_refused : ℕ

abbrev pub no_addr : ℕ
no_addr = 0xFFFFFFFF

abbrev pub enospc : ℤ
enospc = neg 28

abbrev pub einval : ℤ
einval = neg 22

abbrev pub efault : ℤ
efault = neg 14

-- `xchg` of an entry of a table.
abbrev pub entry : List (Option Ele) → ℕ → Option Ele
entry t i = get_or t i none

-- The walk of rfnm_local_tx_insert_sorted, from the tail on.
unfoldable pub insert_back : Ele → List Ele → List Ele
insert_back e [] = e ∷ []
insert_back e (c ∷ r) = if leb c.local_cc e.local_cc then e ∷ c ∷ r else c ∷ insert_back e r

unfoldable pub insert_sorted : Ele → List Ele → List Ele
unfolding insert_back
insert_sorted e l = reverse (insert_back e (reverse l))

-- A loop that takes the head of a list to the tail of another, until the first is empty.
unfoldable pub move_all : List Ele → List Ele → List Ele
move_all [] to = to
move_all (e ∷ r) to = move_all r (to ++ (e ∷ []))

-- The elements of a table, each given back to the tail of a list.
unfoldable pub reclaim : List (Option Ele) → List Ele → List Ele
reclaim [] to = to
reclaim (none ∷ t) to = reclaim t to
reclaim (some e ∷ t) to = reclaim t (to ++ (e ∷ []))

abbrev pub cleared : List (Option Ele) → List (Option Ele)
cleared [] = []
cleared (o ∷ t) = none ∷ cleared t

-- The loop of rfnm_local_rx_cull_stale: what is left in the queue, the free list, the depth, and how
-- many were culled.
unfoldable pub cull : ℕ → List Ele → List Ele → ℕ → ℕ → List Ele × List Ele × ℕ × ℕ
cull bound [] free depth n = ([], free, depth, n)
cull bound (e ∷ r) free depth n =
    let rest = cull bound r (free ++ (e ∷ [])) (depth - 1) (n + 1) in
    if ltb bound depth then rest else (e ∷ r, free, depth, n)

module _ {R T : Type 0} (f : Format R T) (m : Limits) where
  abbrev pub mark_first : List Ele → (ℕ → R) → ℕ → R
  mark_first [] buf = buf
  mark_first (e ∷ r) buf = λ i. if i == e.addr then f.mark_discont (buf i) else buf i

  -- rfnm_local_rx_cull_stale
  unfoldable pub cull_stale : Pools R T → Pools R T
  unfolding cull
  cull_stale p =
      let (ready, free, depth, n) = cull m.rx_queue_bound p.rx_ready p.rx_free p.rx_queue_depth 0 in
      if m.rx_queue_bound == 0 then p else if n == 0 then p else record p {
        rx_ready = ready;
        rx_free = free;
        rx_queue_depth = depth;
        rx_buf = mark_first ready p.rx_buf;
        rx_culled = (p.rx_culled + n) % 2 ^ 64;
        last_addr = no_addr;
      }

  -- The producer ships the packet in slot `addr` (in rfnm_handler_in).
  unfoldable pub rx_ship : ℕ → R → Pools R T → Pools R T
  rx_ship addr packet p = elim p.rx_free [
    | [] ↦ record p { rx_buf = λ i. if i == addr then packet else p.rx_buf i }
    | e ∷ r ↦ record p {
      rx_free = r;
      rx_buf = λ i. if i == addr then packet else p.rx_buf i;
      rx_ready = p.rx_ready ++ (record e { addr = addr } ∷ []);
      rx_queue_depth = p.rx_queue_depth + 1;
    }
  ]

  -- rfnm_release_local_buffer_rx_ref
  unfoldable pub release_rx : Ele → Pools R T → Pools R T
  release_rx e p = record p { rx_free = p.rx_free ++ (e ∷ []) }

  -- rfnm_dequeue_local_buffer_rx_ref
  unfoldable pub dequeue_rx_ref : Pools R T → Option Ele × Pools R T
  dequeue_rx_ref p = elim p.rx_ready [
    | [] ↦ (none, p)
    | e ∷ r ↦ (some e, record p { rx_ready = r; rx_queue_depth = p.rx_queue_depth - 1 })
  ]

  -- rfnm_dequeue_local_buffer_rx, which gives the packet itself.
  unfoldable pub dequeue_rx : Pools R T → Option R × Pools R T
  dequeue_rx p = elim p.rx_ready [
    | [] ↦ (none, p)
    | e ∷ r ↦ (some (p.rx_buf e.addr), record p { rx_ready = r; rx_free = p.rx_free ++ (e ∷ []) })
  ]

  -- rfnm_claim_local_buffer_tx
  unfoldable pub claim_tx : Pools R T → Option Ele × Pools R T
  claim_tx p = elim p.tx_free [ [] ↦ (none, p) | e ∷ r ↦ (some e, record p { tx_free = r }) ]

  -- rfnm_commit_local_buffer_tx
  unfoldable pub commit_tx : Ele → Pools R T → Pools R T
  unfolding insert_sorted
  commit_tx e p = record p {
    tx_ready = insert_sorted (record e { local_cc = f.usb_cc (p.tx_buf e.addr) }) p.tx_ready;
  }

  -- rfnm_abort_local_buffer_tx
  unfoldable pub abort_tx : Ele → Pools R T → Pools R T
  abort_tx e p = record p { tx_free = p.tx_free ++ (e ∷ []) }

  abbrev pub fill_tx : ℕ → T → Pools R T → Pools R T
  fill_tx addr packet p = record p { tx_buf = λ i. if i == addr then packet else p.tx_buf i }

  unfoldable pub submit : Option Ele → T → Pools R T → ℤ × Pools R T
  unfolding commit_tx
  submit none packet p = (enospc, p)
  submit (some e) packet p = (pos 0, commit_tx e (fill_tx e.addr packet p))

  -- rfnm_queue_local_buffer_tx
  unfoldable pub queue_tx : T → Pools R T → ℤ × Pools R T
  unfolding claim_tx submit
  queue_tx packet p = let (taken, p₁) = claim_tx p in submit taken packet p₁

  -- The consumer is done with the packet at the head (in rfnm_handler_out).
  unfoldable pub finish_tx : Pools R T → Pools R T
  finish_tx p = elim p.tx_ready [
    | [] ↦ p
    | e ∷ r ↦ record p { tx_ready = r; tx_free = p.tx_free ++ (e ∷ []) }
  ]

  -- The pool's part of rfnm_tx_flush_staging.
  unfoldable pub flush_staging : Pools R T → Pools R T
  unfolding move_all
  flush_staging p = record p { tx_ready = []; tx_free = move_all p.tx_ready p.tx_free }

  -- The pools' part of rfnm_reset_stream_io_state.
  unfoldable pub reset_stream_io : Pools R T → Pools R T
  unfolding move_all
  reset_stream_io p = record p {
    tx_ready = [];
    tx_free = move_all p.tx_ready p.tx_free;
    rx_ready = [];
    rx_free = move_all p.rx_ready p.rx_free;
  }
