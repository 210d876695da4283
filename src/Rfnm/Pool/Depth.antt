-- ===== src/Rfnm/Pool/Depth.antt =====
-- The bound of the delivery queue (`rfnm_local_rx_cull_stale` of
-- kernel_driver/la9310rfnm/la9310_rfnm.c): what the cull leaves, and what a reset does to it.
use Prim.Native.Nat.{min}
use native.Mathlib.Decide.{dec_lt}
use mathlib.Core.List.{append-nil, append_assoc}
use la9310_driver.Base.{
  ℕ, suc, ◌+◌, ◌-◌, ◌≤◌, ◌≡◌, refl, sym, ap, Bool, false, List, [], ◌∷◌, ◌++◌, ltb, ◌==◌, if-intro,
  length, drop, take, arith, Bool-cases, inl, inr, ◌⊎◌, ◌≢◌, ltb→lt, ltb-false, length-drop,
}
use la9310_driver.Rfnm.Pool.{
  Ele, Format, Limits, Pools, enospc, cull, cull_stale, mark_first, dequeue_rx_ref,
}
use la9310_driver.Rfnm.Pool.Calls.{deliver, get_next, rx_get}

-- How many the loop culls.
abbrev pub excess : ℕ → ℕ → List Ele → ℕ
excess bound depth l = min (depth - bound) (length l)

cull_lem :
    (bound : ℕ) (l free : List Ele) (depth n : ℕ)
    → length l ≤ depth
    → cull bound l free depth n ≡ (
      drop (excess bound depth l) l,
      free ++ take (excess bound depth l) l,
      depth - excess bound depth l,
      n + excess bound depth l,
    )
unfolding cull
cull_lem bound [] free depth n h =
    let none_left : excess bound depth [] ≡ 0 = omega arith in
    let whole : n + 0 ≡ n = omega arith in
    let still : depth - 0 ≡ depth = omega arith in rw (none_left, whole, still, append-nil free)
cull_lem bound (e ∷ l) free depth n h = elim (Bool-cases (ltb bound depth)) [
  | inl over ↦
      let lt = ltb→lt _ _ over in
      let k = excess bound (depth - 1) l in
      let more : excess bound depth (e ∷ l) ≡ suc k = omega arith in
      let left : depth - suc k ≡ depth - 1 - k = omega arith in
      let count : n + suc k ≡ n + 1 + k = omega arith in
      rw (
        over,
        more,
        left,
        count,
        cull_lem bound l (free ++ (e ∷ [])) (depth - 1) (n + 1) (omega arith),
        append_assoc free (e ∷ []) (take k l),
      )
  | inr within ↦
      let none_left : excess bound depth (e ∷ l) ≡ 0 = omega (arith, ltb-false _ _ within) in
      let whole : n + 0 ≡ n = omega arith in
      let still : depth - 0 ≡ depth = omega arith in
      rw (within, none_left, whole, still, append-nil free)
]

within_or_empty :
    (d b l x y : ℕ) → x ≡ l - min (d - b) l → y ≡ d - min (d - b) l → (x ≡ 0) ⊎ (y ≤ b)
within_or_empty d b l x y hx hy = elim (dec_lt (d - b) l) [
  | yes p ↦ inr (omega arith)
  | no p ↦ inl (omega arith)
]

empty : (l : List Ele) → length l ≡ 0 → l ≡ []
empty [] h = refl
empty (e ∷ l) h = absurd (omega arith)

module _ {R T : Type 0} (f : Format R T) (m : Limits) where
  -- The depth is at least the length of the queue, and above it by the drift.
  abbrev pub IsCounted : Pools R T → Type 0
  IsCounted p = length p.rx_ready ≤ p.rx_queue_depth

  abbrev pub drift : Pools R T → ℕ
  drift p = p.rx_queue_depth - length p.rx_ready

  -- How many packets are too old.
  abbrev pub too_many : Pools R T → ℕ
  too_many p = excess m.rx_queue_bound p.rx_queue_depth p.rx_ready

  pub record Culled (p q : Pools R T) : Type 0 where
    pub ready : q.rx_ready ≡ drop (too_many p) p.rx_ready
    pub free : q.rx_free ≡ p.rx_free ++ take (too_many p) p.rx_ready
    pub same_drift : drift q ≡ drift p
    pub counted : IsCounted q
    pub bounded : (length q.rx_ready ≡ 0) ⊎ (q.rx_queue_depth ≤ m.rx_queue_bound)
    pub marked :
        (too_many p ≡ 0) ⊎ (q.rx_buf ≡ mark_first f m (drop (too_many p) p.rx_ready) p.rx_buf)

  -- With a bound the cull takes the oldest packets off the queue, back to the tail of the free list,
  -- until the depth is within the bound or the queue is empty. The others are the newest, in their
  -- order, and if some were culled, the oldest of the others is marked. What the depth is more than
  -- the length of the queue stays as it was.
  pub cull_stale_lem :
      (p : Pools R T) → m.rx_queue_bound ≢ 0 → IsCounted p → Culled p (cull_stale f m p)
  unfolding cull_stale
  cull_stale_lem p bounded counted =
      let c = cull_lem m.rx_queue_bound p.rx_ready p.rx_free p.rx_queue_depth 0 counted in
      let d = length-drop (too_many p) p.rx_ready in
      let on : (m.rx_queue_bound == 0) ≡ false = ground arith in
      rw (on, c)
        (if-intro (Culled p) (0 + too_many p == 0) p _
          (λ z.
            let k : too_many p ≡ 0 = ground arith in
            record {
              ready = rw k refl;
              free = rw k (sym (append-nil p.rx_free));
              same_drift = refl;
              counted = counted;
              bounded =
                  within_or_empty p.rx_queue_depth m.rx_queue_bound (length p.rx_ready) _ _
                    (omega (arith, k)) (omega (arith, k));
              marked = inl k;
            })
          (λ nz. record {
            ready = refl;
            free = refl;
            same_drift = omega (arith, d);
            counted = omega (arith, d);
            bounded =
                within_or_empty p.rx_queue_depth m.rx_queue_bound (length p.rx_ready) _ _ d refl;
            marked = inr refl;
          }))

  -- The depth is above the length of the queue by the bound or more.
  abbrev pub IsStarved : Pools R T → Type 0
  IsStarved p = length p.rx_ready + m.rx_queue_bound ≤ p.rx_queue_depth

  pub get-IsStarved :
      (copied : Bool) (p : Pools R T)
      → m.rx_queue_bound ≢ 0
      → IsStarved p
      → ((rx_get f m copied p).0 ≡ enospc) × IsStarved (rx_get f m copied p).1
  unfolding rx_get get_next dequeue_rx_ref deliver
  get-IsStarved copied p bounded s =
      let c = cull_stale_lem p bounded (omega arith) in
      let d = length-drop (too_many p) p.rx_ready in
      let gone : length (cull_stale f m p).rx_ready ≡ 0 = omega (arith, ap length c.ready, d) in
      let none_left = empty (cull_stale f m p).rx_ready gone in
      let deep : m.rx_queue_bound ≤ (cull_stale f m p).rx_queue_depth =
        omega (arith, c.same_drift, c.counted, gone) in
      (ground arith, ground arith)
