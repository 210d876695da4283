-- ===== src/Rfnm/Consumer/Timed.antt =====
-- What a timed packet leaves in the ring (`rfnm_handler_out` of
-- kernel_driver/la9310rfnm/la9310_rfnm.c).
use Prim.Native.Nat.{min}
use native.Mathlib.Nat.{mod-eq_of_lt, mod-eq-sub-mod}
use native.Mathlib.Decide.{dec_lt}
use mathlib.Core.List.{append-nil, append_assoc}
use la9310_driver.Base.{
  ℕ, zero, suc, ◌+◌, ◌-◌, ◌*◌, ◌%◌, ◌≤◌, ◌<◌, ◌≡◌, ◌≢◌, refl, sym, ap, ap₂, ◌∙◌, List, [], ◌∷◌,
  ◌++◌, length, take, drop, replicate, ◌==◌, if◌then◌else◌, if-intro, arith, take-append-drop,
  length-drop, ==_iff,
}
use la9310_driver.Rfnm.Consumer.{Geometry, bufcnt}
use la9310_driver.Rfnm.Consumer.Place.{write, slot_of, fill}

mod_once : (n a : ℕ) → n ≤ a → a < n + n → a % n ≡ a - n
mod_once n a above below =
    omega
      (arith, mod-eq-sub-mod {n = a} {m = n} above, mod-eq_of_lt {n = a - n} {m = n} (omega arith))

-- Two slots of the ring that are fewer than its size apart differ.
slot-ne : (n s i j : ℕ) → s < n → i < j → j < n → (s + i) % n ≢ (s + j) % n
slot-ne n s i j hs hij hj e = elim (dec_lt (s + j) n) [
  | yes p ↦ omega (arith, e, mod-eq_of_lt p, mod-eq_of_lt {n = s + i} {m = n} (omega arith))
  | no p ↦ elim (dec_lt (s + i) n) [
    | yes q ↦ omega (arith, e, mod_once n (s + j) (omega arith) (omega arith), mod-eq_of_lt q)
    | no q ↦ omega (
      arith,
      e,
      mod_once n (s + j) (omega arith) (omega arith),
      mod_once n (s + i) (omega arith) (omega arith),
    )
  ]
]

module _ {A : Type 0} where
  replicate-append : (m n : ℕ) (z : A) → replicate m z ++ replicate n z ≡ replicate (m + n) z
  replicate-append zero n z = let e : 0 + n ≡ n = omega arith in rw e
  replicate-append (suc m) n z =
      let e : suc m + n ≡ suc (m + n) = omega arith in rw e (ap (◌∷◌ z) (replicate-append m n z))

  take_all : (n : ℕ) (l : List A) → length l ≤ n → take n l ≡ l
  take_all zero [] h = refl
  take_all zero (x ∷ l) h = absurd (omega arith)
  take_all (suc n) [] h = refl
  take_all (suc n) (x ∷ l) h = ap (◌∷◌ x) (take_all n l (omega arith))

  drop_all : (n : ℕ) (l : List A) → length l ≤ n → drop n l ≡ []
  drop_all zero [] h = refl
  drop_all zero (x ∷ l) h = absurd (omega arith)
  drop_all (suc n) [] h = refl
  drop_all (suc n) (x ∷ l) h = drop_all n l (omega arith)

  drop-drop : (m n : ℕ) (l : List A) → drop n (drop m l) ≡ drop (m + n) l
  drop-drop zero n l = let e : 0 + n ≡ n = omega arith in rw e
  drop-drop (suc m) n [] = rw (drop_all n [] (omega arith), drop_all (suc m + n) [] (omega arith))
  drop-drop (suc m) n (x ∷ l) =
      let e : suc m + n ≡ suc (m + n) = omega arith in rw e (drop-drop m n l)

module _ {A : Type 0} (z : A) (g : Geometry) where
  -- The samples of `k` slots, from the `w`-th after `s` on.
  abbrev pub aired : (ℕ → List A) → ℕ → ℕ → ℕ → List A
  aired ring s w zero = []
  aired ring s w (suc k) = ring ((s + w) % bufcnt g) ++ aired ring s (w + 1) k

  -- What the rounds of the loop write, one after the other.
  pub written : List A → ℕ → ℕ → ℕ → ℕ → ℕ → List A
  written src content pad zero w done = []
  written src content pad (suc k) w done =
      let s0 = if w == 0 then pad else 0 in
      slot_of z g src content s0 done
      ++ written src content pad k (w + 1) (done + min (g.elems_per_slot - s0) (content - done))

  -- The loop leaves a slot alone that none of its rounds is for.
  pub fill_other :
      (s pad : ℕ) (src : List A) (content k w done : ℕ) (ring : ℕ → List A) (i : ℕ)
      → ((j : ℕ) → w ≤ j → j < w + k → i ≢ (s + j) % bufcnt g)
      → fill z g s pad src content k w done ring i ≡ ring i
  unfolding fill
  fill_other s pad src content zero w done ring i h = refl
  fill_other s pad src content (suc k) w done ring i h =
      fill_other s pad src content k (w + 1) _ _ i (λ j a b. h j (omega arith) (omega arith))
      ∙ if-intro (λ (x : List A). x ≡ ring i) (i == (s + w) % bufcnt g) _ _
          (λ on. absurd (h w (omega arith) (omega arith) ((==_iff _ _).0 on))) (λ _. refl)

  pub aired-fill :
      (s pad : ℕ) (src : List A) (content k w done : ℕ) (ring : ℕ → List A)
      → s < bufcnt g
      → w + k ≤ bufcnt g
      → aired (fill z g s pad src content k w done ring) s w k ≡ written src content pad k w done
  unfolding fill written
  aired-fill s pad src content zero w done ring hs fits = refl
  aired-fill s pad src content (suc k) w done ring hs fits =
      let first : ◌≡◌ {A = List A} _ _ =
        fill_other s pad src content k (w + 1)
          (done + min (g.elems_per_slot - (if w == 0 then pad else 0)) (content - done))
          (write z g ring ((s + w) % bufcnt g)
            (slot_of z g src content (if w == 0 then pad else 0) done))
          ((s + w) % bufcnt g) (λ j a b. slot-ne (bufcnt g) s w j hs (omega arith) (omega arith))
        ∙ if-intro (λ (x : List A). x ≡ slot_of z g src content (if w == 0 then pad else 0) done)
            ((s + w) % bufcnt g == (s + w) % bufcnt g) _ _ (λ _. refl)
            (λ off. absurd (ground arith)) in
      ap₂ ◌++◌ first (aired-fill s pad src content k (w + 1) _ _ hs (omega arith))

  length-drop-le : (n m : ℕ) (l : List A) → length l ≤ n + m → length (drop n l) ≤ m
  length-drop-le n m l h = omega (arith, length-drop n l)

  slot_full :
      (src : List A) (content done : ℕ)
      → done + g.elems_per_slot ≤ content
      → slot_of z g src content 0 done ≡ take g.elems_per_slot (drop done src)
  unfolding slot_of
  slot_full src content done h =
      let n : min (g.elems_per_slot - 0) (content - done) ≡ g.elems_per_slot = omega arith in
      let gap : g.elems_per_slot - 0 - g.elems_per_slot ≡ 0 = omega arith in
      rw (n, gap) (append-nil _)

  slot_last :
      (src : List A) (content done : ℕ)
      → length src ≡ content
      → done ≤ content
      → content < done + g.elems_per_slot
      → slot_of z g src content 0 done
        ≡ drop done src ++ replicate (done + g.elems_per_slot - content) z
  unfolding slot_of
  slot_last src content done len below h =
      let n : min (g.elems_per_slot - 0) (content - done) ≡ content - done = omega arith in
      let gap : g.elems_per_slot - 0 - (content - done) ≡ done + g.elems_per_slot - content =
        omega arith in
      rw (n, gap, take_all (content - done) (drop done src) (length-drop-le _ _ src (omega arith)))

  -- The rounds after the first write what is left, and zeros.
  written_rest :
      (src : List A) (content pad k w done : ℕ)
      → 0 < w
      → length src ≡ content
      → done ≤ content
      → content ≤ done + k * g.elems_per_slot
      → written src content pad k w done
        ≡ drop done src ++ replicate (done + k * g.elems_per_slot - content) z
  unfolding written
  written_rest src content pad zero w done hw len below enough =
      let gap : done + 0 * g.elems_per_slot - content ≡ 0 = omega arith in
      rw (drop_all done src (omega arith), gap)
  written_rest src content pad (suc k) w done hw len below enough =
      let s0 : (if w == 0 then pad else 0) ≡ 0 = ground arith in
      let e = g.elems_per_slot in
      let times : suc k * e ≡ e + k * e = grind arith in
      rw s0 (elim (dec_lt content (done + e)) [
        | yes last ↦
            let n : done + min (e - 0) (content - done) ≡ content = omega arith in
            let tail : written src content pad k (w + 1) content ≡ replicate (k * e) z =
              written_rest src content pad k (w + 1) content (omega arith) len (omega arith)
                (omega arith)
              ∙ (let gap : content + k * e - content ≡ k * e = omega arith in
                  rw (drop_all content src (omega arith), gap)) in
            let gap : done + e - content + k * e ≡ done + suc k * e - content = omega arith in
            rw (n, tail, slot_last src content done len below last)
              (append_assoc (drop done src) _ _
                ∙ ap (◌++◌ (drop done src)) (
                    replicate-append (done + e - content) (k * e) z
                    ∙ ap (λ (m : ℕ). replicate m z) gap))
        | no full ↦
            let n : done + min (e - 0) (content - done) ≡ done + e = omega arith in
            let ih =
              written_rest src content pad k (w + 1) (done + e) (omega arith) len (omega arith)
                (omega arith) in
            let gap : done + e + k * e - content ≡ done + suc k * e - content = omega arith in
            rw (n, slot_full src content done (omega arith), ih, ← drop-drop done e src, gap)
              (sym (append_assoc (take e (drop done src)) (drop e (drop done src)) _)
                ∙ ap (λ (l : List A). l ++ replicate (done + suc k * e - content) z)
                    (take-append-drop e (drop done src)))
      ])

  -- The loop from its start writes `pad` zeros, the samples, and zeros up to the end of the last slot.
  pub written_all :
      (src : List A) (content pad k : ℕ)
      → pad < g.elems_per_slot
      → g.elems_per_slot ≤ content
      → length src ≡ content
      → pad + content ≤ k * g.elems_per_slot
      → written src content pad k 0 0
        ≡ replicate pad z ++ (src ++ replicate (k * g.elems_per_slot - (pad + content)) z)
  unfolding written slot_of
  written_all src content pad zero hp hc len enough = absurd (omega arith)
  written_all src content pad (suc k) hp hc len enough =
      let e = g.elems_per_slot in
      let times : suc k * e ≡ e + k * e = grind arith in
      let n : min (e - pad) (content - 0) ≡ e - pad = omega arith in
      let from : 0 + (e - pad) ≡ e - pad = omega arith in
      let one : 0 + 1 ≡ 1 = refl in
      let gap : e - pad - (e - pad) ≡ 0 = omega arith in
      let last : e - pad + k * e - content ≡ suc k * e - (pad + content) = omega arith in
      let ih =
        written_rest src content pad k 1 (e - pad) (omega arith) len (omega arith) (omega arith) in
      rw (n, gap, from, ih, last)
        (append_assoc (replicate pad z) _ _
          ∙ ap (◌++◌ (replicate pad z)) (
              ap
                (λ (l : List A).
                  l ++ (drop (e - pad) src ++ replicate (suc k * e - (pad + content)) z))
                (append-nil (take (e - pad) src))
              ∙ sym (append_assoc (take (e - pad) src) (drop (e - pad) src) _)
              ∙ ap (λ (l : List A). l ++ replicate (suc k * e - (pad + content)) z)
                  (take-append-drop (e - pad) src)))
