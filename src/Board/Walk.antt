-- ===== src/Board/Walk.antt =====
-- The walk of an apply over the channels of a board (kernel_driver/la9310rfnm/rfnm_daughterboard.c):
-- what becomes of each channel, and of its entries in the report.
use la9310_driver.Base.{
  ℕ, suc, ◌+◌, ◌<◌, ◌≤◌, ◌≡◌, ◌≢◌, ◌⊎◌, inl, inr, refl, sym, ◌∙◌, ap, Bool, true, false, not, List,
  [], ◌∷◌, Option, some, if◌then◌else◌, if-intro, ltb, leb, ◌==◌, ◌&&◌, ◌||◌, ℤ, pos, is_zero,
  negate, set, get_or, length, length-set, Bool-cases, Bool-cases, get_or-set_self, get_or-set_ne,
  arith,
}
use mathlib.Core.Path.{subst}
use mathlib.Core.Option.{some-injective}
use la9310_driver.Base.Fault.{>>=-eq-some}
use la9310_driver.Board.{Rej, rej_none, rej_device, Chain}
use la9310_driver.Board.Apply.{
  list_size, with_entry, report_at, denied, ChList, Dir, Walk, is_applied, next, noted, apply_ch,
  apply_chs,
}

not-true : (b : Bool) → not b ≡ true → b ≡ false
not-true true h = cc
not-true false h = refl

not-false : (b : Bool) → not b ≡ false → b ≡ true
not-false true h = refl
not-false false h = cc

absorb :
    (p : Bool) (d n i k : ℕ)
    → k ≡ d
    → d + suc n ≤ 8
    → ((p || (ltb i 8 && (i == k))) || (leb (d + 1) i && ltb i (d + 1 + n)))
      ≡ (p || (leb d i && ltb i (d + suc n)))
absorb true d n i k h m = refl
absorb false d n i k h m = ground arith

module _ {C W : Type 0} (dir : Dir C W) (l : ChList C) where
  -- The channels have the indices from `d` on.
  abbrev pub IsNumbered : ℕ → List C → Type 0
  IsNumbered d [] = Unit
  IsNumbered d (live ∷ r) = (dir.id_of live ≡ d) × IsNumbered (d + 1) r

  -- What becomes of a channel, with its entry, where the entry was `old` and the chain `x`: it is
  -- overwritten without a call of the board, or denied as it was, or set, and then the chain `x'` is
  -- what the board's call left.
  abbrev pub Fate : ℕ → C → C → C → ℤ × Rej → ℤ × Rej → Chain W → Chain W → Type 0
  Fate slot live ch new old entry x x' =
      ((is_applied dir l (dir.id_of live) ≡ false)
        × (new ≡ dir.merge live ch)
        × (entry ≡ old)
        × (x' ≡ x))
      ⊎ ((is_applied dir l (dir.id_of live) ≡ true)
          × (((is_zero (dir.validate ch).0 ≡ false)
                × (new ≡ live)
                × (entry ≡ dir.validate ch)
                × (x' ≡ x))
              ⊎ ((is_zero (dir.validate ch).0 ≡ true)
                  × (new ≡ dir.merge live ch)
                  × (code : ℤ) × (dir.dgb_set slot new x ≡ some (code, x'))
                  × (entry ≡ (negate code, if is_zero code then rej_none else rej_device)))))

  abbrev pub entry_at : Walk W → ℕ → ℤ × Rej
  entry_at a i = (get_or a.ecodes i (pos 0), get_or a.rej i rej_none)

  -- The fates of the channels of a board, the chain handed on from one to the next.
  abbrev pub AreFates :
      ℕ → ℕ → List C → List C → (ℕ → ℤ × Rej) → (ℕ → ℤ × Rej) → Chain W → Chain W → Type 0
  AreFates slot d [] [] old entry x x' = x' ≡ x
  AreFates slot d [] (new ∷ r) old entry x x' = ⊥
  AreFates slot d (live ∷ r) [] old entry x x' = ⊥
  AreFates slot d (live ∷ r) (new ∷ r') old entry x x' =
      (y : Chain W) × Fate slot live (l.ch d) new (old d) (entry d) x y
      × AreFates slot (d + 1) r r' old entry y x'

  -- A step changes no entry but its channel's, and counts.
  pub record Stepped (slot : ℕ) (live : C) (a : Walk W) (t : C × Walk W) : Type 0 where
    pub counts : t.1.d ≡ a.d + 1
    pub others : (i : ℕ) → i ≢ dir.id_of live → entry_at t.1 i ≡ entry_at a i
    pub present : (i : ℕ) → t.1.present i ≡ (a.present i || (ltb i 8 && (i == dir.id_of live)))
    pub codes : length t.1.ecodes ≡ length a.ecodes
    pub rejs : length t.1.rej ≡ length a.rej
    pub fate :
        dir.id_of live < length a.ecodes
        → dir.id_of live < length a.rej
        → Fate slot live
            (l.ch a.d)
            t.0
            (entry_at a (dir.id_of live))
            (entry_at t.1 (dir.id_of live))
            a.chain
            t.1.chain

  -- One entry is set.
  set-Stepped :
      (slot : ℕ) (live new : C) (a : Walk W) (code : ℤ) (r : Rej) (x : Chain W)
      → Fate slot live (l.ch a.d) new (entry_at a (dir.id_of live)) (code, r) a.chain x
      → Stepped slot live a (
        new,
        record (next dir l live a) {
          ecodes = set a.ecodes (dir.id_of live) code;
          rej = set a.rej (dir.id_of live) r;
          chain = x;
        },
      )
  set-Stepped slot live new a code r x f = record {
    counts = refl;
    others = λ i ne. rw (
      get_or-set_ne a.ecodes code (pos 0) (λ e. ne (sym e)),
      get_or-set_ne a.rej r rej_none (λ e. ne (sym e)),
    );
    present = λ i. refl;
    codes = length-set a.ecodes (dir.id_of live) code;
    rejs = length-set a.rej (dir.id_of live) r;
    fate = λ h k.
        rw
          (
            get_or-set_self a.ecodes (dir.id_of live) code (pos 0) h,
            get_or-set_self a.rej (dir.id_of live) r rej_none k,
          )
          f;
  }

  skip-Stepped :
      (slot : ℕ) (live : C) (a : Walk W)
      → is_applied dir l (dir.id_of live) ≡ false
      → Stepped slot live a (dir.merge live (l.ch a.d), next dir l live a)
  skip-Stepped slot live a off = record {
    counts = refl;
    others = λ i ne. refl;
    present = λ i. refl;
    codes = refl;
    rejs = refl;
    fate = λ h k. inl (off, refl, refl, refl);
  }

  with_entry-Stepped :
      (slot : ℕ) (live new : C) (a : Walk W) (code : ℤ) (r : Rej) (x : Chain W) (t : C × Walk W)
      → Fate slot live (l.ch a.d) new (entry_at a (dir.id_of live)) (code, r) a.chain x
      → with_entry dir l live new code r x a ≡ some t
      → Stepped slot live a t
  unfolding with_entry report_at
  with_entry-Stepped slot live new a code r x t f =
      let inside = ltb (dir.id_of live) (length a.ecodes) && ltb (dir.id_of live) (length a.rej) in
      elim (Bool-cases inside) [
        | inl on ↦ rw on (λ e.
            subst (Stepped slot live a) (some-injective _ _ e)
              (set-Stepped slot live new a code r x f))
        | inr off ↦ rw off (λ e. absurd (cc e))
      ]

  pub apply_ch-Stepped :
      (slot : ℕ) (live : C) (a : Walk W) (t : C × Walk W)
      → apply_ch dir l slot live a ≡ some t
      → Stepped slot live a t
  unfolding apply_ch noted denied
  apply_ch-Stepped slot live a t =
      let Goal : Option (C × Walk W) → Type 0 = λ o. o ≡ some t → Stepped slot live a t in
      let v = dir.validate (l.ch a.d) in
      let applied = is_applied dir l (dir.id_of live) in
      if-intro Goal (leb 32 (dir.id_of live) || leb list_size a.d) _ _ (λ _ e. absurd (cc e))
        (λ _.
          if-intro Goal (not applied) _ _
            (λ off e.
              subst (Stepped slot live a) (some-injective _ _ e)
                (skip-Stepped slot live a (not-true _ off)))
            (λ on.
              if-intro Goal (not (is_zero v.0)) _ _
                (λ bad e.
                  with_entry-Stepped slot live live a v.0 v.1 a.chain t
                    (inr (not-false _ on, inl (not-true _ bad, refl, refl, refl))) e)
                (λ good e.
                  let (r, found, e') =
                    >>=-eq-some (dir.dgb_set slot (dir.merge live (l.ch a.d)) a.chain)
                      (noted dir l live a) e in
                  with_entry-Stepped slot live (dir.merge live (l.ch a.d)) a (negate r.0)
                    (if is_zero r.0 then rej_none else rej_device) r.1 t
                    (inr (not-false _ on, inr (not-false _ good, refl, r.0, found, refl))) e')))

  Fate-move :
      (slot : ℕ) (live new : C) (x x' : Chain W) {ch ch' : C} {old old' entry entry' : ℤ × Rej}
      → ch ≡ ch'
      → old ≡ old'
      → entry ≡ entry'
      → Fate slot live ch new old entry x x'
      → Fate slot live ch' new old' entry' x x'
  Fate-move slot live new x x' {ch' = ch'} {old = old} {old' = old'} {entry = entry} p q r f =
      subst (λ e. Fate slot live ch' new old' e x x') r
        (subst (λ o. Fate slot live ch' new o entry x x') q
          (subst (λ c. Fate slot live c new old entry x x') p f))

  pub AreFates-move :
      (slot d : ℕ) (ls ls' : List C) (old : ℕ → ℤ × Rej) (x x' : Chain W)
      {entry entry' : ℕ → ℤ × Rej}
      → ((i : ℕ) → i < d + length ls → entry i ≡ entry' i)
      → AreFates slot d ls ls' old entry x x'
      → AreFates slot d ls ls' old entry' x x'
  AreFates-move slot d [] [] old x x' same f = f
  AreFates-move slot d [] (new ∷ ls') old x x' same f = f
  AreFates-move slot d (live ∷ ls) [] old x x' same f = f
  AreFates-move slot d (live ∷ ls) (new ∷ ls') old x x' same (y, f, fs) = (
    y,
    Fate-move slot live new x y refl refl (same d (omega arith)) f,
    AreFates-move slot (d + 1) ls ls' old y x' (λ i lt. same i (omega arith)) fs,
  )

  abbrev pub IsWalk : ℕ → ℕ → List C → Walk W → (ℕ → ℤ × Rej) → List C × Walk W → Type 0
  IsWalk slot d ls a old t =
      AreFates slot d ls t.0 old (entry_at t.1) a.chain t.1.chain
      × (t.1.d ≡ d + length ls)
      × (length t.1.ecodes ≡ length a.ecodes)
      × (length t.1.rej ≡ length a.rej)
      × ((i : ℕ) → t.1.present i ≡ (a.present i || (leb d i && ltb i (d + length ls))))
      × ((i : ℕ) → i < d → entry_at t.1 i ≡ entry_at a i)
      × ((i : ℕ) → d + length ls ≤ i → entry_at t.1 i ≡ entry_at a i)

  pub walk_from :
      (slot d : ℕ) (ls : List C) (a : Walk W) (old : ℕ → ℤ × Rej) (t : List C × Walk W)
      → a.d ≡ d
      → IsNumbered d ls
      → d + length ls ≤ 8
      → d + length ls ≤ length a.ecodes
      → d + length ls ≤ length a.rej
      → ((i : ℕ) → d ≤ i → entry_at a i ≡ old i)
      → apply_chs dir l slot ls a ≡ some t
      → IsWalk slot d ls a old t
  unfolding apply_chs
  walk_from slot d [] a old t at_d num m h k same e =
      subst (IsWalk slot d [] a old) (some-injective _ _ e)
        (refl, omega arith, refl, refl, λ i. ground arith, λ i lt. refl, λ i le. refl)
  walk_from slot d (live ∷ ls) a old t at_d (here, num) m h k same e =
      let (one, e₁, rest) = >>=-eq-some (apply_ch dir l slot live a) _ e in
      let (ts, e₂, last) = >>=-eq-some (apply_chs dir l slot ls one.1) _ rest in
      let s = apply_ch-Stepped slot live a one e₁ in
      let ih =
        walk_from slot (d + 1) ls one.1 old ts (omega arith) num (omega arith) (omega arith)
          (omega arith) (λ i le. s.others i (λ z. omega arith) ∙ same i (omega arith)) e₂ in
      subst (IsWalk slot d (live ∷ ls) a old) (some-injective _ _ last) (
        (
          one.1.chain,
          Fate-move slot live one.0 a.chain one.1.chain (ap l.ch at_d)
              (ap (entry_at a) here ∙ same d (omega arith))
              (ap (entry_at one.1) here ∙ sym (ih.5 d (omega arith)))
              (s.fate (omega arith) (omega arith)),
          ih.0,
        ),
        omega (arith, ih.1),
        ih.2 ∙ s.codes,
        ih.3 ∙ s.rejs,
        λ i.
            ih.4 i
            ∙ (ap (λ p. p || (leb (d + 1) i && ltb i (d + 1 + length ls))) (s.present i)
                ∙ absorb (a.present i) d (length ls) i (dir.id_of live) here m),
        λ i lt. ih.5 i (omega arith) ∙ s.others i (λ z. omega arith),
        λ i le. ih.6 i (omega arith) ∙ s.others i (λ z. omega arith),
      )
