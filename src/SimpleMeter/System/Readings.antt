-- ===== src/SimpleMeter/System/Readings.antt =====
-- No peak is lost, whenever the peak is read.
use fbutils.Prelude.{
  ℕ, zero, suc, ◌≤◌, ◌≡◌, refl, sym, ◌∙◌, ap, true, false, Bool-cases, ◌⊎◌, inl, inr, arith, List,
  [], ◌∷◌, ◌++◌, some, IsIn, IsIn-cons, get_elem?, length, length-append,
}
use mathlib.Core.Path.{subst}
use fbutils.Scalar.{Scalar, IsOrdered}
use fbutils.Scalar.Order
use fbutils.SimpleMeter.{Measures, current_peak}
use fbutils.SimpleMeter.System.{
  Pc, idle, compared, got, System, Step, set_first, set_not, get, end, reading, Reach, start, later,
}

get_elem?-append {ℓ} :
    {A : Type ℓ} (xs : List A) (i : ℕ) (a : A) {v : A}
    → get_elem? xs i ≡ some v
    → get_elem? (xs ++ a ∷ []) i ≡ some v
get_elem?-append [] i a h = cc
get_elem?-append (x ∷ xs) zero a h = h
get_elem?-append (x ∷ xs) (suc i) a h = get_elem?-append xs i a h

get_elem?-last {ℓ} :
    {A : Type ℓ} (xs : List A) (a : A) → get_elem? (xs ++ a ∷ []) (length xs) ≡ some a
get_elem?-last [] a = refl
get_elem?-last (x ∷ xs) a = get_elem?-last xs a

module _ {T : Type 0} ⦃s : Scalar T⦄ where
  -- The peak `c` can still be read, or one of the readings from the one of number `n` on was at least `c`.
  abbrev pub Kept : T → ℕ → T → List T → Type 0
  Kept c n peak readings =
      (s.le c peak ≡ true)
      ⊎ ((k : ℕ) × (r : T) × (n ≤ k) × (get_elem? readings k ≡ some r) × (s.le c r ≡ true))

  -- What is known of the peak and the readings where the audio thread stands
  abbrev PcOk : Pc T → T → List T → Type 0
  PcOk idle peak readings = Unit {0}
  PcOk (compared c n) peak readings = (s.le s.nought c ≡ true) × (n ≤ length readings)
  PcOk (got c n prev) peak readings =
      (s.le s.nought c ≡ true)
      × (n ≤ length readings)
      × ((peak ≡ prev) ⊎ (peak ≡ s.nought))
      × (s.lt prev c ≡ false → Kept c n peak readings)

  pub record Inv (y : System T) : Type 0 where
    pub all_kept :
        (c : T) (n : ℕ)
        → IsIn (c, n) y.processed
        → (n ≤ length y.readings) × Kept c n y.peak y.readings
    pub in_hand : PcOk y.pc y.peak y.readings

module _ {T : Type 0} ⦃s : Scalar T⦄ (ordered : IsOrdered T) where
  Kept-raised :
      (c : T) (n : ℕ) (peak peak' : T) (readings : List T)
      → s.le peak peak' ≡ true
      → Kept c n peak readings
      → Kept c n peak' readings
  Kept-raised c n peak peak' readings up (inl h) = inl (ordered.le_trans c peak peak' h up)
  Kept-raised c n peak peak' readings up (inr h) = inr h

  Kept-read :
      (c : T) (n : ℕ) (peak : T) (readings : List T)
      → n ≤ length readings
      → Kept c n peak readings
      → Kept c n s.nought (readings ++ peak ∷ [])
  Kept-read c n peak readings old (inl h) =
      inr (length readings, peak, old, get_elem?-last readings peak, h)
  Kept-read c n peak readings old (inr (k, r, late, held, h)) =
      inr (k, r, late, get_elem?-append readings k peak held, h)

  PcOk-read :
      (pc : Pc T) (peak : T) (readings : List T)
      → PcOk pc peak readings
      → PcOk pc s.nought (readings ++ peak ∷ [])
  PcOk-read idle peak readings h = tt
  PcOk-read (compared c n) peak readings (c_ok, old) =
      (c_ok, omega (arith, length-append readings (peak ∷ [])))
  PcOk-read (got c n prev) peak readings (c_ok, old, which, kept) = (
    c_ok,
    omega (arith, length-append readings (peak ∷ [])),
    inr refl,
    λ h. Kept-read c n peak readings old (kept h),
  )

  -- One more entry of the log, that is kept, with the others kept after the peak has gone up
  logged :
      (c : T) (n : ℕ) (peak peak' : T) (readings : List T) (log : List (T × ℕ))
      → s.le peak peak' ≡ true
      → ((d : T) (k : ℕ) → IsIn (d, k) log → (k ≤ length readings) × Kept d k peak readings)
      → n ≤ length readings
      → Kept c n peak' readings
      → (d : T) (k : ℕ) → IsIn (d, k) ((c, n) ∷ log)
      → (k ≤ length readings) × Kept d k peak' readings
  logged c n peak peak' readings log up others old kept d k m =
      elim (IsIn-cons (d, k) (c, n) log m) [
        | inl e ↦ (omega (arith, ap (λ z. z.1) e), subst (λ z. Kept z.0 z.1 peak' readings) e kept)
        | inr i ↦ let (older, h) = others d k i in (older, Kept-raised d k peak peak' readings up h)
      ]

  Step-Inv :
      (m : Measures T)
      → ((buffer : List T) → s.le s.nought (current_peak m buffer) ≡ true)
      → {y z : System T} → Inv y
      → Step m y z
      → Inv z
  Step-Inv m positive {y} inv (set_first buffer at zero_peak) =
      let c = current_peak m buffer in
      let up : s.le y.peak c ≡ true =
        ap (λ z. s.le z c) (ordered.same-le y.peak s.nought zero_peak) ∙ positive buffer in
      record {
        all_kept =
            logged c (length y.readings) y.peak c y.readings y.processed up inv.all_kept
              (omega arith) (inl (ordered.le_refl c));
        in_hand = subst (λ pc. PcOk pc c y.readings) (sym at) tt;
      }
  Step-Inv m positive {y} inv (set_not buffer at not_zero) = record {
    all_kept = inv.all_kept;
    in_hand = (positive buffer, omega arith);
  }
  Step-Inv m positive {y} inv (get {c} {n} at) =
      let (c_ok, old) : PcOk (compared c n) y.peak y.readings =
        subst (λ pc. PcOk pc y.peak y.readings) at inv.in_hand in
      record {
        all_kept = inv.all_kept;
        in_hand = (c_ok, old, inl refl, λ h. inl (Order.le_of_not_lt ordered y.peak c h));
      }
  Step-Inv m positive {y} inv (end {c} {prev} {n} at) =
      let (c_ok, old, which, kept) : PcOk (got c n prev) y.peak y.readings =
        subst (λ pc. PcOk pc y.peak y.readings) at inv.in_hand in
      elim (Bool-cases (s.lt prev c)) [
        | inl l ↦ rw l (record {
          all_kept =
              logged c n y.peak c y.readings y.processed (below which l c_ok) inv.all_kept old
                (inl (ordered.le_refl c));
          in_hand = tt;
        })
        | inr l ↦ rw l (record {
          all_kept =
              logged c n y.peak y.peak y.readings y.processed (ordered.le_refl y.peak) inv.all_kept
                old (kept l);
          in_hand = tt;
        })
      ]
    where
      below :
          {peak prev c : T}
          → (peak ≡ prev) ⊎ (peak ≡ s.nought)
          → s.lt prev c ≡ true
          → s.le s.nought c ≡ true
          → s.le peak c ≡ true
      below {prev = prev} {c = c} (inl e) l c_ok =
          ap (λ z. s.le z c) e ∙ (Order.le_of_lt ordered prev c l).0
      below {c = c} (inr e) l c_ok = ap (λ z. s.le z c) e ∙ c_ok
  Step-Inv m positive {y} inv reading = record {
    all_kept = λ d k i.
        let (old, h) = inv.all_kept d k i in
        (
          omega (arith, length-append y.readings (y.peak ∷ [])),
          Kept-read d k y.peak y.readings old h,
        );
    in_hand = PcOk-read y.pc y.peak y.readings inv.in_hand;
  }

  -- In a totally ordered type, that is without a NaN, and where no current peak is below nought: in every
  -- reachable state, with one audio thread and readings at any time, each current peak that a call of
  -- `process` has finished with is still to be read, or a reading made since that call began was at least
  -- that peak.
  pub no_peak_lost :
      (m : Measures T)
      → ((buffer : List T) → s.le s.nought (current_peak m buffer) ≡ true)
      → {y : System T} → Reach m y
      → (c : T) (n : ℕ) → IsIn (c, n) y.processed
      → Kept c n y.peak y.readings
  no_peak_lost m positive r c n i = ((Reach-Inv m positive r).all_kept c n i).1
    where
      Reach-Inv :
          (m : Measures T)
          → ((buffer : List T) → s.le s.nought (current_peak m buffer) ≡ true)
          → {y : System T} → Reach m y
          → Inv y
      Reach-Inv m positive start = record { all_kept = λ c n (i, held). cc; in_hand = tt }
      Reach-Inv m positive (later r step) = Step-Inv m positive (Reach-Inv m positive r) step
