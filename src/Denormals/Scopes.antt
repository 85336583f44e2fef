-- ===== src/Denormals/Scopes.antt =====
-- What scopes of `ScopedDenormalKiller` set and restore.
use fbutils.Prelude.{
  ℕ, ◌≤◌, ◌≡◌, ◌≢◌, refl, sym, ap, ◌∙◌, Bool, true, false, ◌||◌, IsIn, IsIn-cons, IsIn-append, inl,
  inr, ◌++◌, ==-false, arith,
}
use fbutils.Denormals.{
  Register, killed, enter, restore, leave, raise_flags, Code, nothing, compute, scope, run,
}

-- The bits of a register but for the flags of the exceptions
abbrev pub SameControls : Register → Register → Type 0
SameControls a b = (i : ℕ) → 6 ≤ i → a i ≡ b i

raise_flags-SameControls :
    (flags : ℕ → Bool) (csr : Register) → SameControls (raise_flags flags csr) csr
unfolding raise_flags
raise_flags-SameControls flags csr i above = ground arith

-- The controls are left as they were, whatever scopes the code has.
run-SameControls : (code : Code) (csr : Register) → SameControls (run code csr).1 csr
unfolding run enter restore leave
run-SameControls nothing csr i above = refl
run-SameControls (compute flags next) csr i above =
    run-SameControls next (raise_flags flags csr) i above
    ∙ raise_flags-SameControls flags csr i above
run-SameControls (scope inner true rest next) csr i above =
    run-SameControls next (run rest csr).1 i above ∙ run-SameControls rest csr i above
run-SameControls (scope inner false rest next) csr i above = run-SameControls next csr i above

-- A register that has the controls of another, and may have the two bits of the scopes besides
abbrev pub Keeps : Register → Register → Type 0
Keeps csr r = (i : ℕ) → 6 ≤ i → (csr i ≡ true → r i ≡ true) × (i ≢ 15 → i ≢ 6 → r i ≡ csr i)

Keeps-SameControls : (a b r : Register) → SameControls a b → Keeps a r → Keeps b r
Keeps-SameControls a b r same keeps i above =
    let (on, others) = keeps i above in
    (λ h. on (same i above ∙ h), λ p q. others p q ∙ same i above)

or_false : (b : Bool) → (b || false || false) ≡ b
or_false true = refl
or_false false = refl

killed-Keeps : (csr r : Register) → Keeps (killed csr) r → Keeps csr r
unfolding killed
killed-Keeps csr r keeps i above =
    let (on, others) = keeps i above in
    (
      λ h. on (rw h refl),
      λ a b. others a b ∙ rw (==-false i 15 a) (rw (==-false i 6 b) (or_false (csr i))),
    )

run-Keeps : (code : Code) (csr r : Register) → IsIn r (run code csr).0 → Keeps csr r
unfolding run enter restore leave
run-Keeps nothing csr r (i, held) = absurd cc
run-Keeps (compute flags next) csr r held =
    elim (IsIn-cons r csr (run next (raise_flags flags csr)).0 held) [
      | inl e ↦ λ i above. (λ h. ap (λ c. c i) (sym e) ∙ h, λ a b. ap (λ c. c i) (sym e))
      | inr later ↦
          Keeps-SameControls (raise_flags flags csr) csr r (raise_flags-SameControls flags csr)
            (run-Keeps next (raise_flags flags csr) r later)
    ]
run-Keeps (scope inner true rest next) csr r held =
    let after = (run rest csr).1 in
    elim (IsIn-append r (run inner (killed csr)).0 _ held) [
      | inl inside ↦ killed-Keeps csr r (run-Keeps inner (killed csr) r inside)
      | inr behind ↦ elim (IsIn-append r (run rest csr).0 (run next after).0 behind) [
        | inl in_rest ↦ run-Keeps rest csr r in_rest
        | inr later ↦
            Keeps-SameControls after csr r (run-SameControls rest csr)
              (run-Keeps next after r later)
      ]
    ]
run-Keeps (scope inner false rest next) csr r held =
    let after = (run inner (killed csr)).1 in
    elim (IsIn-append r (run inner (killed csr)).0 _ held) [
      | inl inside ↦ killed-Keeps csr r (run-Keeps inner (killed csr) r inside)
      | inr behind ↦ elim (IsIn-append r (run rest after).0 (run next csr).0 behind) [
        | inl in_rest ↦ killed-Keeps csr r (
            Keeps-SameControls after (killed csr) r (run-SameControls inner (killed csr))
              (run-Keeps rest after r in_rest))
        | inr later ↦ run-Keeps next csr r later
      ]
    ]

flags_on : (b : Bool) → ((b || true || false) ≡ true) × ((b || false || true) ≡ true)
flags_on true = (refl, refl)
flags_on false = (refl, refl)

-- A register with the bits 15 and 6 set, and the other controls of another
abbrev pub IsKilled : Register → Register → Type 0
IsKilled csr r = (r 15 ≡ true) × (r 6 ≡ true) × ((i : ℕ) → 6 ≤ i → i ≢ 15 → i ≢ 6 → r i ≡ csr i)

Keeps-IsKilled : (csr r : Register) → Keeps (killed csr) r → IsKilled csr r
unfolding killed
Keeps-IsKilled csr r keeps = (
  (keeps 15 (omega arith)).0 ((flags_on (csr 15)).0),
  (keeps 6 (omega arith)).0 ((flags_on (csr 6)).1),
  λ i above. (killed-Keeps csr r keeps i above).1,
)

-- The computations in a scope, at any depth of further scopes, run under the bits 15 and 6 with the other
-- controls as they were, up to the call of `restore`, if there is one, and if not up to the end of the scope;
-- behind that call the computations run under the controls as they were, but for scopes among them. The code
-- around leaves the controls as they were. The flags of exceptions that are raised up to the restoring are
-- dropped, and those raised behind it are kept: the destructor restores no second time.
pub scope_lem :
    (inner : Code) (early : Bool) (rest next : Code) (csr : Register)
    → let after = (run inner (killed csr)).1 in
      ((r : Register) → IsIn r (run inner (enter csr).1).0 → IsKilled csr r)
      × ((r : Register) → early ≡ false → IsIn r (run rest after).0 → IsKilled csr r)
      × ((r : Register) → early ≡ true → IsIn r (run rest csr).0 → Keeps csr r)
      × SameControls (run (scope inner early rest next) csr).1 csr
      × (early ≡ false
          → run (scope inner early rest next) csr ≡ (
            (run inner (enter csr).1).0 ++ ((run rest after).0 ++ (run next csr).0),
            (run next csr).1,
          ))
      × (early ≡ true
          → run (scope inner early rest next) csr ≡ (
            (run inner (enter csr).1).0 ++ ((run rest csr).0 ++ (run next (run rest csr).1).0),
            (run next (run rest csr).1).1,
          ))
unfolding enter run restore leave
scope_lem inner early rest next csr =
    let after = (run inner (killed csr)).1 in
    (
      λ r inside. Keeps-IsKilled csr r (run-Keeps inner (killed csr) r inside),
      λ r e inside. Keeps-IsKilled csr r (
          Keeps-SameControls after (killed csr) r (run-SameControls inner (killed csr))
            (run-Keeps rest after r inside)),
      λ r e inside. run-Keeps rest csr r inside,
      run-SameControls (scope inner early rest next) csr,
      λ e. rw e refl,
      λ e. rw e refl,
    )

-- When the outer one of two objects restores the register before the inner one is destroyed, the bits stay
-- set after both are gone.
restore-leave :
    (csr : Register)
    → let (outer, on) = enter csr in
      let (inner, still_on) = enter on in
      let (outer', off) = restore outer still_on in
      (off ≡ csr) × (leave outer' (leave inner off) ≡ killed csr)
unfolding enter restore leave
restore-leave csr = (refl, refl)
