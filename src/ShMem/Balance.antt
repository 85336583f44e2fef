-- ===== src/ShMem/Balance.antt =====
-- What is taken from the system is given back.
use mathlib.Core.List.{append_assoc, append-nil}
use fbutils.Prelude.{
  ℕ, ◌≡◌, refl, sym, ◌∙◌, ap, arith, Bool, true, false, Option, none, some, List, [], ◌∷◌, ◌++◌,
  if◌then◌else◌, Option-cases, Bool-cases, inl, inr,
}
use fbutils.ShMem.{
  Os, Call, opened, mapped, munmap, close, shm_unlink, ShMem, constructed, map_memory, opening,
  connect, unmap, release, disconnect,
}

abbrev of_opened : Call → Option ℕ
of_opened (opened fd) = some fd
of_opened _ = none

abbrev of_close : Call → Option ℕ
of_close (close fd) = some fd
of_close _ = none

abbrev of_mapped : Call → Option ℕ
of_mapped (mapped p) = some p
of_mapped _ = none

abbrev of_munmap : Call → Option ℕ
of_munmap (munmap p) = some p
of_munmap _ = none

abbrev pub held : Option ℕ → List ℕ
held none = []
held (some n) = n ∷ []

abbrev pub pick : (Call → Option ℕ) → List Call → List ℕ
pick of [] = []
pick of (c ∷ calls) = held (of c) ++ pick of calls

-- The descriptors opened and closed, and the addresses mapped and unmapped, in their order
abbrev pub opens : List Call → List ℕ
opens = pick of_opened

abbrev pub closes : List Call → List ℕ
closes = pick of_close

abbrev pub maps : List Call → List ℕ
maps = pick of_mapped

abbrev pub unmaps : List Call → List ℕ
unmaps = pick of_munmap

pick-append : (of : Call → Option ℕ) (c d : List Call) → pick of (c ++ d) ≡ pick of c ++ pick of d
pick-append of [] d = refl
pick-append of (x ∷ c) d = rw (pick-append of c d, append_assoc (held (of x)))

-- An object in use, with the calls made, the earliest first. `connect` is called only where the object has
-- no descriptor.
pub data Reach : ShMem → List Call → Type 0 where
  start : Reach constructed []
  connects :
      (os : Os) {m : ShMem} {calls : List Call}
      → Reach m calls
      → m.fd ≡ none
      → Reach (connect os m).0 (calls ++ (connect os m).1)
  disconnects :
      (destroy : Bool) {m : ShMem} {calls : List Call}
      → Reach m calls
      → Reach (disconnect destroy m).0 (calls ++ (disconnect destroy m).1)

-- All that was opened and mapped is given back but what the object holds, and it holds no memory without a
-- descriptor.
pub record Balanced (m : ShMem) (calls : List Call) : Type 0 where
  pub descriptors : opens calls ≡ closes calls ++ held m.fd
  pub addresses : maps calls ≡ unmaps calls ++ held m.mem
  pub with_descriptor : m.fd ≡ none → m.mem ≡ none

-- What the calls take is what the object then holds, and they give nothing back.
abbrev Takes : ShMem × List Call → Type 0
Takes (left, calls) =
    (opens calls ≡ held left.fd)
    × (closes calls ≡ [])
    × (maps calls ≡ held left.mem)
    × (unmaps calls ≡ [])
    × (left.fd ≡ none → left.mem ≡ none)

opening-Takes :
    (os : Os) (is_creator : Bool) (fd : ℕ) (m : ShMem)
    → m.mem ≡ none
    → Takes (opening os is_creator fd m)
unfolding opening map_memory
opening-Takes os false fd m h = elim (Option-cases (os.mmap fd)) [
  | inl e ↦ rw e (refl, refl, refl, refl, λ _. refl)
  | inr (p, e) ↦ rw e (refl, refl, refl, refl, λ q. cc)
]
opening-Takes os true fd m h = elim (Bool-cases (os.ftruncate fd)) [
  | inr f ↦ rw f (refl, refl, rw h refl, refl, λ q. cc)
  | inl f ↦ elim (Option-cases (os.mmap fd)) [
    | inl e ↦ rw (f, e) (refl, refl, refl, refl, λ _. refl)
    | inr (p, e) ↦ rw (f, e) (refl, refl, refl, refl, λ q. cc)
  ]
]

connect-Takes : (os : Os) (m : ShMem) → m.mem ≡ none → Takes (connect os m)
unfolding connect
connect-Takes os m h = elim (Option-cases os.shm_open) [
  | inr (fd, e) ↦ rw (e, connect) (opening-Takes os false fd m h)
  | inl e ↦ elim (Option-cases os.shm_create) [
    | inr (fd, f) ↦ rw (e, connect) (rw (f, connect) (opening-Takes os true fd m h))
    | inl f ↦ rw (e, connect) (rw (f, connect) (refl, refl, rw h refl, refl, λ _. h))
  ]
]

disconnect-Balanced :
    (destroy : Bool) (m : ShMem)
    → let calls = (disconnect destroy m).1 in
      (opens calls ≡ [])
      × (closes calls ≡ held m.fd)
      × (maps calls ≡ [])
      × (unmaps calls ≡ held m.mem)
unfolding disconnect unmap release
disconnect-Balanced destroy m = ground arith

extend :
    (p q : Call → Option ℕ) (calls more : List Call) (before after : List ℕ)
    → pick p calls ≡ pick q calls ++ before
    → before ++ pick p more ≡ pick q more ++ after
    → pick p (calls ++ more) ≡ pick q (calls ++ more) ++ after
extend p q calls more before after old new =
    pick-append p calls more
    ∙ ap (λ l. l ++ pick p more) old
    ∙ append_assoc (pick q calls) before (pick p more)
    ∙ ap (λ l. pick q calls ++ l) new
    ∙ sym (append_assoc (pick q calls) (pick q more) after)
    ∙ ap (λ l. l ++ after) (sym (pick-append q calls more))

take_first :
    (p q : Call → Option ℕ) (more : List Call) (before : Option ℕ) (after : List ℕ)
    → before ≡ none
    → pick p more ≡ after
    → pick q more ≡ []
    → held before ++ pick p more ≡ pick q more ++ after
take_first p q more before after free taken given =
    ap (λ o. held o ++ pick p more) free ∙ taken ∙ ap (λ l. l ++ after) (sym given)

Reach-Balanced : {m : ShMem} {calls : List Call} → Reach m calls → Balanced m calls
unfolding disconnect
Reach-Balanced start = record { descriptors = refl; addresses = refl; with_descriptor = λ _. refl }
Reach-Balanced (connects os {m} {calls} r free) =
    let b = Reach-Balanced r in
    let no_mem = b.with_descriptor free in
    let (o, c, p, u, last) = connect-Takes os m no_mem in
    let more = (connect os m).1 in
    let left = (connect os m).0 in
    record {
      descriptors =
          extend of_opened of_close calls more (held m.fd) (held left.fd) b.descriptors
            (take_first of_opened of_close more m.fd (held left.fd) free o c);
      addresses =
          extend of_mapped of_munmap calls more (held m.mem) (held left.mem) b.addresses
            (take_first of_mapped of_munmap more m.mem (held left.mem) no_mem p u);
      with_descriptor = last;
    }
Reach-Balanced (disconnects destroy {m} {calls} r) =
    let b = Reach-Balanced r in
    let (o, c, p, u) = disconnect-Balanced destroy m in
    let more = (disconnect destroy m).1 in
    record {
      descriptors =
          extend of_opened of_close calls more (held m.fd) [] b.descriptors (rw (o, c) refl);
      addresses =
          extend of_mapped of_munmap calls more (held m.mem) [] b.addresses (rw (p, u) refl);
      with_descriptor = λ _. refl;
    }

-- However `connect`, on an object that has no descriptor, and `disconnect` have been called and whatever the
-- system calls returned: the descriptors opened are those closed, in their order, and then the one that the
-- object holds, and the addresses mapped likewise; so behind a `disconnect`, and behind the destructor,
-- all that was opened is closed and all that was mapped is unmapped.
pub balance :
    {m : ShMem} {calls : List Call}
    → Reach m calls
    → (opens calls ≡ closes calls ++ held m.fd)
      × (maps calls ≡ unmaps calls ++ held m.mem)
      × ((destroy : Bool)
          → let all = calls ++ (disconnect destroy m).1 in
            (opens all ≡ closes all) × (maps all ≡ unmaps all))
unfolding disconnect
balance {m} {calls} r =
    let b = Reach-Balanced r in
    (
      b.descriptors,
      b.addresses,
      λ destroy.
          let after = Reach-Balanced (disconnects destroy r) in
          (
            after.descriptors ∙ append-nil (closes (calls ++ (disconnect destroy m).1)),
            after.addresses ∙ append-nil (unmaps (calls ++ (disconnect destroy m).1)),
          ),
    )

-- `connect` on an object that is connected, where the memory can be opened again: the descriptor of before is
-- not closed by it, nor by the `disconnect` that follows, which leaves the object with nothing.
reconnect_leaks :
    (os : Os) (m : ShMem) (destroy : Bool) (old new : ℕ)
    → m.fd ≡ some old
    → os.shm_open ≡ some new
    → let (left, calls) = connect os m in
      let (end, more) = disconnect destroy left in
      (closes (calls ++ more) ≡ new ∷ []) × (end ≡ constructed)
unfolding connect opening map_memory disconnect release unmap
reconnect_leaks os m destroy old new connected again = (
  rw (again, connect)
      (elim (Option-cases (os.mmap new)) [
        | inl e ↦ rw e (closed destroy)
        | inr (p, e) ↦ rw e (closed destroy)
      ]),
  refl,
)
  where
    closed :
        (destroy : Bool) → closes (close new ∷ (if destroy then shm_unlink ∷ [] else [])) ≡ new ∷ []
    closed true = refl
    closed false = refl
