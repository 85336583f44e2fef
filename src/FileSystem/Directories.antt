-- ===== src/FileSystem/Directories.antt =====
-- `listDir` and `pathForFileWithRootInDir`.
use fbutils.Prelude.{
  ℕ, zero, suc, ◌<◌, ◌≡◌, refl, sym, ◌∙◌, ap, true, false, Bool-cases, ◌⊎◌, inl, inr, List, [], ◌∷◌,
  ◌++◌, arith, get_elem?, IsIn, IsIn-cons, some, none, Option,
}
use fbutils.StringUtils.{begins_with, ends_with}
use fbutils.FileSystem.{
  PossibleError, value, error, Text, separator, enoent, list_loop, list_dir, path_loop,
  path_for_file,
}

-- What an index search among the entries finds: the first whose name begins with `root`, or `ENOENT`.
abbrev pub Found : Text → Text → List Text → PossibleError Text → Type 0
Found dir root entries result =
    ((i : ℕ) × (entry : Text) × (get_elem? entries i ≡ some entry)
      × (begins_with entry root ≡ true)
      × ((j : ℕ) (other : Text)
          → j < i
          → get_elem? entries j ≡ some other
          → begins_with other root ≡ false)
      × (result ≡ value (dir ++ separator ++ entry)))
    ⊎ (((j : ℕ) (other : Text) → get_elem? entries j ≡ some other → begins_with other root ≡ false)
        × (result ≡ error enoent))

some_head : {a b : Text} → Option.some a ≡ some b → a ≡ b
some_head {a} e = ap (λ o. elim o [ none ↦ a | some z ↦ z ]) e

at_all :
    (root entry : Text) (entries : List Text)
    → begins_with entry root ≡ false
    → ((j : ℕ) (other : Text) → get_elem? entries j ≡ some other → begins_with other root ≡ false)
    → (j : ℕ) (other : Text) → get_elem? (entry ∷ entries) j ≡ some other
    → begins_with other root ≡ false
at_all root entry entries p nobody zero other held =
    ap (λ z. begins_with z root) (sym (some_head held)) ∙ p
at_all root entry entries p nobody (suc j) other held = nobody j other held

up_to :
    (root entry : Text) (entries : List Text) (i : ℕ)
    → begins_with entry root ≡ false
    → ((j : ℕ) (other : Text)
        → j < i
        → get_elem? entries j ≡ some other
        → begins_with other root ≡ false)
    → (j : ℕ) (other : Text) → j < suc i
    → get_elem? (entry ∷ entries) j ≡ some other
    → begins_with other root ≡ false
up_to root entry entries i p earlier zero other below held =
    ap (λ z. begins_with z root) (sym (some_head held)) ∙ p
up_to root entry entries i p earlier (suc j) other below held = earlier j other (omega arith) held

path_loop-Found :
    (dir root : Text) (entries : List Text) → Found dir root entries (path_loop dir root entries)
unfolding path_loop
path_loop-Found dir root [] = inr (λ j other held. cc, refl)
path_loop-Found dir root (entry ∷ entries) = elim (Bool-cases (begins_with entry root)) [
  | inl p ↦ inl (0, entry, refl, p, λ j other below. absurd (omega arith), rw p refl)
  | inr p ↦ elim (path_loop-Found dir root entries) [
    | inl (i, found, held, begins, earlier, e) ↦
        inl (suc i, found, held, begins, up_to root entry entries i p earlier, rw p e)
    | inr (nobody, e) ↦ inr (at_all root entry entries p nobody, rw p e)
  ]
]

-- `pathForFileWithRootInDir` gives the error of `listDir` where that has one; if not, the path, in the
-- directory, of the first entry whose name begins with the root, and `ENOENT` where no entry's does.
pub path_for_file_lem :
    (entries_of : Text → PossibleError (List Text)) (dir root : Text)
    → ((e : ℕ) → entries_of dir ≡ error e → path_for_file entries_of dir root ≡ error e)
      × ((entries : List Text)
          → entries_of dir ≡ value entries
          → Found dir root entries (path_for_file entries_of dir root))
unfolding path_for_file list_dir
path_for_file_lem entries_of dir root = (
  λ e failed. rw (failed, path_for_file, list_dir) refl,
  λ entries read. rw (read, path_for_file, list_dir) (path_loop-Found dir root entries),
)

-- An entry of the list that the loop makes is one that was read and has the ending, and the other way
-- round.
Listed : Text → List Text → List Text → Text → Type 0
Listed ending listed entries entry =
    (IsIn entry listed → (IsIn entry entries × (ends_with entry ending ≡ true)))
    × (IsIn entry entries → ends_with entry ending ≡ true → IsIn entry listed)

list_loop-Listed :
    (ending : Text) (entries : List Text) (entry : Text)
    → Listed ending (list_loop ending entries) entries entry
unfolding list_loop Listed
list_loop-Listed ending [] entry = (λ (i, held). cc, λ (i, held) p. cc)
list_loop-Listed ending (x ∷ entries) entry =
    let (here, back) = list_loop-Listed ending entries entry in
    elim (Bool-cases (ends_with x ending)) [
      | inl p ↦ rw p (
        λ m. elim (IsIn-cons entry x (list_loop ending entries) m) [
          | inl e ↦ ((0, ap some e), ap (λ z. ends_with z ending) (sym e) ∙ p)
          | inr n ↦ let ((i, held), q) = here n in ((suc i, held), q)
        ],
        λ m q. elim (IsIn-cons entry x entries m) [
          | inl e ↦ (0, ap some e)
          | inr n ↦ let (i, held) = back n q in (suc i, held)
        ],
      )
      | inr p ↦ rw p (
        λ n. let ((i, held), q) = here n in ((suc i, held), q),
        λ m q. elim (IsIn-cons entry x entries m) [
          | inl e ↦ absurd (ground (arith, ap (λ z. ends_with z ending) e))
          | inr n ↦ back n q
        ],
      )
    ]

-- `listDir` gives the error of `opendir` where that fails, and every entry where no ending is asked for;
-- with an ending it lists a name exactly where that is among the entries and has the ending.
list_dir_lem :
    (entries_of : Text → PossibleError (List Text)) (path : Text)
    → ((e : ℕ) (ending : Text)
        → entries_of path ≡ error e
        → list_dir entries_of path ending ≡ error e)
      × ((entries : List Text)
          → entries_of path ≡ value entries
          → (list_dir entries_of path [] ≡ value entries)
            × ((c : ℕ) (ending : Text)
                → (listed : List Text) × (list_dir entries_of path (c ∷ ending) ≡ value listed)
                  × ((entry : Text)
                      → (IsIn entry listed
                          → (IsIn entry entries × (ends_with entry (c ∷ ending) ≡ true)))
                        × (IsIn entry entries
                            → ends_with entry (c ∷ ending) ≡ true
                            → IsIn entry listed))))
unfolding list_dir Listed
list_dir_lem entries_of path = (
  λ e ending failed. rw (failed, list_dir) refl,
  λ entries read. (
    rw (read, list_dir) refl,
    λ c ending. (
      list_loop (c ∷ ending) entries,
      rw (read, list_dir) refl,
      list_loop-Listed (c ∷ ending) entries,
    ),
  ),
)
