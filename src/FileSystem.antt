-- ===== src/FileSystem.antt =====
-- include/fbu/filesystem_utils.hpp, with the results of include/fbu/possible_error.hpp: directories and
-- file names. What `opendir` and `readdir` give for a path is a parameter: the value of `errno`, or the
-- names in the order in which they are read. A text is the list of its codes.
pub mod Directories
pub mod Contents
pub mod Names
mod Tests
use fbutils.Prelude.{
  ℕ, Bool, true, false, not, ◌&&◌, ◌||◌, ◌==◌, ltb, leb, List, [], ◌∷◌, ◌++◌, length, if◌then◌else◌,
}
use fbutils.StringUtils.{begins_with, ends_with, equals}

-- `PossibleError`: `mValue` where `mHasError` is false, and `mError` where it is true.
pub data PossibleError {ℓ} (T : Type ℓ) : Type ℓ where
  value : T → PossibleError T
  error : ℕ → PossibleError T

unfoldable pub has_error {ℓ} : {T : Type ℓ} → PossibleError T → Bool
has_error (value v) = false
has_error (error e) = true

abbrev pub Text : Type 0
Text = List ℕ

-- `separator`, of a build that is not for Windows
abbrev pub separator : Text
separator = 47 ∷ []

abbrev pub enoent : ℕ
enoent = 2

-- The loop of `listDir` with an ending
unfoldable pub list_loop : Text → List Text → List Text
list_loop ending [] = []
list_loop ending (entry ∷ entries) =
    let rest = list_loop ending entries in if ends_with entry ending then entry ∷ rest else rest

abbrev pub is_empty : Text → Bool
is_empty [] = true
is_empty (c ∷ s) = false

unfoldable pub list_dir :
    (Text → PossibleError (List Text)) → Text → Text → PossibleError (List Text)
unfolding list_loop
list_dir entries_of path ending = elim (entries_of path) [
  | error e ↦ error e
  | value entries ↦ value (if is_empty ending then entries else list_loop ending entries)
]

-- The loop of `pathForFileWithRootInDir`
unfoldable pub path_loop : Text → Text → List Text → PossibleError Text
path_loop dir root [] = error enoent
path_loop dir root (entry ∷ entries) =
    let rest = path_loop dir root entries in
    if begins_with entry root then value (dir ++ separator ++ entry) else rest

unfoldable pub path_for_file : (Text → PossibleError (List Text)) → Text → Text → PossibleError Text
unfolding list_dir path_loop
path_for_file entries_of dir root = elim (list_dir entries_of dir []) [
  | error e ↦ error e
  | value entries ↦ path_loop dir root entries
]

-- `[a-zA-Z0-9._]`
unfoldable pub is_head : ℕ → Bool
is_head c =
    (leb 97 c && leb c 122)
    || ((leb 65 c && leb c 90) || ((leb 48 c && leb c 57) || ((c == 46) || (c == 95))))

-- `[a-zA-Z0-9._\-]`
unfoldable pub is_tail : ℕ → Bool
unfolding is_head
is_tail c = is_head c || (c == 45)

-- `[a-zA-Z0-9._\-\ ]`
unfoldable pub is_relaxed_tail : ℕ → Bool
unfolding is_tail
is_relaxed_tail c = is_tail c || (c == 32)

-- A repeated class of a regular expression, up to the end of the text
unfoldable pub all_in : (ℕ → Bool) → Text → Bool
all_in p [] = true
all_in p (c ∷ s) = p c && all_in p s

-- `std::regex_match` with a class and then a repeated class
unfoldable pub matches : (ℕ → Bool) → (ℕ → Bool) → Text → Bool
unfolding all_in
matches first rest [] = false
matches first rest (c ∷ s) = first c && all_in rest s

-- The two functions on names, for a limit and a class
unfoldable pub is_name : ℕ → (ℕ → Bool) → Text → Bool
unfolding matches is_head
is_name limit tail name =
    if equals name (46 ∷ []) || (equals name (46 ∷ 46 ∷ []) || ltb limit (length name))
    then false
    else matches is_head tail name

-- `isPOSIXFullyPortableFileName`
unfoldable pub is_portable : Text → Bool
unfolding is_name is_tail
is_portable name = is_name 14 is_tail name

-- `isPOSIXFullyPortableFileNameRelaxed`
unfoldable pub is_portable_relaxed : Text → Bool
unfolding is_name is_relaxed_tail
is_portable_relaxed name = is_name 254 is_relaxed_tail name
