-- ===== src/FileSystem/Tests.antt =====
-- The functions on directories and names at concrete values, and their theorems there.
use fbutils.Prelude.{
  ◌++◌, take, Option, some, none, ℕ, ◌≡◌, refl, true, false, Bool, if◌then◌else◌, ◌↔◌, List, [],
  ◌∷◌,
}
use fbutils.StringUtils.{begins_with, equals}
use fbutils.FileSystem.{
  PossibleError, value, error, Text, path_for_file, is_portable, is_portable_relaxed, is_tail,
  is_relaxed_tail,
}
use fbutils.FileSystem.Directories.{Found, path_for_file_lem}
use fbutils.FileSystem.Contents.{Streams, set_file_contents, get_file_contents, file_is_readable}
use fbutils.FileSystem.Names.{IsName, portable_lem}

-- A directory with the files "a.c" and "b.c".
abbrev a_c : Text
a_c = 97 ∷ 46 ∷ 99 ∷ []

abbrev b_c : Text
b_c = 98 ∷ 46 ∷ 99 ∷ []

abbrev two_files : Text → PossibleError (List Text)
two_files path = value (a_c ∷ b_c ∷ [])

names :
    (path_for_file two_files (100 ∷ []) (98 ∷ []) ≡ value (100 ∷ 47 ∷ b_c))
    × (is_portable a_c ≡ true)
    × (is_portable (45 ∷ 97 ∷ []) ≡ false)
unfolding path_for_file is_portable begins_with equals
names = (refl, refl, refl)

path_for_file_lem_example :
    ((e : ℕ) → two_files a_c ≡ error e → path_for_file two_files a_c (98 ∷ []) ≡ error e)
    × ((entries : List Text)
        → two_files a_c ≡ value entries
        → Found a_c (98 ∷ []) entries (path_for_file two_files a_c (98 ∷ [])))
path_for_file_lem_example = path_for_file_lem two_files a_c (98 ∷ [])

portable_lem_example :
    (is_portable a_c ≡ true ↔ IsName 14 is_tail a_c)
    × (is_portable_relaxed a_c ≡ true ↔ IsName 254 is_relaxed_tail a_c)
    × (is_portable a_c ≡ true → is_portable_relaxed a_c ≡ true)
portable_lem_example = portable_lem a_c

-- Files as a function from their names, with room for two more characters; a stream is its file's name, and
-- whether it is open.
abbrev Disk : Type 0
Disk = Text → Option Text

abbrev put_at : Text → Text → Disk → Disk
put_at path t w q = if equals path q then some t else w q

abbrev text_of : Option Text → Text
text_of none = []
text_of (some t) = t

abbrev there : Option Text → Bool
there none = false
there (some t) = true

abbrev streams : Streams Disk (Text × Bool)
streams = record {
  open_trunc = λ w path. ((path, true), put_at path [] w);
  open_to_read = λ w path. ((path, there (w path)), w);
  is_open = λ s. s.1;
  good = λ s. s.1;
  errno = λ w. 2;
  write = λ s t w. (s, put_at s.0 (text_of (w s.0) ++ take 2 t) w);
  read = λ s w. (text_of (w s.0), w);
  close = λ s w. w;
}

abbrev empty : Disk
empty q = none

-- What there is no room for is lost, and the result is still `true`.
written :
    let (result, left) = set_file_contents streams a_c b_c empty in
    (result ≡ true)
    × ((get_file_contents streams a_c left).0 ≡ value (take 2 b_c))
    × ((file_is_readable streams a_c left).0 ≡ true)
    × ((get_file_contents streams b_c left).0 ≡ error 2)
unfolding set_file_contents get_file_contents file_is_readable equals
written = (refl, refl, refl, refl)
