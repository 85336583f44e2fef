-- ===== src/FileSystem/Contents.antt =====
-- `setFileContents`, `getFileContents` and `fileIsReadable`, over the state of the files. The streams are
-- parameters: each call on one gives the stream that it leaves, and the files.
use fbutils.Prelude.{ℕ, Bool, true, false, not, if◌then◌else◌}
use fbutils.FileSystem.{PossibleError, value, error, Text}

-- The calls of `std::ofstream` and `std::ifstream`, for a stream `S` and files `W`
pub record Streams (W S : Type 0) : Type 0 where
  pub open_trunc : W → Text → S × W
  pub open_to_read : W → Text → S × W
  pub is_open : S → Bool
  pub good : S → Bool
  pub errno : W → ℕ
  pub write : S → Text → W → S × W  -- `<<`
  pub read : S → W → Text × W  -- from one `istreambuf_iterator` to the other
  pub close : S → W → W  -- `close`, and the destructor of a stream that is open

module _ {W S : Type 0} (f : Streams W S) where
  -- The result, and what the files are afterwards
  unfoldable pub set_file_contents : Text → Text → W → Bool × W
  set_file_contents path contents w =
      let (file, opened) = f.open_trunc w path in
      let (behind, written) = f.write file contents opened in
      if not (f.is_open file) then (false, opened) else (true, f.close behind written)

  unfoldable pub get_file_contents : Text → W → PossibleError Text × W
  get_file_contents path w =
      let (file, opened) = f.open_to_read w path in
      let (contents, at_end) = f.read file opened in
      if not (f.is_open file)
      then (error (f.errno opened), opened)
      else (value contents, f.close file at_end)

  unfoldable pub file_is_readable : Text → W → Bool × W
  file_is_readable path w =
      let (file, opened) = f.open_to_read w path in (f.good file, f.close file opened)
