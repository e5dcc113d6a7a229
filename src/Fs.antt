-- ===== src/Fs.antt =====
-- `std::fs` and `std::path` as the program uses them: paths, and the file system as an interface
-- whose state is unknown.
use vorto.Prelude.{◌≡◌, ◌≢◌, Bool, true, false, Option, none, some, [], ◌++◌, ◌∷◌}
use vorto.Text.{Text}
use vorto.Result.{AppResult, ok}

-- A path is its parent and its last component, if that is a name.
pub record FilePath : Type 0 where
  pub parent : Text
  pub file_name : Option Text

-- `Path::join` and `Path::with_file_name` at a name.
abbrev pub with_file_name : FilePath → Text → FilePath
with_file_name p name = record p { file_name = some name }

-- `Path::display`.
unfoldable pub display : FilePath → Text
display p = p.parent ++ elim p.file_name [ none ↦ [] | some name ↦ b'/' ∷ name ]

pub record Fs : Type 1 where
  pub State : Type 0
  pub exists : State → FilePath → Bool
  pub read_to_string : State → FilePath → AppResult Text
  pub write : State → FilePath → Text → AppResult (Unit {0}) × State
  pub rename : State → FilePath → FilePath → AppResult (Unit {0}) × State
  pub remove_file : State → FilePath → AppResult (Unit {0}) × State

-- Two states agree at a path.
pub record SameAt (F : Fs) (p : FilePath) (s t : F.State) : Type 0 where
  pub exists : F.exists s p ≡ F.exists t p
  pub content : F.read_to_string s p ≡ F.read_to_string t p

-- What `write` and `rename` document: a write touches one path and stores the text if it succeeds,
-- `rename` replaces its target at once or changes nothing, and `remove_file` touches one path, which is free after a success.
pub record IsLawful (F : Fs) : Type 0 where
  pub write_elsewhere :
      (s : F.State) (p q : FilePath) (t : Text) → p ≢ q → SameAt F q (F.write s p t).1 s
  pub write_here :
      (s : F.State) (p : FilePath) (t : Text)
      → (F.write s p t).0 ≡ ok tt
      → (F.exists (F.write s p t).1 p ≡ true) × (F.read_to_string (F.write s p t).1 p ≡ ok t)
  pub rename_here :
      (s : F.State) (p q : FilePath)
      → (F.rename s p q).0 ≡ ok tt
      → (F.exists (F.rename s p q).1 q ≡ F.exists s p)
        × (F.read_to_string (F.rename s p q).1 q ≡ F.read_to_string s p)
  pub rename_fails :
      (s : F.State) (p q r : FilePath)
      → (F.rename s p q).0 ≢ ok tt
      → SameAt F r (F.rename s p q).1 s
  pub remove_elsewhere : (s : F.State) (p q : FilePath) → p ≢ q → SameAt F q (F.remove_file s p).1 s
  pub remove_here :
      (s : F.State) (p : FilePath)
      → (F.remove_file s p).0 ≡ ok tt
      → F.exists (F.remove_file s p).1 p ≡ false
