-- ===== src/Cache/Files.antt =====
-- `tokio::fs` and `std::path`: a path is the list of its components, and the file system an
-- interface with the documented behaviour of the calls that the program makes.
use hakimi_hub.Prelude.{
  is_some, ◌≡◌, refl, ◌≢◌, Bool, true, Option, none, some, List, [], ◌∷◌, arith,
}
use hakimi_hub.Prelude.Str.{Text}
use mathlib.Core.Option
use hakimi_hub.Utils.Containers.{MapOps}
use hakimi_hub.Utils.Containers.Lists.{list_map}

abbrev pub FilePath : Type 0
FilePath = List Text

-- The flag of a call is whether it returned `Ok`. A write that fails may leave anything in its
-- own file; no call changes another file.
pub record FileOps : Type 1 where
  pub Disk : Type 0
  pub read : Disk → FilePath → Option Text
  pub write : Disk → FilePath → Text → Bool × Disk
  pub remove_file : Disk → FilePath → Bool × Disk
  pub create_dir_all : Disk → FilePath → Bool × Disk
  pub read-write :
      (d : Disk) (p : FilePath) (b : Text)
      → (write d p b).0 ≡ true
      → read (write d p b).1 p ≡ some b
  pub read-write_other :
      (d : Disk) (p q : FilePath) (b : Text) → p ≢ q → read (write d p b).1 q ≡ read d q
  pub read-remove :
      (d : Disk) (p : FilePath) → (remove_file d p).0 ≡ true → read (remove_file d p).1 p ≡ none
  pub read-remove_other :
      (d : Disk) (p q : FilePath) → p ≢ q → read (remove_file d p).1 q ≡ read d q
  pub read-create : (d : Disk) (p q : FilePath) → read (create_dir_all d p).1 q ≡ read d q

-- `Path::parent`
abbrev pub parent : FilePath → Option FilePath
parent [] = none
parent (x ∷ []) = some []
parent (x ∷ y ∷ p) = Option.map (λ q. x ∷ q) (parent (y ∷ p))

-- An association list of files: no write fails, and a removal does where there is no file.
module _ (path_dec : Discrete FilePath) where
  abbrev files : MapOps path_dec Text
  files = list_map path_dec

  pub read-remove_list : (d : files.Map) (p : FilePath) → files.get (files.remove d p) p ≡ none
  read-remove_list d p = ground (arith, files.get-remove d p p)

  pub read-remove_list_other :
      (d : files.Map) (p q : FilePath) → p ≢ q → files.get (files.remove d p) q ≡ files.get d q
  read-remove_list_other d p q h = ground (arith, files.get-remove d p q, h)

  pub read-write_list :
      (d : files.Map) (p : FilePath) (b : Text) → files.get (files.insert d p b) p ≡ some b
  read-write_list d p b = ground (arith, files.get-insert d p b p)

  pub read-write_list_other :
      (d : files.Map) (p q : FilePath) (b : Text)
      → p ≢ q
      → files.get (files.insert d p b) q ≡ files.get d q
  read-write_list_other d p q b h = ground (arith, files.get-insert d p b q, h)

  abbrev pub list_files : FileOps
  list_files = record {
    Disk = files.Map;
    read = files.get;
    write = λ d p b. (true, files.insert d p b);
    remove_file = λ d p. (is_some (files.get d p), files.remove d p);
    create_dir_all = λ d p. (true, d);
    read-write = λ d p b e. read-write_list d p b;
    read-write_other = read-write_list_other;
    read-remove = λ d p e. read-remove_list d p;
    read-remove_other = read-remove_list_other;
    read-create = λ d p q. refl;
  }
