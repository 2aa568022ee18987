-- ===== src/Collections/DiskSyncMap.antt =====
-- pkg/disksyncmap/disksyncmap.go: a map that writes each entry to a file of its own. The file system
-- gives for a path the text of the file, or nothing where there is no file or it cannot be read. A
-- write may fail, and then leaves anything in the file's place.
pub mod Refinement
use basiccoin.Base.{ℕ, Bool, true, false, Option, none, some, List, [], ◌∷◌, ◌++◌, if◌then◌else◌}
use basiccoin.Base.Eq.{Eq, text_eq}
use basiccoin.Base.Result.{Result, ok, err, panic, out_of_fuel, ◌>>=◌, ◌>>◌, assert, no_file}
use basiccoin.Collections.Map as Map

-- `String` of a key, `String` of a value, and the parser of a value.
pub record Texts (K V : Type 0) : Type 0 where
  pub key_string : K → List ℕ
  pub value_string : V → List ℕ
  pub parse : List ℕ → Result V

pub record DiskSyncMap (K V : Type 0) : Type 0 where
  pub m : Map.Map K V
  pub base_path : List ℕ
  pub files : Map.Map (List ℕ) (Option (List ℕ))

-- How a write of a file ends.
pub data Written : Type 0 where
  saved : Written
  write_failed : Option (List ℕ) → Written

module _ {K V : Type 0} ⦃e : Eq K⦄ (texts : Texts K V) where
  unfoldable pub new_disk_sync_map : List ℕ → Map.Map (List ℕ) (Option (List ℕ)) → DiskSyncMap K V
  new_disk_sync_map base_path files = record { m = []; base_path = base_path; files = files }

  unfoldable pub key_path : List ℕ → K → List ℕ
  key_path base_path key = base_path ++ b'/' ∷ texts.key_string key

  abbrev pub contents : Option (Option (List ℕ)) → Option (List ℕ)
  contents none = none
  contents (some file) = file

  -- A file that is not there is an error, and so is a text that is not parsed; a panic of the parser goes on.
  unfoldable pub load_file : List ℕ → Map.Map (List ℕ) (Option (List ℕ)) → Result V
  load_file path files = elim (contents (Map.lookup path files)) [
    | none ↦ err no_file
    | some raw ↦ texts.parse raw
  ]

  abbrev pub keep_loaded : K → DiskSyncMap K V → Result V → DiskSyncMap K V × Result Bool
  keep_loaded key d (ok v) = (record d { m = Map.insert key v d.m }, ok true)
  keep_loaded key d (err why) = (d, ok false)
  keep_loaded key d panic = (d, panic)
  keep_loaded key d out_of_fuel = (d, out_of_fuel)

  -- The map with the key loaded, and whether it is there.
  unfoldable pub try_load_key_from_disk : K → DiskSyncMap K V → DiskSyncMap K V × Result Bool
  try_load_key_from_disk key d = elim (Map.lookup key d.m) [
    | some v ↦ (d, ok true)
    | none ↦ keep_loaded key d (load_file (key_path d.base_path key) d.files)
  ]

  unfoldable pub has : K → DiskSyncMap K V → DiskSyncMap K V × Result Bool
  has key d = if Map.has key d.m then (d, ok true) else try_load_key_from_disk key d

  unfoldable pub get : K → DiskSyncMap K V → DiskSyncMap K V × Result V
  get key d =
      let loaded = try_load_key_from_disk key d in
      (loaded.0, loaded.1 >>= λ exists. assert exists >> Map.get key loaded.0.m)

  unfoldable pub save_file : List ℕ → V → Written → DiskSyncMap K V → DiskSyncMap K V
  save_file path v saved d = record d {
    files = Map.insert path (some (texts.value_string v)) d.files;
  }
  save_file path v (write_failed left) d = record d { files = Map.insert path left d.files }

  -- An error of the write is only printed.
  unfoldable pub store : K → V → Written → DiskSyncMap K V → DiskSyncMap K V
  store key v written d =
      save_file (key_path d.base_path key) v written (record d { m = Map.insert key v d.m })

  -- The program starts again on the same files.
  unfoldable pub restart : DiskSyncMap K V → DiskSyncMap K V
  restart d = new_disk_sync_map d.base_path d.files

-- The uses of a map, and their answers.
pub data Use (K V : Type 0) : Type 0 where
  storing : K → V → Use K V
  asking getting : K → Use K V
  restarting : Use K V

pub data Answer (V : Type 0) : Type 0 where
  nothing : Answer V
  there : Result Bool → Answer V
  value : Result V → Answer V

module _ {K V : Type 0} ⦃e : Eq K⦄ (texts : Texts K V) where
  unfoldable pub use_disk : Use K V → DiskSyncMap K V → DiskSyncMap K V × Answer V
  use_disk (storing key v) d = (store texts key v saved d, nothing)
  use_disk (asking key) d = ((has texts key d).0, there (has texts key d).1)
  use_disk (getting key) d = ((get texts key d).0, value (get texts key d).1)
  use_disk restarting d = (restart texts d, nothing)

  unfoldable pub run_disk : List (Use K V) → DiskSyncMap K V → List (Answer V)
  run_disk [] d = []
  run_disk (u ∷ uses) d = (use_disk u d).1 ∷ run_disk uses (use_disk u d).0

-- The same uses of a map in memory, which a restart does not touch.
module _ {K V : Type 0} ⦃e : Eq K⦄ where
  unfoldable pub use_map : Use K V → Map.Map K V → Map.Map K V × Answer V
  use_map (storing key v) m = (Map.insert key v m, nothing)
  use_map (asking key) m = (m, there (ok (Map.has key m)))
  use_map (getting key) m = (m, value (Map.get key m))
  use_map restarting m = (m, nothing)

  unfoldable pub run_map : List (Use K V) → Map.Map K V → List (Answer V)
  run_map [] m = []
  run_map (u ∷ uses) m = (use_map u m).1 ∷ run_map uses (use_map u m).0
