-- ===== src/Collections/DiskSyncMap/Refinement.antt =====
-- The map of pkg/disksyncmap/disksyncmap.go against a map in memory.
use basiccoin.Base.{
  ℕ, ◌≡◌, refl, ap, sym, ◌∙◌, Bool, true, false, Option, none, some, List, [], ◌∷◌, ◌++◌, arith,
  inl, inr, ◌⊎◌, Bool-cases, Option-cases, All, if◌then◌else◌,
}
use basiccoin.Base.Eq.{Eq, text_eq, beq_refl, beq_ne}
use basiccoin.Base.Result.{Result, ok, err, no_file, ◌>>=◌, ◌>>◌, assert, expect}
use basiccoin.Collections.Map as Map
use basiccoin.Collections.DiskSyncMap.{
  Texts, DiskSyncMap, saved, new_disk_sync_map, key_path, load_file, try_load_key_from_disk, has,
  get, save_file, store, restart, Use, storing, asking, getting, restarting, there, value, use_disk,
  run_disk, use_map, run_map,
}

module _ {K V : Type 0} ⦃e : Eq K⦄ (texts : Texts K V) where
  -- The keys have texts of their own.
  pub record IsLawful : Type 0 where
    pub distinct : (j k : K) → texts.key_string j ≡ texts.key_string k → j ≡ k

  -- Every value that a use stores can be read back from its text.
  abbrev pub IsReadable : Use K V → Type 0
  IsReadable (storing key v) = texts.parse (texts.value_string v) ≡ ok v
  IsReadable (asking key) = Unit {0}
  IsReadable (getting key) = Unit {0}
  IsReadable restarting = Unit {0}

  -- What is loaded of an entry, or of none.
  stored : Option V → Result V
  stored none = err no_file
  stored (some v) = ok v

  -- The files hold the map, and what is loaded is an entry of it.
  record Agrees (d : DiskSyncMap K V) (m : Map.Map K V) : Type 0 where
    on_disk :
        (k : K) → load_file texts (key_path texts d.base_path k) d.files ≡ stored (Map.lookup k m)
    loaded : (k : K) → (Map.lookup k d.m ≡ none) ⊎ (Map.lookup k d.m ≡ Map.lookup k m)

  cancel : (base : List ℕ) (a b : List ℕ) → base ++ a ≡ base ++ b → a ≡ b
  cancel [] a b h = h
  cancel (c ∷ base) a b h = cancel base a b (cc)

  key_path_beq :
      IsLawful
      → (base : List ℕ) (k j : K)
      → text_eq.beq (key_path texts base k) (key_path texts base j) ≡ e.beq k j
  unfolding key_path
  key_path_beq lawful base k j = elim (Bool-cases (e.beq k j)) [
    | inl same ↦ rw ((e.beq_iff k j).0 same, beq_refl j) (beq_refl (key_path texts base j))
    | inr other ↦ rw other (beq_ne _ _ (λ h. absurd (apart h other)))
  ]
    where
      apart : key_path texts base k ≡ key_path texts base j → e.beq k j ≡ false → ⊥
      apart h other =
          let tails : b'/' ∷ texts.key_string k ≡ b'/' ∷ texts.key_string j = cancel base _ _ h in
          let same : k ≡ j = lawful.distinct k j (cc) in
          let equal : e.beq k j ≡ true = (e.beq_iff k j).1 same in absurd (cc)

  load-save :
      IsLawful
      → (base : List ℕ) (k j : K) (text : List ℕ) (files : Map.Map (List ℕ) (Option (List ℕ)))
      → load_file texts
          (key_path texts base j)
          (Map.insert (key_path texts base k) (some text) files)
        ≡ (if e.beq k j then texts.parse text else load_file texts (key_path texts base j) files)
  unfolding load_file
  load-save lawful base k j text files =
      let found =
        Map.lookup-insert (key_path texts base k) (key_path texts base j) (some text) files in
      let same = key_path_beq lawful base k j in
      elim (Bool-cases (e.beq k j)) [
        | inl here ↦ rw (load_file, found, same, here) refl
        | inr other ↦ rw (load_file, found, same, other) refl
      ]

  -- Loading a key changes no answer, and finds what the map has.
  record Loads (k : K) (d : DiskSyncMap K V) (found : Result Bool) (m : Map.Map K V) : Type 0 where
    agrees : Agrees d m
    answer : found ≡ ok (Map.has k m)
    entry : Map.lookup k d.m ≡ Map.lookup k m

  try_load-Loads :
      (k : K) (d : DiskSyncMap K V) (m : Map.Map K V)
      → Agrees d m
      → Loads k (try_load_key_from_disk texts k d).0 (try_load_key_from_disk texts k d).1 m
  unfolding try_load_key_from_disk Map.has stored
  try_load-Loads k d m h = elim (Option-cases (Map.lookup k d.m)) [
    | inr (v, cached) ↦
        let entry : Map.lookup k d.m ≡ Map.lookup k m = cached_entry v cached (h.loaded k) in
        rw (cached, try_load_key_from_disk)
          (record { agrees = h; answer = rw (sym entry ∙ cached) refl; entry = entry })
    | inl absent ↦ elim (Option-cases (Map.lookup k m)) [
      | inl missing ↦
          let nothing_there = h.on_disk k ∙ ap stored missing in
          rw (absent, nothing_there, try_load_key_from_disk)
            (record { agrees = h; answer = rw missing refl; entry = absent ∙ sym missing })
      | inr (v, entry) ↦
          let found = h.on_disk k ∙ ap stored entry in
          rw (absent, found, try_load_key_from_disk)
            (record {
              agrees = record {
                on_disk = h.on_disk;
                loaded = λ j.
                    ground (arith, h.loaded j, Map.lookup-insert k j v d.m, e.beq_iff k j, entry);
              };
              answer = rw entry refl;
              entry = ground (arith, Map.lookup-insert k k v d.m, e.beq_iff k k, entry);
            })
    ]
  ]
    where
      cached_entry :
          (v : V)
          → Map.lookup k d.m ≡ some v
          → (Map.lookup k d.m ≡ none) ⊎ (Map.lookup k d.m ≡ Map.lookup k m)
          → Map.lookup k d.m ≡ Map.lookup k m
      cached_entry v cached (inl absent) = absurd cc
      cached_entry v cached (inr same) = same

  save-Agrees :
      IsLawful
      → (k : K) (v : V) (d : DiskSyncMap K V) (m : Map.Map K V)
      → texts.parse (texts.value_string v) ≡ ok v
      → Agrees d m
      → Agrees (store texts k v saved d) (Map.insert k v m)
  unfolding store save_file stored
  save-Agrees lawful k v d m readable h = record {
    on_disk = λ j.
        load-save lawful d.base_path k j (texts.value_string v) d.files
        ∙ elim (Bool-cases (e.beq k j)) [
          | inl here ↦ rw (Map.lookup-insert k j v m, here) readable
          | inr other ↦ rw (Map.lookup-insert k j v m, other) (h.on_disk j)
        ];
    loaded =
        λ j. ground (arith, h.loaded j, Map.lookup-insert k j v m, Map.lookup-insert k j v d.m);
  }

  -- `Has` looks into the map first, which `tryLoadKeyFromDisk` does again.
  has-try_load : (k : K) (d : DiskSyncMap K V) → has texts k d ≡ try_load_key_from_disk texts k d
  unfolding has try_load_key_from_disk Map.has
  has-try_load k d = elim (Option-cases (Map.lookup k d.m)) [
    | inl absent ↦ rw absent refl
    | inr (v, cached) ↦ rw (cached, try_load_key_from_disk) refl
  ]

  get_answer :
      (k : K) (d : DiskSyncMap K V) (m : Map.Map K V) (found : Result Bool)
      → Loads k d found m
      → (found >>= λ exists. assert exists >> Map.get k d.m) ≡ Map.get k m
  unfolding Map.has
  get_answer k d m found h = rw (h.answer, h.entry) (cases (Map.lookup k m))
    where
      cases : (o : Option V) → (assert (Map.is_some o) >> expect o) ≡ expect o
      cases none = refl
      cases (some v) = refl

  -- One use: the same answer, and the files hold the new map.
  use_lem :
      IsLawful
      → (u : Use K V) (d : DiskSyncMap K V) (m : Map.Map K V) → IsReadable u
      → Agrees d m
      → ((use_disk texts u d).1 ≡ (use_map u m).1) × Agrees (use_disk texts u d).0 (use_map u m).0
  unfolding use_disk use_map get restart new_disk_sync_map Map.lookup stored
  use_lem lawful (storing k v) d m readable h = (refl, save-Agrees lawful k v d m readable h)
  use_lem lawful (asking k) d m readable h =
      let loads = try_load-Loads k d m h in
      rw (has-try_load k d) (ap there loads.answer, loads.agrees)
  use_lem lawful (getting k) d m readable h =
      let loads = try_load-Loads k d m h in
      (ap value (get_answer k (try_load_key_from_disk texts k d).0 m _ loads), loads.agrees)
  use_lem lawful restarting d m readable h =
      (refl, record { on_disk = h.on_disk; loaded = λ k. inl refl })

  runs_agree :
      IsLawful
      → (uses : List (Use K V)) (d : DiskSyncMap K V) (m : Map.Map K V) → All IsReadable uses
      → Agrees d m
      → run_disk texts uses d ≡ run_map uses m
  unfolding run_disk run_map
  runs_agree lawful [] d m readable h = refl
  runs_agree lawful (u ∷ uses) d m (first, rest) h =
      let (same, after) = use_lem lawful u d m first h in
      let others = runs_agree lawful uses (use_disk texts u d).0 (use_map u m).0 rest after in
      λ i. same i ∷ others i

  -- A map on disk that starts without files gives the same answers as a map in memory to any
  -- sequence of stores, tests, reads and restarts of the program, when every write succeeds,
  -- distinct keys have distinct texts and every stored value can be read back from its text.
  pub run_disk-run_map :
      (base_path : List ℕ) (uses : List (Use K V))
      → IsLawful
      → All IsReadable uses
      → run_disk texts uses (new_disk_sync_map texts base_path []) ≡ run_map uses []
  unfolding new_disk_sync_map load_file Map.lookup stored
  run_disk-run_map base_path uses lawful readable =
      runs_agree lawful uses (new_disk_sync_map texts base_path []) [] readable
        (record { on_disk = λ k. refl; loaded = λ k. inl refl })
