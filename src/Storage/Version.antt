-- ===== src/Storage/Version.antt =====
-- src/storage/version.rs: the versions of each file, the newest first, and their manager. Names and
-- identifiers are byte strings.
pub mod Manager
pub mod Restore
pub mod Pruning
mod Tests
use ll_vpn.Common.{
  ℕ, ◌+◌, ◌-◌, ite, Bool, true, false, List, [], ◌∷◌, Option, none, some, leb, if◌then◌else◌,
  length, take, Bytes,
}
use ll_vpn.Common.HashMap
use ll_vpn.Common.HashMap.{HashMap, keys}
use ll_vpn.Common.Sorting.{bytes_leb, sort_by}
use ll_vpn.NodeId.{bytes_eq, Bytes-discrete}
use ll_vpn.Storage.Chunk.{FileManifest}

abbrev pub default_max_versions : ℕ
default_max_versions = 10

-- `struct VersionEntry`
pub record VersionEntry : Type 0 where
  pub version_id : Bytes
  pub timestamp : Bytes
  pub unix_secs : ℕ
  pub seq : ℕ
  pub manifest : FileManifest
  pub annotation : Bytes

-- `struct FileVersions`
pub record FileVersions : Type 0 where
  pub file_name : Bytes
  pub versions : List VersionEntry

unfoldable pub new_file : Bytes → FileVersions
new_file name = record { file_name = name; versions = [] }

unfoldable pub push : VersionEntry → FileVersions → FileVersions
push entry f = record f { versions = entry ∷ f.versions }

unfoldable pub is_empty : FileVersions → Bool
is_empty f = elim f.versions [ [] ↦ true | _ ∷ _ ↦ false ]

unfoldable pub first : List VersionEntry → Option VersionEntry
first [] = none
first (v ∷ vs) = some v

unfoldable pub latest : FileVersions → Option VersionEntry
unfolding first
latest f = first f.versions

-- `iter().find(|v| v.version_id == version_id)`
unfoldable pub find_id : Bytes → List VersionEntry → Option VersionEntry
find_id id [] = none
find_id id (v ∷ vs) = ite (Bytes-discrete v.version_id id) (some v) (find_id id vs)

unfoldable pub get : Bytes → FileVersions → Option VersionEntry
unfolding find_id
get id f = find_id id f.versions

-- What is left, and how many versions went.
unfoldable pub prune : ℕ → FileVersions → FileVersions × ℕ
prune max_versions f =
    if leb (length f.versions) max_versions
    then (f, 0)
    else (record f { versions = take max_versions f.versions }, length f.versions - max_versions)

-- `struct VersionStore`
pub record VersionStore : Type 0 where
  pub files : HashMap Bytes FileVersions

unfoldable pub new_store : VersionStore
new_store = record { files = [] }

-- `get_or_create_mut`, with what is done to the file.
unfoldable pub with_file : Bytes → (FileVersions → FileVersions) → VersionStore → VersionStore
unfolding new_file
with_file name f s = record s {
  files = elim (HashMap.get name s.files) [
    | none ↦ HashMap.insert name (f (new_file name)) s.files
    | some fv ↦ HashMap.insert name (f fv) s.files
  ];
}

unfoldable pub list_files : VersionStore → List Bytes
list_files s = sort_by bytes_leb (keys s.files)

unfoldable pub count_versions : HashMap Bytes FileVersions → ℕ
count_versions [] = 0
count_versions ((k, f) ∷ m) = length f.versions + count_versions m

unfoldable pub total_versions : VersionStore → ℕ
unfolding count_versions
total_versions s = count_versions s.files

-- The loop of `prune_all` over the files.
unfoldable pub prune_each : ℕ → HashMap Bytes FileVersions → HashMap Bytes FileVersions × ℕ
unfolding prune
prune_each n [] = ([], 0)
prune_each n ((k, f) ∷ m) =
    let rest = prune_each n m in ((k, (prune n f).0) ∷ rest.0, (prune n f).1 + rest.1)

unfoldable pub prune_all : ℕ → VersionStore → VersionStore × ℕ
unfolding prune_each
prune_all n s = (record s { files = (prune_each n s.files).0 }, (prune_each n s.files).1)
