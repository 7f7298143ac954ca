-- ===== src/Updater/Folder.antt =====
-- Folders of regular files on Linux, where names are told apart by their code units, and the two copies of copyTree, isPreservedRelativePath and removeRecursively in
-- src/updater/runner/PortableUpdateApplier.cpp and UpdateRollback.cpp.
pub mod Lookup
pub mod Preserved
use zarya.Prelude.{
  ℕ, Bool, true, false, not, ◌&&◌, ◌||◌, List, [], ◌∷◌, ◌++◌, map, select, any, Option, none, some,
  Text, codes, text_eq, starts_with, contains_text, ◌==◌, if◌then◌else◌,
}

-- A file by its path below the folder, with slashes.
pub record File : Type 0 where
  pub path : Text
  pub content : Text

-- The files of a folder and of the folders in it, in the order in which Qt walks them; where two
-- have one path, the later one is meant. Folders without files are not kept.
abbrev pub Folder : Type 0
Folder = List File

unfoldable pub lookup : Folder → Text → Option Text
unfolding text_eq
lookup [] path = none
lookup (file ∷ folder) path = elim (lookup folder path) [
  | some content ↦ some content
  | none ↦ if text_eq file.path path then some file.content else none
]

-- A file that is written takes the place of the one that was there.
abbrev pub put : Text → Text → Folder → Folder
put path content folder = folder ++ record { path = path; content = content } ∷ []

unfoldable pub remove_path : Text → Folder → Folder
unfolding select text_eq
remove_path path folder = select (λ file. not (text_eq file.path path)) folder

-- The entry of the folder that a file is in or is.
unfoldable pub top : Text → Text
top [] = []
top (c ∷ path) = let rest = top path in if c == b'/' then [] else c ∷ rest

-- The path of a file below its entry, if the entry is a folder.
unfoldable pub below : Text → Option Text
below [] = none
below (c ∷ path) = let rest = below path in if c == b'/' then some path else rest

unfoldable pub is_kept_by : Text → Text → Bool
unfolding text_eq starts_with
is_kept_by path preserve = text_eq path preserve || starts_with path (preserve ++ b'/' ∷ [])

-- The loop of isPreservedRelativePath.
unfoldable pub is_kept : List Text → Text → Bool
unfolding is_kept_by
is_kept [] path = false
is_kept (preserve ∷ preserves) path = is_kept_by path preserve || is_kept preserves path

-- QDir::fromNativeSeparators changes nothing on Linux.
unfoldable pub is_preserved : List Text → Text → Bool
unfolding is_kept
is_preserved preserves path = is_kept preserves path

-- QDir and QDirIterator without QDir::Hidden leave out what has a name that starts with a dot, and
-- do not go into a folder of such a name.
unfoldable pub is_hidden : Text → Bool
unfolding starts_with contains_text
is_hidden path = starts_with path (codes ".") || contains_text path (codes "/.")

-- What the loops over a folder pass over.
unfoldable pub is_spared : List Text → Text → Bool
unfolding is_preserved is_hidden
is_spared preserves path = is_preserved preserves path || is_hidden path

-- copyTree: `fails` says at which paths QFile::copy fails. It gives up at the first of those, where
-- the old file has been removed, and otherwise ends with `none`.
unfoldable pub copy_tree : (Text → Bool) → (Text → Bool) → Folder → Folder → Folder × Option Text
unfolding remove_path
copy_tree skips fails [] destination = (destination, none)
copy_tree skips fails (file ∷ source) destination =
    let skip = copy_tree skips fails source destination in
    let next = copy_tree skips fails source (put file.path file.content destination) in
    if skips file.path
    then skip
    else if fails file.path
    then (remove_path file.path destination, some file.path)
    else next

-- removeRecursively at an entry: `stuck` says which files cannot be removed; the others are.
unfoldable pub remove_entry : (Text → Bool) → Text → Folder → Folder
unfolding select top text_eq
remove_entry stuck entry folder =
    select (λ file. not (text_eq (top file.path) entry) || stuck file.path) folder

-- Its result: whether nothing is left of the entry.
unfoldable pub has_entry : Text → Folder → Bool
unfolding any top text_eq
has_entry entry folder = any (λ file. text_eq (top file.path) entry) folder

-- The loop over the entries of removeAppFilesExceptPreserved and of rollback, with the entry at
-- which it gives up. An entry comes once for each of its files; when it comes again it is gone.
unfoldable pub remove_entries :
    (Text → Bool) → (Text → Bool) → List Text → Folder → Folder × Option Text
unfolding remove_entry has_entry
remove_entries skips stuck [] folder = (folder, none)
remove_entries skips stuck (entry ∷ entries) folder =
    let left = remove_entry stuck entry folder in
    let skip = remove_entries skips stuck entries folder in
    let next = remove_entries skips stuck entries left in
    if skips entry then skip else if has_entry entry left then (left, some entry) else next

unfoldable pub remove_app_files : (Text → Bool) → (Text → Bool) → Folder → Folder × Option Text
unfolding remove_entries top
remove_app_files skips stuck folder =
    remove_entries skips stuck (map (λ file. top file.path) folder) folder
