-- ===== src/Updater/Folder/Lookup.antt =====
-- What the files of a folder are after each of its operations.
use zarya.Prelude.{
  ◌≡◌, refl, Bool, true, false, not, ◌&&◌, List, [], ◌∷◌, map, select, any, contains, Option, none,
  some, Text, text_eq, text_eq_iff, if◌then◌else◌, arith,
}
use zarya.Updater.Folder.{
  Folder, lookup, put, remove_path, top, copy_tree, remove_entry, has_entry, remove_entries,
  remove_app_files,
}

-- The first of two that is there.
abbrev pub or_else : Option Text → Option Text → Option Text
or_else (some content) other = some content
or_else none other = other

pub lookup-put :
    (folder : Folder) (path content wanted : Text)
    → lookup (put path content folder) wanted
      ≡ (if text_eq path wanted then some content else lookup folder wanted)
unfolding lookup
lookup-put [] path content wanted = refl
lookup-put (file ∷ folder) path content wanted =
    ground (arith, lookup-put folder path content wanted)

lookup-remove_path :
    (folder : Folder) (path wanted : Text)
    → lookup (remove_path path folder) wanted
      ≡ (if text_eq path wanted then none else lookup folder wanted)
unfolding lookup remove_path select
lookup-remove_path [] path wanted = ground arith
lookup-remove_path (file ∷ folder) path wanted = ground (
  arith,
  text_eq_iff file.path path,
  text_eq_iff file.path wanted,
  text_eq_iff path wanted,
  lookup-remove_path folder path wanted,
)

-- What is copied is read from the source, if it has the file, and all else stays.
pub lookup-copy_tree :
    (skips fails : Text → Bool) (source destination : Folder) (path : Text)
    → (copy_tree skips fails source destination).1 ≡ none
    → lookup (copy_tree skips fails source destination).0 path ≡ (
        if skips path
        then lookup destination path
        else or_else (lookup source path) (lookup destination path))
unfolding copy_tree lookup
lookup-copy_tree skips fails [] destination path h = ground arith
lookup-copy_tree skips fails (file ∷ source) destination path h = ground (
  arith,
  text_eq_iff file.path path,
  lookup-copy_tree skips fails source destination path,
  lookup-copy_tree skips fails source (put file.path file.content destination) path,
  lookup-put destination file.path file.content path,
)

-- Whatever happens, what is skipped stays.
pub lookup-copy_tree_skipped :
    (skips fails : Text → Bool) (source destination : Folder) (path : Text)
    → skips path ≡ true
    → lookup (copy_tree skips fails source destination).0 path ≡ lookup destination path
unfolding copy_tree
lookup-copy_tree_skipped skips fails [] destination path h = refl
lookup-copy_tree_skipped skips fails (file ∷ source) destination path h = ground (
  arith,
  text_eq_iff file.path path,
  lookup-copy_tree_skipped skips fails source destination path,
  lookup-copy_tree_skipped skips fails source (put file.path file.content destination) path,
  lookup-put destination file.path file.content path,
  lookup-remove_path destination file.path path,
)

lookup-remove_entry :
    (stuck : Text → Bool) (entry : Text) (folder : Folder) (path : Text)
    → lookup (remove_entry stuck entry folder) path
      ≡ (if text_eq (top path) entry && not (stuck path) then none else lookup folder path)
unfolding lookup remove_entry select
lookup-remove_entry stuck entry [] path = ground arith
lookup-remove_entry stuck entry (file ∷ folder) path =
    ground (arith, text_eq_iff file.path path, lookup-remove_entry stuck entry folder path)

-- A folder without an entry has no file of it.
lookup-has_entry :
    (entry : Text) (folder : Folder) (path : Text)
    → has_entry entry folder ≡ false
    → text_eq (top path) entry ≡ true
    → lookup folder path ≡ none
unfolding lookup has_entry any
lookup-has_entry entry [] path h e = refl
lookup-has_entry entry (file ∷ folder) path h e =
    ground (arith, text_eq_iff file.path path, lookup-has_entry entry folder path)

-- Whatever happens, the files of the skipped entries stay.
pub lookup-remove_entries_skipped :
    (skips stuck : Text → Bool) (entries : List Text) (folder : Folder) (path : Text)
    → skips (top path) ≡ true
    → lookup (remove_entries skips stuck entries folder).0 path ≡ lookup folder path
unfolding remove_entries
lookup-remove_entries_skipped skips stuck [] folder path h = refl
lookup-remove_entries_skipped skips stuck (entry ∷ entries) folder path h = ground (
  arith,
  text_eq_iff (top path) entry,
  lookup-remove_entry stuck entry folder path,
  lookup-remove_entries_skipped skips stuck entries folder path h,
  lookup-remove_entries_skipped skips stuck entries (remove_entry stuck entry folder) path h,
)

-- Where no entry is given up, nothing is left of those that are not skipped.
lookup-remove_entries :
    (skips stuck : Text → Bool) (entries : List Text) (folder : Folder) (path : Text)
    → (remove_entries skips stuck entries folder).1 ≡ none
    → lookup (remove_entries skips stuck entries folder).0 path
      ≡ (if contains entries (top path) && not (skips (top path)) then none else lookup folder path)
unfolding remove_entries contains
lookup-remove_entries skips stuck [] folder path h = refl
lookup-remove_entries skips stuck (entry ∷ entries) folder path h = ground (
  arith,
  text_eq_iff (top path) entry,
  text_eq_iff entry (top path),
  lookup-remove_entry stuck entry folder path,
  lookup-has_entry entry (remove_entry stuck entry folder) path,
  lookup-remove_entries skips stuck entries folder path,
  lookup-remove_entries skips stuck entries (remove_entry stuck entry folder) path,
)

lookup-contains :
    (folder : Folder) (path : Text)
    → contains (map (λ file. top file.path) folder) (top path) ≡ false
    → lookup folder path ≡ none
unfolding lookup contains
lookup-contains [] path h = refl
lookup-contains (file ∷ folder) path h = ground (
  arith,
  text_eq_iff file.path path,
  text_eq_iff (top file.path) (top path),
  lookup-contains folder path,
)

-- After a removal without failure only the files of the skipped entries are left.
pub lookup-remove_app_files :
    (skips stuck : Text → Bool) (folder : Folder) (path : Text)
    → (remove_app_files skips stuck folder).1 ≡ none
    → lookup (remove_app_files skips stuck folder).0 path
      ≡ (if skips (top path) then lookup folder path else none)
unfolding remove_app_files
lookup-remove_app_files skips stuck folder path h = ground (
  arith,
  lookup-contains folder path,
  lookup-remove_entries skips stuck (map (λ file. top file.path) folder) folder path h,
)

pub lookup-remove_app_files_skipped :
    (skips stuck : Text → Bool) (folder : Folder) (path : Text)
    → skips (top path) ≡ true
    → lookup (remove_app_files skips stuck folder).0 path ≡ lookup folder path
unfolding remove_app_files
lookup-remove_app_files_skipped skips stuck folder path =
    lookup-remove_entries_skipped skips stuck (map (λ file. top file.path) folder) folder path
