-- ===== src/Updater/Folder/Preserved.antt =====
-- Which paths the loops over a folder pass over.
use zarya.Prelude.{
  ◌≡◌, false, true, List, [], ◌∷◌, Text, codes, text_eq, starts_with, contains_text, arith,
}
use zarya.Updater.Folder.{top, is_kept_by, is_kept, is_preserved, is_hidden, is_spared}

is_kept_by-top :
    (path preserve : Text) → is_kept_by (top path) preserve ≡ true → is_kept_by path preserve ≡ true
unfolding is_kept_by top text_eq starts_with
is_kept_by-top [] preserve h = h
is_kept_by-top (c ∷ path) [] h = ground arith
is_kept_by-top (c ∷ path) (d ∷ preserve) h = ground (arith, is_kept_by-top path preserve)

is_kept-top :
    (preserves : List Text) (path : Text)
    → is_kept preserves (top path) ≡ true
    → is_kept preserves path ≡ true
unfolding is_kept
is_kept-top [] path h = h
is_kept-top (preserve ∷ preserves) path h =
    ground (arith, is_kept-top preserves path, is_kept_by-top path preserve)

-- The name of an entry has no slash.
contains_text-top : (path : Text) → contains_text (top path) (codes "/.") ≡ false
unfolding contains_text starts_with top
contains_text-top [] = ground arith
contains_text-top (c ∷ path) = ground (arith, contains_text-top path)

is_hidden-top : (path : Text) → is_hidden (top path) ≡ true → is_hidden path ≡ true
unfolding is_hidden top starts_with
is_hidden-top [] h = h
is_hidden-top (c ∷ path) h = ground (arith, contains_text-top (c ∷ path))

-- What lies in an entry that is passed over is passed over.
pub is_spared-top :
    (preserves : List Text) (path : Text)
    → is_spared preserves (top path) ≡ true
    → is_spared preserves path ≡ true
unfolding is_spared is_preserved
is_spared-top preserves path h = ground (arith, is_kept-top preserves path, is_hidden-top path)
