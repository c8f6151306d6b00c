-- ===== src/Installed/Recorded.antt =====
-- What the record of installs holds after a package is added.
use reveille.Prelude.{
  ◌≡◌, refl, ap, ◌∙◌, Bool, true, not, ◌&&◌, List, [], ◌∷◌, ◌++◌, some, filter, find, reverse, ◌==◌,
  arith,
}
use reveille.Text.{Text, text_eq_iff, text_eq_refl, eq_ignore_ascii_case}
use reveille.Installed.{
  Component, component_eq, prefix, root_dir, cur_dir, parent_dir, normal, FilePath, path_eq, Disk,
  InstalledItem, RecordFile, items, add, without_path, is_file, installed, installed_file,
}
use mathlib.Core.List.{reverse-append}

component_eq_refl : (c : Component) → component_eq c c ≡ true
component_eq_refl (prefix x) = text_eq_refl x
component_eq_refl root_dir = refl
component_eq_refl cur_dir = refl
component_eq_refl parent_dir = refl
component_eq_refl (normal x) = text_eq_refl x

pub path_eq_refl : (p : FilePath) → path_eq p p ≡ true
unfolding path_eq
path_eq_refl [] = refl
path_eq_refl (c ∷ p) = rw (component_eq_refl c) (path_eq_refl p)

component_eq_sound : (c d : Component) → component_eq c d ≡ true → c ≡ d
component_eq_sound (prefix x) (prefix y) h = ap prefix ((text_eq_iff x y).0 h)
component_eq_sound root_dir root_dir h = refl
component_eq_sound cur_dir cur_dir h = refl
component_eq_sound parent_dir parent_dir h = refl
component_eq_sound (normal x) (normal y) h = ap normal ((text_eq_iff x y).0 h)
component_eq_sound _ _ h = cc h

pub path_eq_sound : (p q : FilePath) → path_eq p q ≡ true → p ≡ q
unfolding path_eq
path_eq_sound [] [] h = refl
path_eq_sound [] (d ∷ q) h = cc h
path_eq_sound (c ∷ p) [] h = cc h
path_eq_sound (c ∷ p) (d ∷ q) h = ground (arith, component_eq_sound c d, path_eq_sound p q)

filter-filter-not :
    {A : Type 0} (p : A → Bool) (xs : List A) → filter p (filter (λ x. not (p x)) xs) ≡ []
filter-filter-not p [] = refl
filter-filter-not p (x ∷ xs) = ground (arith, filter-filter-not p xs)

filter-append :
    {A : Type 0} (p : A → Bool) (xs ys : List A) → filter p (xs ++ ys) ≡ filter p xs ++ filter p ys
filter-append p [] ys = refl
filter-append p (x ∷ xs) ys = ground (arith, filter-append p xs ys)

eq_ignore_ascii_case_refl : (a : Text) → eq_ignore_ascii_case a a ≡ true
unfolding eq_ignore_ascii_case
eq_ignore_ascii_case_refl a = text_eq_refl _

-- The item that was added last is the first that a search meets.
find-last :
    {A : Type 0} (p : A → Bool) (xs : List A) (x : A)
    → p x ≡ true
    → find p (reverse (xs ++ (x ∷ []))) ≡ some x
find-last p xs x h = rw (reverse-append xs (x ∷ []), h) refl

-- What a search of the record gives for an item.
pub record IsRecorded (disk : Disk) (record_file : RecordFile) (item : InstalledItem) : Type 0 where
  pub by_id : installed disk (items record_file) item.id ≡ some item
  pub by_name : installed_file disk (items record_file) item.filename ≡ some item
  pub only : filter (λ known. path_eq known.path item.path) (items record_file) ≡ item ∷ []

-- Once a package whose file is on the disk has been added and the record written, it is what is
-- found under its identifier and under its file name, whatever the record held before, and it is
-- the only item of its path.
pub add-IsRecorded :
    (disk : Disk) (record_file : RecordFile) (item : InstalledItem)
    → is_file disk item.path ≡ true
    → IsRecorded disk (add true item record_file).1 item
unfolding add installed installed_file without_path
add-IsRecorded disk record_file item h = record {
  by_id =
      find-last (λ x. x.id == item.id && is_file disk x.path)
        (without_path item.path (items record_file)) item (ground (arith, h));
  by_name =
      find-last (λ x. eq_ignore_ascii_case x.filename item.filename && is_file disk x.path)
        (without_path item.path (items record_file)) item
        (rw (eq_ignore_ascii_case_refl item.filename, h) refl);
  only =
      filter-append (λ known. path_eq known.path item.path) _ (item ∷ [])
      ∙ rw
          (
            filter-filter-not (λ known. path_eq known.path item.path) (items record_file),
            path_eq_refl item.path,
          )
          refl;
}
