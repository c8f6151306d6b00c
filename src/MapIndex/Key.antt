-- ===== src/MapIndex/Key.antt =====
-- `MapKey` and `normalized_bsp_path`.
use reveille.Prelude.{
  unwrap_or, ◌-◌, Bool, false, not, ◌&&◌, List, [], ◌∷◌, Option, none, some, if◌then◌else◌, filter,
  get_last?, length, take, drop,
}
use reveille.Text.{
  Text, codes, is_empty, text_eq, trim, replace_char, to_ascii_lowercase, strip_prefix,
  strip_suffix, starts_with, eq_ignore_ascii_case,
}
use reveille.Text.Split.{split, rsplit_once}

-- `replace('\\', "/")`
abbrev pub slashed : Text → Text
slashed = replace_char b'\\' b'/'

abbrev pub nonempty : Text → Option Text
nonempty [] = none
nonempty (c ∷ s) = some (c ∷ s)

-- The steps of `MapKey::new` behind the folding of the case.
unfoldable pub strip_folder : Text → Text
strip_folder s = unwrap_or (strip_prefix (codes "maps/") s) s

unfoldable pub strip_extension : Text → Text
strip_extension s = unwrap_or (strip_suffix (codes ".bsp") s) s

-- `MapKey::new`; a key is its text.
unfoldable pub map_key : Text → Option Text
map_key name = nonempty (strip_extension (strip_folder (to_ascii_lowercase (slashed (trim name)))))

-- The components of a path: empty ones and `.` are no components.
abbrev pub is_component : Text → Bool
is_component c = not (is_empty c) && not (text_eq c (codes "."))

abbrev pub components : Text → List Text
components path = filter is_component (split b'/' path)

-- `Path::extension`: what follows the last dot of the file name, if something comes before it.
abbrev pub dotted : Option (Text × Text) → Option Text
dotted none = none
dotted (some ([], after)) = none
dotted (some (c ∷ before, after)) = some after

abbrev pub file_extension : Option Text → Option Text
file_extension none = none
file_extension (some name) =
    if text_eq name (codes "..") then none else dotted (rsplit_once b'.' name)

abbrev pub extension : Text → Option Text
extension path = file_extension (get_last? (components path))

abbrev pub extension_is : Text → Option Text → Bool
extension_is wanted none = false
extension_is wanted (some e) = eq_ignore_ascii_case e wanted

-- `&path[5..path.len() - 4]`
abbrev pub display_of : Text → Text
display_of path = take (length path - 4 - 5) (drop 5 path)

abbrev pub with_display : Text → Option Text → Option (Text × Text)
with_display path none = none
with_display path (some key) = some (key, display_of path)

-- The tests of `normalized_bsp_path` on the path with its slashes.
abbrev pub is_bsp_path : Text → Bool
is_bsp_path path =
    starts_with (codes "maps/") (to_ascii_lowercase path)
    && extension_is (codes "bsp") (extension (to_ascii_lowercase path))

unfoldable pub normalized_bsp_path : Text → Option (Text × Text)
normalized_bsp_path raw =
    let path = slashed (trim raw) in
    if is_bsp_path path then with_display path (map_key path) else none
