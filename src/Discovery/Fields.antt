-- ===== src/Discovery/Fields.antt =====
-- The backslash fields of crates/reveille-core/src/discovery/protocol.rs, and the query that the
-- launcher itself writes in that form.
pub mod RoundTrip
pub mod Query
use reveille.Prelude.{Bool, true, List, [], ◌∷◌, ◌++◌, Result, ok, err, ◌>>=◌, if◌then◌else◌, map}
use reveille.Text.{Text, Bytes, codes, is_empty, text_eq, starts_with}
use reveille.Text.Split.{split}
use reveille.TreeMap.{insert}
use reveille.Discovery.Master.{ParseError, missing_field_value}

-- `BTreeMap<String, String>`
abbrev pub FieldMap : Type 0
FieldMap = List (Text × Text)

abbrev pub final : Text
final = codes "final"

-- The `while let Some(key) = parts.next()` loop over the pieces left. What a `let` binds is made
-- only in its branch.
unfoldable pub fields_loop : FieldMap → List Text → Result ParseError FieldMap
fields_loop fields [] = ok fields
fields_loop fields (key ∷ []) =
    if is_empty key
    then ok fields
    else if text_eq key final
    then ok fields
    else err (missing_field_value key)
fields_loop fields (key ∷ value ∷ parts) =
    let skipped = fields_loop fields (value ∷ parts) in
    let inserted = fields_loop (insert key value fields) parts in
    if is_empty key then skipped else if text_eq key final then ok fields else inserted

-- `parts.next()` where the text starts with a backslash.
after_first : Bool → List Text → List Text
after_first true (p ∷ parts) = parts
after_first starts parts = parts

unfoldable pub parse_backslash_text : Text → Result ParseError FieldMap
unfolding fields_loop after_first
parse_backslash_text text =
    fields_loop [] (after_first (starts_with (codes "\\") text) (split b'\\' text))

-- Latin-1: each byte is the code point of its character.
abbrev pub latin1 : Bytes → Text
latin1 bytes = bytes

-- `parse_gamespy_status` and `parse_backslash_fields`
abbrev pub parse_gamespy_status : Bytes → Result ParseError FieldMap
parse_gamespy_status response = parse_backslash_text (latin1 response)
