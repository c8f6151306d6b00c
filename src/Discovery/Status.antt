-- ===== src/Discovery/Status.antt =====
-- Server replies of crates/reveille-core/src/discovery/protocol.rs: `getstatus` and `getinfo` with
-- their five-byte header, and the players that either protocol lists.
pub mod Names
pub mod Lines
use reveille.Prelude.{
  ℕ, ◌+◌, Bool, true, false, not, List, [], ◌∷◌, ◌++◌, Option, none, some, Result, ok, err, ok_or,
  ◌>>=◌, leb, ◌==◌, if◌then◌else◌, filter, drop, length, head?, get_last?, map, filter_map,
}
use reveille.Text.{
  Text, Bytes, codes, is_control, is_empty, text_eq, trim, trim_end_by, starts_with, strip_prefix,
}
use reveille.Text.Split.{lines, split_once, rsplit_once, words}
use reveille.Text.Number.{ℤ, parse_unsigned, parse_i32, u32_max, to_text}
use reveille.TreeMap.{lookup}
use reveille.Discovery.Model.{Player}
use reveille.Discovery.Master.{
  ParseError, invalid_oob_header, unexpected_oob_response, missing_server_info,
}
use reveille.Discovery.Fields.{FieldMap, latin1, parse_backslash_text}

abbrev pub oob_recv_header : Bytes
oob_recv_header = 0xff ∷ 0xff ∷ 0xff ∷ 0xff ∷ 0x01 ∷ []

abbrev pub oob_send_header : Bytes
oob_send_header = 0xff ∷ 0xff ∷ 0xff ∷ 0xff ∷ 0x02 ∷ []

-- `player_name`: control characters are dropped before the trim.
unfoldable pub player_name : Text → Text
player_name raw = trim (filter (λ c. not (is_control c)) raw)

-- `payload.split_once('\n').unwrap_or((&payload, ""))`
abbrev pub marker_line : Text → Text × Text
marker_line payload = elim (split_once b'\n' payload) [ none ↦ (payload, []) | some parts ↦ parts ]

-- `actual.trim_end_matches('\r')`
abbrev pub without_cr : Text → Text
without_cr = trim_end_by (λ c. c == 13)

unfoldable pub oob_payload : Bytes → Text → Result ParseError Text
oob_payload response expected =
    if starts_with oob_recv_header response
    then (let (actual, rest) = marker_line (latin1 (drop (length oob_recv_header) response)) in
        if text_eq (without_cr actual) expected
        then ok rest
        else err (unexpected_oob_response expected (without_cr actual)))
    else err invalid_oob_header

-- `quoted.rsplit_once('"').map_or(quoted, |(name, _)| name)`
abbrev pub before_quote : Text → Option (Text × Text) → Text
before_quote quoted none = quoted
before_quote quoted (some (name, rest)) = name

abbrev pub until_last_quote : Text → Text
until_last_quote quoted = before_quote quoted (rsplit_once b'"' quoted)

-- The last word before the first quote is the ping.
abbrev pub word_number : Option Text → Option ℕ
word_number none = none
word_number (some w) = parse_unsigned u32_max w

abbrev pub last_ping : Text → Option ℕ
last_ping head = word_number (get_last? (words head))

abbrev pub with_ping : Text → Option ℕ → Option Player
with_ping name none = none
with_ping name (some ping) =
    some (record { name = player_name name; ping = some ping; kills = none; deaths = none })

-- What stands before and behind the first quote of a player line.
abbrev pub quoted_player : Option (Text × Text) → Option Player
quoted_player none = none
quoted_player (some (head, quoted)) = with_ping (until_last_quote quoted) (last_ping head)

unfoldable pub parse_status_player : Text → Option Player
parse_status_player line = quoted_player (split_once b'"' line)

-- `StatusResponse`
pub record StatusResponse : Type 0 where
  pub info : FieldMap
  pub players : List Player

-- The serverinfo line and the player lines behind it.
abbrev pub status_of : List Text → Result ParseError StatusResponse
status_of [] = err missing_server_info
status_of (info ∷ rest) = do
  fields ← parse_backslash_text info
  ok (record { info = fields; players = filter_map parse_status_player rest })

unfoldable pub parse_oob_getstatus : Bytes → Result ParseError StatusResponse
unfolding oob_payload
parse_oob_getstatus response = do
  payload ← oob_payload response (codes "statusResponse")
  status_of (lines payload)

unfoldable pub parse_oob_getinfo : Bytes → Result ParseError FieldMap
unfolding oob_payload
parse_oob_getinfo response = do
  payload ← oob_payload response (codes "infoResponse")
  info ← ok_or (head? (lines payload)) missing_server_info
  parse_backslash_text info

-- `indexed_field` for an unsigned and for a signed field: the key is `<prefix>_<index>`.
abbrev pub indexed_key : Text → ℕ → Text
indexed_key prefix index = prefix ++ (b'_' ∷ to_text index)

abbrev pub indexed_field {ℓ} : {A : Type ℓ} → (Text → Option A) → FieldMap → Text → ℕ → Option A
indexed_field parse fields prefix index = elim (lookup (indexed_key prefix index) fields) [
  | none ↦ none
  | some value ↦ parse value
]

-- The slot and the name of a `player_N` key.
abbrev pub named_index : Text → Option ℕ → Option (ℕ × Text)
named_index name none = none
named_index name (some index) = some (index, name)

abbrev pub slot_digits : Text → Option Text → Option (ℕ × Text)
slot_digits name none = none
slot_digits name (some digits) = named_index name (parse_unsigned u32_max digits)

unfoldable pub indexed_name : Text × Text → Option (ℕ × Text)
indexed_name (key, name) = slot_digits name (strip_prefix (codes "player_") key)

-- `sort_unstable_by_key` by the index. Names of one index, whose order the source leaves open,
-- keep the order of their keys.
unfoldable pub insert_by_index : ℕ × Text → List (ℕ × Text) → List (ℕ × Text)
insert_by_index e [] = e ∷ []
insert_by_index e (f ∷ rest) =
    let later = f ∷ insert_by_index e rest in if leb e.0 f.0 then e ∷ f ∷ rest else later

unfoldable pub sort_by_index : List (ℕ × Text) → List (ℕ × Text)
unfolding insert_by_index
sort_by_index [] = []
sort_by_index (e ∷ rest) = insert_by_index e (sort_by_index rest)

abbrev pub listed_player : FieldMap → ℕ × Text → Player
listed_player fields (index, name) = record {
  name = player_name name;
  ping = indexed_field (parse_unsigned u32_max) fields (codes "ping") index;
  kills = indexed_field parse_i32 fields (codes "frags") index;
  deaths = indexed_field parse_i32 fields (codes "deaths") index;
}

unfoldable pub gamespy_players : FieldMap → List Player
unfolding sort_by_index indexed_name
gamespy_players fields = map (listed_player fields) (sort_by_index (filter_map indexed_name fields))
