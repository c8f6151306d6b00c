-- ===== src/Discovery/Status/Names.antt =====
-- Names that a server lists hold no control character.
use reveille.Prelude.{
  ℕ, ◌≡◌, true, not, List, [], ◌∷◌, Option, none, some, Result, ok, err, all, all-filter, All,
  filter, OnSome, All-filter_map, All-map, filter_map, ◌>>=◌,
}
use reveille.Text.{Text, Bytes, is_control, is_whitespace, all-trim_by, codes}
use reveille.Text.Split.{lines, split_once}
use reveille.Discovery.Model.{Player}
use reveille.Discovery.Fields.{FieldMap, parse_backslash_text}
use reveille.Discovery.Master.{ParseError}
use reveille.Discovery.Status.{
  player_name, with_ping, last_ping, until_last_quote, parse_status_player, quoted_player,
  StatusResponse, parse_oob_getstatus, gamespy_players, listed_player, status_of, oob_payload,
  sort_by_index, indexed_name,
}

-- Every character passes the filter of `player_name`.
abbrev pub IsPrintable : Text → Type 0
IsPrintable s = all (λ c. not (is_control c)) s ≡ true

player_name-IsPrintable : (raw : Text) → IsPrintable (player_name raw)
unfolding player_name
player_name-IsPrintable raw =
    all-trim_by (λ c. not (is_control c)) is_whitespace (filter (λ c. not (is_control c)) raw)
      (all-filter (λ c. not (is_control c)) raw)

abbrev pub HavePrintableNames : List Player → Type 0
HavePrintableNames = All (λ p. IsPrintable p.name)

with_ping-IsPrintable :
    (name : Text) (ping : Option ℕ) → OnSome (λ p. IsPrintable p.name) (with_ping name ping)
with_ping-IsPrintable name none = tt
with_ping-IsPrintable name (some ping) = player_name-IsPrintable name

quoted_player-IsPrintable :
    (o : Option (Text × Text)) → OnSome (λ p. IsPrintable p.name) (quoted_player o)
quoted_player-IsPrintable none = tt
quoted_player-IsPrintable (some (head, quoted)) =
    with_ping-IsPrintable (until_last_quote quoted) (last_ping head)

parse_status_player-IsPrintable :
    (line : Text) → OnSome (λ p. IsPrintable p.name) (parse_status_player line)
unfolding parse_status_player
parse_status_player-IsPrintable line = quoted_player-IsPrintable (split_once b'"' line)

-- A refused reply lists nobody.
abbrev pub ListsPrintable : Result ParseError StatusResponse → Type 0
ListsPrintable (ok r) = HavePrintableNames r.players
ListsPrintable (err e) = Unit

with_players-ListsPrintable :
    (fields : Result ParseError FieldMap) (players : List Player)
    → HavePrintableNames players
    → ListsPrintable (fields >>= λ info. ok (record { info = info; players = players }))
with_players-ListsPrintable (ok fields) players h = h
with_players-ListsPrintable (err e) players h = tt

status_of-ListsPrintable : (ls : List Text) → ListsPrintable (status_of ls)
status_of-ListsPrintable [] = tt
status_of-ListsPrintable (info ∷ rest) =
    with_players-ListsPrintable (parse_backslash_text info) (filter_map parse_status_player rest) (
      All-filter_map (λ p. IsPrintable p.name) parse_status_player parse_status_player-IsPrintable
        rest)

status_payload-ListsPrintable :
    (payload : Result ParseError Text) → ListsPrintable (payload >>= λ text. status_of (lines text))
status_payload-ListsPrintable (ok text) = status_of-ListsPrintable (lines text)
status_payload-ListsPrintable (err e) = tt

-- Whatever bytes answer `getstatus`, no listed name holds a control character.
pub parse_oob_getstatus-ListsPrintable :
    (response : Bytes) → ListsPrintable (parse_oob_getstatus response)
unfolding parse_oob_getstatus
parse_oob_getstatus-ListsPrintable response =
    status_payload-ListsPrintable (oob_payload response (codes "statusResponse"))

-- Neither does a name that the GameSpy reply lists.
pub gamespy_players-IsPrintable : (fields : FieldMap) → HavePrintableNames (gamespy_players fields)
unfolding gamespy_players
gamespy_players-IsPrintable fields =
    All-map (λ p. IsPrintable p.name) (listed_player fields) (λ e. player_name-IsPrintable e.1)
      (sort_by_index (filter_map indexed_name fields))
