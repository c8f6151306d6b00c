-- ===== src/Tests/Play.antt =====
-- Runs of the launch, the console, the shared status and the retries, and their theorems at concrete
-- inputs.
use reveille.Prelude.{
  All, OnSome, ℕ, ◌≡◌, refl, List, [], ◌∷◌, none, some, arith, Bool, true, false, Result, ok, err,
  ◌↔◌, All, ◌==◌, if◌then◌else◌,
}
use reveille.Text.{
  Text, codes, is_empty, text_eq, trim_by, is_whitespace, contains, starts_with, ends_with,
  strip_prefix, strip_suffix, is_ascii_alphanumeric, is_ascii_graphic, is_control, lower,
}
use reveille.Text.Split.{split_by}
use reveille.Text.Number.{pos}
use reveille.Discovery.Model.{spearhead}
use reveille.Discovery.Server.{Server}
use reveille.MapIndex.{empty_index, map_key, strip_folder, strip_extension}
use reveille.Join.{classify_server, compatible_state}
use reveille.Join.States.{IsReady, IsReadyIfMap, classify_server-compatible}
use reveille.Join.Launch.{LaunchCommand, open_mohaa, arguments_for, fs_game_new, invalid_fs_game}
use reveille.Join.Launch.Words.{IsLaunch, arguments_for-IsLaunch}
use reveille.Rcon.Command.{RconAction, tell, command_lines, chat_text, map_name, rotation}
use reveille.Rcon.Command.Values.{Fits, is_sent_char}
use reveille.Rcon.Command.Lines.{command_lines-Fits}
use reveille.Presence.{Activity, State, Publish, initial, reset, set_enabled, begin, keep}
use reveille.Presence.Shown.{
  Reachable, started, enabled_set, begun, finished, Consistent, Reachable-Consistent,
}
use reveille.Retry.{run, master}
use reveille.Retry.Bounded.{Ends, run-Ends}

abbrev server : Server
server = record {
  endpoint = record { a = 192; b = 0; c = 2; d = 17; query_port = 12300 };
  game_port = 12203;
  hostname = codes "server";
  game_name = none;
  game_version = none;
  version = none;
  protocol = none;
  current_map = some (codes "dm/mohdm6");
  game_type = none;
  rotation = codes "obj/obj_team2" ∷ [];
  allow_download = none;
  map_checksum = some (pos 7);
  pr_downloads = none;
  minimum_ping = none;
  maximum_ping = none;
  join_window = none;
  reserved_slots = none;
  occupancy = record { clients_reported = none; bots_reported = none };
  client_capacity = none;
  players = [];
  pure = none;
  status_round_trip = 40;
}

map_key_test : map_key (codes "dm/mohdm6") ≡ some (codes "dm/mohdm6")
unfolding map_key strip_folder strip_extension strip_prefix strip_suffix trim_by is_whitespace lower
map_key_test = refl

classify_server-compatible_example :
    ((classify_server empty_index server none).state ≡ compatible_state) ↔ (
      (is_empty server.rotation ≡ false)
      × All (IsReady empty_index server) server.rotation
      × OnSome (IsReadyIfMap empty_index server) server.current_map)
classify_server-compatible_example = classify_server-compatible empty_index server none

abbrev command : LaunchCommand
command = record {
  program = codes "openmohaa";
  profile = spearhead;
  fs_game = codes "mymod";
  server = record { a = 192; b = 0; c = 2; d = 17; port = 12203 };
  arguments = [];
}

fs_game_test : fs_game_new (codes "mymod") ≡ ok (codes "mymod")
unfolding fs_game_new text_eq is_control
fs_game_test = refl

-- A value that would begin a command is refused.
fs_game_refused : fs_game_new (codes "x +quit") ≡ err (invalid_fs_game (codes "x +quit"))
unfolding fs_game_new text_eq is_control
fs_game_refused = refl

arguments_for-IsLaunch_example :
    IsLaunch (codes "mymod") command (arguments_for command open_mohaa) open_mohaa
arguments_for-IsLaunch_example =
    arguments_for-IsLaunch (codes "mymod") (codes "mymod") command open_mohaa fs_game_test refl

abbrev action : RconAction
action = tell 3 (codes "Next map in 5 minutes")

chat_text_test : chat_text (codes " Next map in 5 minutes ") ≡ ok (codes "Next map in 5 minutes")
unfolding chat_text trim_by is_whitespace contains starts_with strip_prefix is_ascii_graphic
chat_text_test = refl

command_lines-Fits_example : All (Fits (is_sent_char action) 800) (command_lines action)
command_lines-Fits_example =
    command_lines-Fits action (omega arith, (codes " Next map in 5 minutes ", chat_text_test))

abbrev maps : List Text
maps = codes "dm/mohdm6" ∷ codes "obj/obj_team2" ∷ []

first_map_test : map_name (codes "dm/mohdm6") ≡ ok (codes "dm/mohdm6")
unfolding map_name trim_by is_whitespace contains starts_with ends_with strip_prefix strip_suffix
    is_ascii_alphanumeric split_by text_eq
first_map_test = refl

second_map_test : map_name (codes "obj/obj_team2") ≡ ok (codes "obj/obj_team2")
unfolding map_name trim_by is_whitespace contains starts_with ends_with strip_prefix strip_suffix
    is_ascii_alphanumeric split_by text_eq
second_map_test = refl

rotation_test : rotation maps ≡ ok maps
unfolding rotation
rotation_test = refl

abbrev match : Activity
match = record { game = spearhead; server = codes "server"; started = 1700000000 }

-- Sharing is turned on, a match begins and its exchange finishes.
abbrev issued : Publish
issued = record { attempt = 2; activity = match }

abbrev sharing : State Activity
sharing = (set_enabled initial true).0

abbrev playing : State Activity
playing = (begin sharing match).0

playing-Reachable : Reachable (λ a. a) playing (issued ∷ [])
unfolding set_enabled begin reset
playing-Reachable = begun match (omega arith) (enabled_set true (omega arith) started)

Reachable-Consistent_example : Consistent (λ a. a) (keep playing 2 match).0 (issued ∷ [])
unfolding keep
Reachable-Consistent_example =
    Reachable-Consistent (λ a. a) (keep playing 2 match).0 (issued ∷ [])
      (finished [] [] issued playing-Reachable)

-- The first answer is lost in a way that may pass.
abbrev answer : ℕ → Result Bool ℕ
answer number = if number == 0 then err true else ok number

run-Ends_example : Ends (λ e. e) answer master 0 (run (λ e. e) answer master)
run-Ends_example = run-Ends (λ e. e) answer master
