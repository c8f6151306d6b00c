-- ===== src/Join/Launch.antt =====
-- crates/reveille-core/src/join.rs: the validated `fs_game` value, the launch profile and the
-- argument vectors of both engine dialects.
pub mod Words
use reveille.Prelude.{
  ℕ, ◌+◌, ◌≡◌, refl, Bool, true, false, ◌||◌, ◌&&◌, not, List, [], ◌∷◌, ◌++◌, Option, none, some,
  ◌==◌, if◌then◌else◌, any, all, filter, map, arith, inl, inr, ◌↔◌, Bool-cases, Result, ok, err,
}
use reveille.Text.{Text, codes, text_eq, contains_char, is_control, is_empty}
use reveille.Text.Number.{to_text}
use reveille.Discovery.Model.{TargetGame, allied_assault, spearhead, breakthrough, MasterEndpoint}

pub data LaunchError : Type 0 where
  empty_program : LaunchError
  invalid_fs_game : (value : Text) → LaunchError

-- A character that starts a command, ends a string or separates commands.
abbrev pub is_delimiter : ℕ → Bool
is_delimiter c = is_control c || c == b'"' || c == b';' || c == b'+'

unfoldable pub is_forbidden_dir : Text → Bool
is_forbidden_dir value =
    text_eq value (codes ".")
    || text_eq value (codes "..")
    || contains_char b'/' value
    || contains_char b'\\' value
    || any is_delimiter value

-- `FsGame::new`: the validated value is the text itself.
unfoldable pub fs_game_new : Text → Result LaunchError Text
unfolding is_forbidden_dir
fs_game_new value = if is_forbidden_dir value then err (invalid_fs_game value) else ok value

-- `SocketAddrV4`
pub record SocketAddr : Type 0 where
  pub a : ℕ
  pub b : ℕ
  pub c : ℕ
  pub d : ℕ
  pub port : ℕ

abbrev pub addr_text : SocketAddr → Text
addr_text s =
    to_text s.a
    ++ b'.' ∷ (to_text s.b ++ b'.' ∷ (to_text s.c ++ b'.' ∷ (to_text s.d ++ b':' ∷ to_text s.port)))

-- `LaunchProfile::target_game_id`
abbrev pub target_game_id : TargetGame → ℕ
target_game_id allied_assault = 0
target_game_id spearhead = 1
target_game_id breakthrough = 2

-- `LaunchProfile::search_directories`: lowest precedence first.
abbrev pub search_directories : TargetGame → List Text
search_directories allied_assault = codes "main" ∷ []
search_directories spearhead = codes "main" ∷ codes "mainta" ∷ []
search_directories breakthrough = codes "main" ∷ codes "maintt" ∷ []

pub data LaunchDialect : Type 0 where
  open_mohaa retail : LaunchDialect

pub record LaunchCommand : Type 0 where
  pub program : Text
  pub profile : TargetGame
  pub fs_game : Text
  pub server : SocketAddr
  pub arguments : List Text

-- The arguments that both dialects have.
abbrev pub shared_arguments : Text → SocketAddr → List Text
shared_arguments fs_game server =
    codes "+set"
    ∷ codes "fs_game"
    ∷ fs_game
    ∷ codes "+set"
    ∷ codes "ui_console"
    ∷ codes "1"
    ∷ codes "+set"
    ∷ codes "cl_playintro"
    ∷ codes "0"
    ∷ codes "+connect"
    ∷ addr_text server
    ∷ []

unfoldable pub arguments_for : LaunchCommand → LaunchDialect → List Text
arguments_for command open_mohaa =
    codes "+set"
    ∷ codes "com_target_game"
    ∷ to_text (target_game_id command.profile)
    ∷ shared_arguments command.fs_game command.server
arguments_for command retail = shared_arguments command.fs_game command.server

-- `LaunchCommand::new`
unfoldable pub launch_command :
    Text → TargetGame → Text → SocketAddr → Result LaunchError LaunchCommand
unfolding arguments_for
launch_command program profile fs_game server =
    let command : LaunchCommand = record {
      program = program;
      profile = profile;
      fs_game = fs_game;
      server = server;
      arguments = [];
    } in
    if is_empty program
    then err empty_program
    else ok (record command { arguments = arguments_for command open_mohaa })
