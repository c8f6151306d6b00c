-- ===== src/Lib.antt =====
-- A model of Reveille, a launcher for the Medal of Honor: Allied Assault games: how it finds
-- servers, checks a server's maps against the local ones, fetches and installs packages, launches
-- the game, and administers a server.
--
-- A sweep asks the master for servers (cipher, encoding, query, reply), and each server for its
-- fields and players. The map index scans the game directories of a launch profile in the order in
-- which the engine reads them. The preflight checks the server's rotation and current map against
-- the index; the join turns its report into the state that is shown, and builds the arguments of
-- the launch. Missing maps are looked up in a catalogue, which can also be browsed page by page, or
-- come from the manifest that a server publishes; their packages are downloaded into staging,
-- inspected, confirmed and installed. While the game runs, its status may be shared; an administrator sends console commands.
--
-- The files, by the crate's source they model:
--   Text (Chars, Trim, Search, Split, Number): what the code uses of the standard library's strings,
--     as lists of code points, and numbers, with their limits and signs written out.
--   TreeMap: `BTreeMap` with text keys, as a sorted association list.
--   Discovery: crates/reveille-core/src/discovery/protocol.rs and model.rs. Cipher is `gs_encrypt`,
--     Encode `gs_encode`, Master `parse_master_challenge` and `parse_master_response`, Fields
--     `parse_backslash_text` and `build_master_query`, Status the replies to `getstatus` and
--     `getinfo` and `gamespy_players`, Model and Server the types, Summary `summary` and
--     `answered_for_another_game`.
--   Discovery.Probe and Discovery.Sweep: crates/reveille-core/src/discovery/client.rs. Probe is
--     `probe_server` with its requests, Probe.Build `build_server` and `merge_players`, Sweep the
--     loop of `sweep`, Sweep.Fetch `fetch_master_retrying`, Sweep.Duplicates
--     `record_duplicate_game_endpoints`.
--   Bsp: crates/reveille-core/src/bsp.rs, `read_header`.
--   MapIndex: crates/reveille-core/src/mapindex.rs. Key is `MapKey::new` and `normalized_bsp_path`,
--     Scan the members of a package and the files of a tree, Chain `scan_game_directory`,
--     `scan_chain`, `update_stats` and `get`.
--   Preflight: crates/reveille-core/src/preflight.rs, `check`.
--   Join: crates/reveille-core/src/join.rs, `classify`, `classify_server`, `current_map_readiness`;
--     Join.Launch the launch profile, `FsGame::new` and `arguments_for`.
--   Content.Catalogue and Content.Resolve: crates/reveille-core/src/content/mohdb.rs, its results,
--     `resolve_candidates`, `resolve_one` and `resolve_all`. Content.Archive:
--     crates/reveille-core/src/content/archive.rs, its `inspect_archive`, `confirm_map`,
--     `disambiguate_by_checksum`, `install_archive` and `install_verified_archive`.
--     Content.Download: mohdb.rs again, `lookup_from`, `download_mohdb_file_once` and
--     `download_mohdb_file_reporting`. Content.Browse: crates/reveille-core/src/content/catalogue.rs,
--     `parameters`, `page_url`, `raster_type`; Plain is `plain_text`, Entry `into_entry`,
--     `into_package`, `into_page`, `image_url`. Content.PakRadar:
--     crates/reveille-core/src/content/pakradar.rs, `Md5Digest::parse`; Manifest is
--     `parse_filelist`, Package the download and `pakradar_entry_status`.
--   Rcon.Command: crates/reveille-core/src/rcon/command.rs, the accepted values and `command_lines`.
--     Rcon.Reply: crates/reveille-core/src/rcon/reply.rs, `parse_print_packet`, `reply_outcome`,
--     `token_spans` and `parse_status`.
--   Retry: crates/reveille-core/src/retry.rs, `run` and `transient_status`.
--   Presence: crates/reveille-app/src/presence/mod.rs, the transitions of `State`.
--   Servers: crates/reveille-app/src/servers/mod.rs and servers/check.rs, the list that joins are
--     prepared from, its tickets and `settle_check`. Joined has the steps that overlap with a join.
--   Installed: crates/reveille-app/src/catalogue/record.rs, `InstallRecord`, and
--     crates/reveille-app/src/catalogue/mod.rs, `removable`, `remove_package`,
--     `remove_installed_item`, `best_match` and `item_state`.
--   Prelude has the helpers that they share, and Tests the runs at concrete inputs.
--
-- Inputs that the code does not decide are data or parameters: a game directory is its entries, a
-- package its members as the ZIP reader gives them, a file its bytes or none, a socket the answer of
-- each call on it, the network the answer of each attempt, and a sweep's world says which probe ends
-- next and which events are still received. Loops over data are recursions on it. The others have
-- fuel: the key schedule its 256 rounds; the retries and the downloads the number of attempts that
-- the policy allows; the loop of a sweep one round for each endpoint and a last one; the master's
-- response one read for each byte of its limit and two more; the tags of a text one round for each
-- character and one more. All these are proved to be enough. The lookup over the catalogue's pages
-- takes its fuel as an argument, since nothing in the code bounds it.
-- `u8` sums wrap at 256, the counters of the status and the page numbers at 2 ^ 64, the sums of a
-- summary at 2 ^ 32, and numbers that are parsed are refused above their type's greatest value.
--
-- Not modelled: the sockets, timers, HTTP, the registry and the file system's own behaviour, the user
-- interface, and most messages inside errors. Also left out: the values of console variables, the
-- texts that explain a rejection, and the progress that a pass reports.
pub mod Bsp
pub mod Content
pub mod Discovery
pub mod Installed
pub mod Join
pub mod MapIndex
pub mod Preflight
pub mod Prelude
pub mod Presence
pub mod Rcon
pub mod Retry
pub mod Servers
pub mod Tests
pub mod Text
pub mod TreeMap
