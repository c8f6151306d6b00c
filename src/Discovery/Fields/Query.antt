-- ===== src/Discovery/Fields/Query.antt =====
-- `build_master_query` of crates/reveille-core/src/discovery/protocol.rs: the launcher answers the
-- master's challenge in the same backslash form.
use reveille.Prelude.{
  ℕ, ◌≡◌, refl, true, false, List, [], ◌∷◌, ◌++◌, some, Result, ok, ◌>>=◌, arith, Bool-cases,
  ==_iff, inl, inr,
}
use reveille.Text.{Text, Bytes, codes, text_eq}
use reveille.TreeMap.{lookup, insert}
use reveille.Discovery.Model.{
  TargetGame, allied_assault, spearhead, breakthrough, game_name, secret_key,
}
use reveille.Discovery.Cipher.{CryptoError, gs_encrypt}
use reveille.Discovery.Cipher.Prefixes.{gs_encrypt-AreBytes}
use reveille.Discovery.Encode.{gs_encode}
use reveille.Discovery.Encode.Decode.{AreBytes, IsSafe, in_alphabet, gs_encode-IsSafe}
use reveille.Discovery.Fields.{FieldMap, parse_backslash_text}
use reveille.Discovery.Fields.RoundTrip.{
  backslash, IsPlain, Writable, write_fields, insert_all, marker, parse_backslash_text-write_fields,
}

-- The text that `format!` writes around the game's name and the validation.
abbrev pub query_text : Text → Text → Text
query_text game validation =
    codes "\\gamename\\"
    ++ (game
        ++ (codes "\\gamever\\1\\location\\0\\validate\\"
            ++ (validation
                ++ (codes "\\final\\\\queryid\\1.1\\list\\cmp\\gamename\\"
                    ++ (game ++ codes "\\final\\")))))

unfoldable pub build_master_query : TargetGame → Bytes → Result CryptoError Text
build_master_query target challenge = do
  encrypted ← gs_encrypt (secret_key target) challenge
  ok (query_text (game_name target) (gs_encode encrypted))

-- The fields before the first end marker.
abbrev pub query_fields : Text → Text → List (Text × Text)
query_fields game validation =
    (codes "gamename", game)
    ∷ (codes "gamever", codes "1")
    ∷ (codes "location", codes "0")
    ∷ (codes "validate", validation)
    ∷ []

abbrev query_tail : Text → Text
query_tail game = codes "\\queryid\\1.1\\list\\cmp\\gamename\\" ++ (game ++ codes "\\final\\")

query_text-write_fields :
    (game validation : Text)
    → query_text game validation
      ≡ write_fields (query_fields game validation) (codes "\\final\\" ++ query_tail game)
query_text-write_fields game validation = refl

in_alphabet-backslash : (c : ℕ) → in_alphabet c ≡ true → backslash c ≡ false
in_alphabet-backslash c h = elim (Bool-cases (backslash c)) [
  | inl same ↦ cc (rw ((==_iff c b'\\').0 same) at h)
  | inr other ↦ other
]

IsPlain-IsSafe : (s : Text) → IsSafe s → IsPlain s
IsPlain-IsSafe [] h = refl
IsPlain-IsSafe (c ∷ s) h = ground (arith, in_alphabet-backslash c h.0, IsPlain-IsSafe s h.1)

game_name-IsPlain : (target : TargetGame) → IsPlain (game_name target)
game_name-IsPlain allied_assault = refl
game_name-IsPlain spearhead = refl
game_name-IsPlain breakthrough = refl

query_fields-Writable :
    (game validation : Text)
    → IsPlain game
    → IsPlain validation
    → Writable (query_fields game validation)
unfolding text_eq
query_fields-Writable game validation g v = (
  (refl, g, refl, refl),
  ((refl, refl, refl, refl), ((refl, refl, refl, refl), ((refl, v, refl, refl), tt))),
)

-- The query for a challenge, and what the master reads in it.
pub record Answers (target : TargetGame) (challenge : Bytes) : Type 0 where
  pub encrypted : Bytes
  pub query : Text
  pub fields : FieldMap
  pub encrypts : gs_encrypt (secret_key target) challenge ≡ ok encrypted
  pub builds : build_master_query target challenge ≡ ok query
  pub parses : parse_backslash_text query ≡ ok fields
  pub names : lookup (codes "gamename") fields ≡ some (game_name target)
  pub validates : lookup (codes "validate") fields ≡ some (gs_encode encrypted)

lookup-query_fields :
    (game validation : Text)
    → (lookup (codes "gamename") (insert_all [] (query_fields game validation)) ≡ some game)
      × (lookup (codes "validate") (insert_all [] (query_fields game validation)) ≡ some validation)
unfolding lookup insert text_eq
lookup-query_fields game validation = (refl, refl)

secret_key-encrypts :
    (target : TargetGame) (challenge : Bytes)
    → AreBytes challenge
    → (out : Bytes) × (gs_encrypt (secret_key target) challenge ≡ ok out) × AreBytes out
secret_key-encrypts allied_assault c h = gs_encrypt-AreBytes b'M' (codes "5Fdwc") c h
secret_key-encrypts spearhead c h = gs_encrypt-AreBytes b'h' (codes "2P1c9") c h
secret_key-encrypts breakthrough c h = gs_encrypt-AreBytes b'y' (codes "32FDc") c h

-- For every game and every challenge the query is built, and read as backslash fields up to its
-- first end marker it names the game and carries the whole encoded answer as `validate`.
pub build_master_query-Answers :
    (target : TargetGame) (challenge : Bytes) → AreBytes challenge → Answers target challenge
build_master_query-Answers target challenge h =
    let (out, e, bytes) = secret_key-encrypts target challenge h in
    let game = game_name target in
    let validation = gs_encode out in
    record {
      encrypted = out;
      query = query_text game validation;
      fields = insert_all [] (query_fields game validation);
      encrypts = e;
      builds = unfold build_master_query in (rw e);
      parses =
          parse_backslash_text-write_fields (query_fields game validation)
            (codes "\\final\\" ++ query_tail game)
            (query_fields-Writable game validation (game_name-IsPlain target)
              (IsPlain-IsSafe validation (gs_encode-IsSafe out bytes)))
            (marker (query_tail game));
      names = (lookup-query_fields game validation).0;
      validates = (lookup-query_fields game validation).1;
    }
