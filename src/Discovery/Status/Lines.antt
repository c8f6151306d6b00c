-- ===== src/Discovery/Status/Lines.antt =====
-- A player line as the engine prints it is read back.
use reveille.Prelude.{
  ℕ, ◌≤◌, ◌≡◌, refl, ap, ◌∙◌, true, false, List, [], ◌∷◌, ◌++◌, Option, none, some, arith, ◌==◌,
  any, all, get_last?,
}
use reveille.Text.{Text, is_ascii_digit, is_whitespace, is_empty}
use reveille.Text.Split.{split_by-append, split_once-append, rsplit_once-append, words}
use reveille.Text.Number.{
  to_text, all-is_ascii_digit-to_text, is_empty-to_text, parse_unsigned-to_text, u32_max,
}
use reveille.Discovery.Status.{
  player_name, parse_status_player, quoted_player, last_ping, with_ping, word_number, before_quote,
}

-- `<ping> "<name>"`, as `sv_main.c` prints it.
abbrev pub status_line : ℕ → Text → Text
status_line ping name = (to_text ping ++ (b' ' ∷ [])) ++ b'"' ∷ (name ++ b'"' ∷ [])

digit_kinds : (c : ℕ) → is_ascii_digit c ≡ true → ((c == b'"') ≡ false) × (is_whitespace c ≡ false)
unfolding is_ascii_digit is_whitespace
digit_kinds c h = ground arith

no_quote :
    (s : Text) → all is_ascii_digit s ≡ true → any (λ c. c == b'"') (s ++ (b' ' ∷ [])) ≡ false
no_quote [] h = refl
no_quote (c ∷ s) h = ground (arith, digit_kinds c, no_quote s)

no_space : (s : Text) → all is_ascii_digit s ≡ true → any is_whitespace s ≡ false
no_space [] h = refl
no_space (c ∷ s) h = ground (arith, digit_kinds c, no_space s)

words-number :
    (s : Text)
    → all is_ascii_digit s ≡ true
    → is_empty s ≡ false
    → words (s ++ (b' ' ∷ [])) ≡ s ∷ []
unfolding words is_whitespace
words-number s d e =
    rw (split_by-append is_whitespace b' ' s [] (no_space s d) refl) (ground (arith, e))

last_ping-to_text :
    (ping : ℕ) → ping ≤ u32_max → last_ping (to_text ping ++ (b' ' ∷ [])) ≡ some ping
last_ping-to_text ping h =
    ap (λ (ws : List Text). word_number (get_last? ws))
      (words-number (to_text ping) (all-is_ascii_digit-to_text ping) (is_empty-to_text ping))
    ∙ parse_unsigned-to_text u32_max ping h

-- For every name, quotes in it included, and every ping that fits, the line gives the player with
-- that ping and the cleaned name.
pub parse_status_player-status_line :
    (ping : ℕ) (name : Text)
    → ping ≤ u32_max
    → parse_status_player (status_line ping name)
      ≡ some (record { name = player_name name; ping = some ping; kills = none; deaths = none })
unfolding parse_status_player
parse_status_player-status_line ping name h =
    let head = to_text ping ++ (b' ' ∷ []) in
    ap quoted_player (
      split_once-append b'"' head (name ++ b'"' ∷ [])
        (no_quote (to_text ping) (all-is_ascii_digit-to_text ping)))
    ∙ ap
        (λ (o : Option (Text × Text)).
          with_ping (before_quote (name ++ b'"' ∷ []) o) (last_ping head))
        (rsplit_once-append b'"' name [] refl)
    ∙ ap (with_ping name) (last_ping-to_text ping h)
