-- ===== src/Join/Launch/Words.antt =====
-- What the words of a launch can hold, for whatever mod directory passes the validation.
use reveille.Prelude.{
  ℕ, ◌≡◌, ◌≢◌, refl, ◌∙◌, true, false, not, ◌&&◌, List, [], ◌∷◌, ◌++◌, ◌==◌, ◌⊎◌, inl, inr, any,
  all, All, All-append, arith, Bool-cases, ok,
}
use reveille.Text.{Text, codes, text_eq, text_eq_iff, contains_char, is_control, is_ascii_digit}
use reveille.Text.Number.{to_text, all-is_ascii_digit-to_text}
use reveille.Discovery.Model.{TargetGame}
use reveille.Join.Launch.{
  is_delimiter, is_forbidden_dir, fs_game_new, SocketAddr, addr_text, target_game_id, LaunchDialect,
  open_mohaa, retail, LaunchCommand, shared_arguments, arguments_for,
}

-- No control character, quote or separator of commands.
abbrev pub IsHarmless : ℕ → Type 0
IsHarmless c = (is_control c ≡ false) × (c ≢ b'"') × (c ≢ b';')

-- A plus sign, which begins a command, stands in the two fixed words alone.
abbrev pub IsWord : Text → Type 0
IsWord word =
    All IsHarmless word
    × ((word ≡ codes "+set") ⊎ (word ≡ codes "+connect") ⊎ All (λ c. c ≢ b'+') word)

-- One directory, not a path to another.
abbrev pub IsComponent : Text → Type 0
IsComponent name =
    (name ≢ codes ".") × (name ≢ codes "..") × All (λ c. (c ≢ b'/') × (c ≢ b'\\')) name

-- The words that only one dialect has.
abbrev pub target_words : TargetGame → LaunchDialect → List Text
target_words game open_mohaa =
    codes "+set" ∷ codes "com_target_game" ∷ to_text (target_game_id game) ∷ []
target_words game retail = []

pub record IsLaunch (value : Text) (command : LaunchCommand) (words : List Text)
    (dialect : LaunchDialect) : Type 0 where
  pub between : List Text
  pub passed :
      words
      ≡ target_words command.profile dialect
        ++ (codes "+set"
            ∷ codes "fs_game"
            ∷ value
            ∷ (between ++ (codes "+connect" ∷ addr_text command.server ∷ [])))
  pub harmless : All IsWord words
  pub component : IsComponent value

ne_of_test : (c d : ℕ) → (c == d) ≡ false → c ≢ d
ne_of_test c d h = ground (arith, h)

-- Neither harmful nor a plus sign.
abbrev IsPlain : ℕ → Type 0
IsPlain c = IsHarmless c × (c ≢ b'+')

IsPlain-of_test : (c : ℕ) → is_delimiter c ≡ false → IsPlain c
IsPlain-of_test c h = (
  (ground (arith, h), ne_of_test c b'"' (ground (arith, h)), ne_of_test c b';' (ground (arith, h))),
  ne_of_test c b'+' (ground (arith, h)),
)

All-IsPlain : (s : Text) → any is_delimiter s ≡ false → All IsPlain s
All-IsPlain [] h = tt
All-IsPlain (c ∷ s) h = (IsPlain-of_test c (ground (arith, h)), All-IsPlain s (ground (arith, h)))

digit_plain : (c : ℕ) → is_ascii_digit c ≡ true → is_delimiter c ≡ false
unfolding is_ascii_digit is_control
digit_plain c h = ground (arith, h)

digits-IsPlain : (s : Text) → all is_ascii_digit s ≡ true → All IsPlain s
digits-IsPlain [] h = tt
digits-IsPlain (c ∷ s) h =
    (IsPlain-of_test c (digit_plain c (ground (arith, h))), digits-IsPlain s (ground (arith, h)))

number-IsPlain : (n : ℕ) → All IsPlain (to_text n)
number-IsPlain n = digits-IsPlain (to_text n) (all-is_ascii_digit-to_text n)

IsWord-plain : (s : Text) → All IsPlain s → IsWord s
IsWord-plain s h = (harmless s h, inr (inr (plus s h)))
  where
    harmless : (s : Text) → All IsPlain s → All IsHarmless s
    harmless [] h = tt
    harmless (c ∷ s) h = (h.0.0, harmless s h.1)

    plus : (s : Text) → All IsPlain s → All (λ c. c ≢ b'+') s
    plus [] h = tt
    plus (c ∷ s) h = (h.0.1, plus s h.1)

-- A number, a separator and the rest of an address.
number_then :
    (n c : ℕ) (s : Text) → is_delimiter c ≡ false → All IsPlain s → All IsPlain (to_text n ++ c ∷ s)
number_then n c s d h =
    All-append IsPlain (to_text n) (c ∷ s) (number-IsPlain n) (IsPlain-of_test c d, h)

addr_text-IsPlain : (server : SocketAddr) → All IsPlain (addr_text server)
unfolding is_control
addr_text-IsPlain s = number_then s.a b'.' _ refl (
    number_then s.b b'.' _ refl
      (number_then s.c b'.' _ refl (number_then s.d b':' _ refl (number-IsPlain s.port))))

-- A fixed word.
fixed : (s : Text) → any is_delimiter s ≡ false → IsWord s
fixed s h = IsWord-plain s (All-IsPlain s h)

-- A fixed word that begins a command.
IsHarmless-of_test :
    (s : Text)
    → all (λ c. not (is_control c) && not (c == b'"') && not (c == b';')) s ≡ true
    → All IsHarmless s
IsHarmless-of_test [] h = tt
IsHarmless-of_test (c ∷ s) h = (
  (ground (arith, h), ne_of_test c b'"' (ground (arith, h)), ne_of_test c b';' (ground (arith, h))),
  IsHarmless-of_test s (ground (arith, h)),
)

set-IsWord : IsWord (codes "+set")
unfolding is_control
set-IsWord = (IsHarmless-of_test (codes "+set") refl, inl refl)

connect-IsWord : IsWord (codes "+connect")
unfolding is_control
connect-IsWord = (IsHarmless-of_test (codes "+connect") refl, inr (inl refl))

shared_arguments-IsWord :
    (value : Text) (server : SocketAddr)
    → All IsPlain value
    → All IsWord (shared_arguments value server)
unfolding is_control
shared_arguments-IsWord value server h = (
  set-IsWord,
  (
    fixed (codes "fs_game") refl,
    (
      IsWord-plain value h,
      (
        set-IsWord,
        (
          fixed (codes "ui_console") refl,
          (
            fixed (codes "1") refl,
            (
              set-IsWord,
              (
                fixed (codes "cl_playintro") refl,
                (
                  fixed (codes "0") refl,
                  (
                    connect-IsWord,
                    (IsWord-plain (addr_text server) (addr_text-IsPlain server), tt),
                  ),
                ),
              ),
            ),
          ),
        ),
      ),
    ),
  ),
)

slashless :
    (s : Text)
    → contains_char b'/' s ≡ false
    → contains_char b'\\' s ≡ false
    → All (λ c. (c ≢ b'/') × (c ≢ b'\\')) s
slashless [] a b = tt
slashless (c ∷ s) a b = (
  (ne_of_test c b'/' (ground (arith, a)), ne_of_test c b'\\' (ground (arith, b))),
  slashless s (ground (arith, a)) (ground (arith, b)),
)

ne_of_text : (a b : Text) → text_eq a b ≡ false → a ≢ b
ne_of_text a b h e = cc (h, (text_eq_iff a b).1 e)

-- What the validation of a mod directory tells of its text.
fs_game_new-ok :
    (value fs : Text)
    → fs_game_new value ≡ ok fs
    → (fs ≡ value) × IsComponent value × All IsPlain value
unfolding fs_game_new is_forbidden_dir
fs_game_new-ok value fs h = elim (Bool-cases (is_forbidden_dir value)) [
  | inl bad ↦ cc (rw bad at h)
  | inr good ↦ (
    ground (arith, h, good),
    (
      ne_of_text value (codes ".") (ground (arith, good)),
      ne_of_text value (codes "..") (ground (arith, good)),
      slashless value (ground (arith, good)) (ground (arith, good)),
    ),
    All-IsPlain value (ground (arith, good)),
  )
]

dialect-IsLaunch :
    (value : Text) (command : LaunchCommand) (dialect : LaunchDialect)
    → command.fs_game ≡ value
    → IsComponent value
    → All IsPlain value
    → IsLaunch value command (arguments_for command dialect) dialect
unfolding arguments_for is_control
dialect-IsLaunch value command retail e c h = rw e (record {
  between =
      codes "+set"
      ∷ codes "ui_console"
      ∷ codes "1"
      ∷ codes "+set"
      ∷ codes "cl_playintro"
      ∷ codes "0"
      ∷ [];
  passed = refl;
  harmless = shared_arguments-IsWord value command.server h;
  component = c;
})
dialect-IsLaunch value command open_mohaa e c h = rw e (record {
  between =
      codes "+set"
      ∷ codes "ui_console"
      ∷ codes "1"
      ∷ codes "+set"
      ∷ codes "cl_playintro"
      ∷ codes "0"
      ∷ [];
  passed = refl;
  harmless = (
    set-IsWord,
    (
      fixed (codes "com_target_game") refl,
      (
        IsWord-plain (to_text (target_game_id command.profile))
            (number-IsPlain (target_game_id command.profile)),
        shared_arguments-IsWord value command.server h,
      ),
    ),
  );
  component = c;
})

-- A launch whose mod directory passed the validation sets it as given, in one word, after the target
-- game for the one dialect alone, and connects to the server at last. No word of it has a control
-- character, a quote or a semicolon, and a plus sign stands in the words `+set` and `+connect` alone.
-- The directory is neither `.` nor `..` and has no slash or backslash.
pub arguments_for-IsLaunch :
    (value fs : Text) (command : LaunchCommand) (dialect : LaunchDialect)
    → fs_game_new value ≡ ok fs
    → command.fs_game ≡ fs
    → IsLaunch value command (arguments_for command dialect) dialect
arguments_for-IsLaunch value fs command dialect h f =
    let (same, component, plain) = fs_game_new-ok value fs h in
    dialect-IsLaunch value command dialect (f ∙ same) component plain
