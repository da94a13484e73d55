-- ===== src/Speed/Hotkeys/Chord.antt =====
-- The text of a hotkey chord (`parse_chord` and `parse_key` of src/speed_hotkeys.rs). A text is the
-- list of its bytes, and the messages of the errors are constructors.
use intimatr.Prelude.{
  ℕ, ◌+◌, ◌-◌, ◌*◌, Bool, true, false, not, ◌&&◌, ◌||◌, Option, none, some, List, [], ◌∷◌, Result,
  ok, err, ◌>>=◌, ◌>>◌, fail_if, length, any, all, map, ltb, leb, ◌==◌, if◌then◌else◌,
}
use intimatr.Speed.Hotkeys.{Modifiers, KeyChord}

pub data HotkeyError : Type 0 where
  invalid_characters empty_token bad_modifier bad_key reserved_key duplicate_chord : HotkeyError
  hold_multiplier hold_duration : HotkeyError

abbrev pub Text : Type 0
Text = List ℕ

abbrev pub text_eq : Text → Text → Bool
text_eq [] [] = true
text_eq (a ∷ s) (b ∷ t) = a == b && text_eq s t
text_eq _ _ = false

-- `u8::to_ascii_uppercase`
abbrev pub upper : ℕ → ℕ
upper c = if leb 97 c && leb c 122 then c - 32 else c

-- `char::is_whitespace`, for an ASCII character.
abbrev pub is_space : ℕ → Bool
is_space c = c == 32 || (leb 9 c && leb c 13)

abbrev add_char : ℕ → List Text → List Text
add_char c [] = (c ∷ []) ∷ []
add_char c (token ∷ tokens) = (c ∷ token) ∷ tokens

-- `split('+')`
abbrev pub split : Text → List Text
split [] = [] ∷ []
split (c ∷ s) = let rest = split s in if c == 43 then [] ∷ rest else add_char c rest

abbrev trim_start : Text → Text
trim_start [] = []
trim_start (c ∷ s) = let rest = trim_start s in if is_space c then rest else c ∷ s

-- A space before nothing is dropped.
abbrev keep_unless_blank : ℕ → Text → Text
keep_unless_blank c [] = if is_space c then [] else c ∷ []
keep_unless_blank c (d ∷ s) = c ∷ d ∷ s

abbrev trim_end : Text → Text
trim_end [] = []
trim_end (c ∷ s) = keep_unless_blank c (trim_end s)

-- `str::trim`
abbrev pub trim : Text → Text
trim s = trim_end (trim_start s)

abbrev pub is_empty : Text → Bool
is_empty [] = true
is_empty _ = false

-- `number.parse::<u16>()`, which takes a leading `+` too, but not in what `split` leaves.
abbrev digits : ℕ → Text → Option ℕ
digits n [] = if ltb 65535 n then none else some n
digits n (c ∷ s) =
    let rest = digits (10 * n + (c - 48)) s in if leb 48 c && leb c 57 then rest else none

abbrev pub parse_u16 : Text → Option ℕ
parse_u16 [] = none
parse_u16 (c ∷ s) = digits 0 (c ∷ s)

-- The names of keys, with their virtual keys.
abbrev pub named_keys : List (Text × ℕ)
named_keys =
    (66 ∷ 65 ∷ 67 ∷ 75 ∷ 83 ∷ 80 ∷ 65 ∷ 67 ∷ 69 ∷ [], 8)  -- BACKSPACE
    ∷ (84 ∷ 65 ∷ 66 ∷ [], 9)  -- TAB
    ∷ (69 ∷ 78 ∷ 84 ∷ 69 ∷ 82 ∷ [], 13)  -- ENTER
    ∷ (82 ∷ 69 ∷ 84 ∷ 85 ∷ 82 ∷ 78 ∷ [], 13)  -- RETURN
    ∷ (69 ∷ 83 ∷ 67 ∷ [], 27)  -- ESC
    ∷ (69 ∷ 83 ∷ 67 ∷ 65 ∷ 80 ∷ 69 ∷ [], 27)  -- ESCAPE
    ∷ (83 ∷ 80 ∷ 65 ∷ 67 ∷ 69 ∷ [], 32)  -- SPACE
    ∷ (80 ∷ 65 ∷ 71 ∷ 69 ∷ 85 ∷ 80 ∷ [], 33)  -- PAGEUP
    ∷ (80 ∷ 65 ∷ 71 ∷ 69 ∷ 68 ∷ 79 ∷ 87 ∷ 78 ∷ [], 34)  -- PAGEDOWN
    ∷ (69 ∷ 78 ∷ 68 ∷ [], 35)  -- END
    ∷ (72 ∷ 79 ∷ 77 ∷ 69 ∷ [], 36)  -- HOME
    ∷ (76 ∷ 69 ∷ 70 ∷ 84 ∷ [], 37)  -- LEFT
    ∷ (85 ∷ 80 ∷ [], 38)  -- UP
    ∷ (82 ∷ 73 ∷ 71 ∷ 72 ∷ 84 ∷ [], 39)  -- RIGHT
    ∷ (68 ∷ 79 ∷ 87 ∷ 78 ∷ [], 40)  -- DOWN
    ∷ (73 ∷ 78 ∷ 83 ∷ 69 ∷ 82 ∷ 84 ∷ [], 45)  -- INSERT
    ∷ (68 ∷ 69 ∷ 76 ∷ 69 ∷ 84 ∷ 69 ∷ [], 46)  -- DELETE
    ∷ []

abbrev lookup : Text → List (Text × ℕ) → Result HotkeyError ℕ
lookup key [] = err bad_key
lookup key ((name, code) ∷ names) =
    let rest = lookup key names in if text_eq key name then ok code else rest

-- `strip_prefix('F')` and the number after it, where that is one of 1 to 24.
unfoldable pub function_key : Text → Option ℕ
function_key [] = none
function_key (c ∷ s) = elim (parse_u16 s) [
  | some n ↦ if c == 70 && leb 1 n && leb n 24 then some (112 + n - 1) else none
  | none ↦ none
]

unfoldable pub character_key : Text → Option ℕ
character_key (c ∷ []) = if (leb 65 c && leb c 90) || (leb 48 c && leb c 57) then some c else none
character_key _ = none

unfoldable pub parse_key : Text → Result HotkeyError ℕ
unfolding function_key character_key
parse_key raw =
    let key = map upper raw in
    elim (character_key key) [
      | some c ↦ ok c
      | none ↦ elim (function_key key) [ some n ↦ ok n | none ↦ lookup key named_keys ]
    ]

abbrev is_ctrl : Text → Bool
is_ctrl t = text_eq t (67 ∷ 84 ∷ 82 ∷ 76 ∷ []) || text_eq t (67 ∷ 79 ∷ 78 ∷ 84 ∷ 82 ∷ 79 ∷ 76 ∷ [])

abbrev is_alt : Text → Bool
is_alt t = text_eq t (65 ∷ 76 ∷ 84 ∷ [])

abbrev is_shift : Text → Bool
is_shift t = text_eq t (83 ∷ 72 ∷ 73 ∷ 70 ∷ 84 ∷ [])

unfoldable pub add_modifier : Modifiers → Text → Result HotkeyError Modifiers
add_modifier m raw =
    let t = map upper raw in
    if is_ctrl t && not m.ctrl
    then ok (record m { ctrl = true })
    else if is_alt t && not m.alt
    then ok (record m { alt = true })
    else if is_shift t && not m.shift
    then ok (record m { shift = true })
    else err bad_modifier

-- The modifiers are the tokens before the last, which is the key.
unfoldable pub parse_tokens : Modifiers → List Text → Result HotkeyError KeyChord
unfolding add_modifier parse_key
parse_tokens m [] = err empty_token
parse_tokens m (key ∷ []) = do k ← parse_key key; ok (record { key = k; modifiers = m })
parse_tokens m (modifier ∷ next ∷ tokens) = do
  m' ← add_modifier m modifier
  parse_tokens m' (next ∷ tokens)

unfoldable pub parse_chord : Text → Result HotkeyError KeyChord
unfolding parse_tokens
parse_chord text = do
  fail_if (is_empty text || ltb 80 (length text) || not (all (λ c. ltb c 128) text))
      invalid_characters
  let tokens = map trim (split text)
  fail_if (any is_empty tokens) empty_token
  parse_tokens (record { ctrl = false; alt = false; shift = false }) tokens
