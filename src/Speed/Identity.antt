-- ===== src/Speed/Identity.antt =====
-- Who a rule of src/speed_policy.rs is for: `bottle_key` and `game_path_key`. A text is the list of its
-- characters.
use intimatr.Prelude.{
  ℕ, ◌+◌, Bool, true, false, not, ◌&&◌, ◌||◌, List, [], ◌∷◌, ◌++◌, Result, ok, err, ◌>>◌, fail_if,
  any, map, filter, leb, ◌==◌, if◌then◌else◌,
}
use intimatr.Speed.Config.{SpeedProfileError, invalid}
use intimatr.Speed.Hotkeys.Chord.{text_eq}

abbrev pub Name : Type 0
Name = List ℕ

-- `char::is_whitespace`
abbrev pub is_whitespace : ℕ → Bool
is_whitespace c =
    (leb 9 c && leb c 13)
    || c == 32
    || c == 133
    || c == 160
    || c == 5760
    || (leb 8192 c && leb c 8202)
    || c == 8232
    || c == 8233
    || c == 8239
    || c == 8287
    || c == 12288

-- `char::is_control`
abbrev pub is_control : ℕ → Bool
is_control c = leb c 31 || (leb 127 c && leb c 159)

abbrev pub lower : ℕ → ℕ
lower c = if leb 65 c && leb c 90 then c + 32 else c

abbrev pub is_ascii_alphabetic : ℕ → Bool
is_ascii_alphabetic c = (leb 65 c && leb c 90) || (leb 97 c && leb c 122)

abbrev pub is_empty {ℓ} : {A : Type ℓ} → List A → Bool
is_empty [] = true
is_empty (x ∷ xs) = false

abbrev trim_start : Name → Name
trim_start [] = []
trim_start (c ∷ s) = let rest = trim_start s in if is_whitespace c then rest else c ∷ s

abbrev trim_end : Name → Name
trim_end [] = []
trim_end (c ∷ s) =
    let rest = trim_end s in if is_whitespace c && is_empty rest then [] else c ∷ rest

-- `str::trim`
abbrev pub trim : Name → Name
trim s = trim_end (trim_start s)

unfoldable pub bottle_key : Name → Result SpeedProfileError Name
bottle_key name = do
  let name = trim name
  fail_if (is_empty name || any (λ c. is_control c || c == 47 || c == 92) name)
      (invalid "invalid bottle identity")
  ok (map lower name)

abbrev add_char : ℕ → List Name → List Name
add_char c [] = (c ∷ []) ∷ []
add_char c (part ∷ parts) = (c ∷ part) ∷ parts

-- `split('/')`
abbrev pub split : Name → List Name
split [] = [] ∷ []
split (c ∷ s) = let rest = split s in if c == 47 then [] ∷ rest else add_char c rest

-- `join("/")`
abbrev pub join : List Name → Name
join [] = []
join (part ∷ []) = part
join (part ∷ next ∷ parts) = part ++ (47 ∷ join (next ∷ parts))

abbrev pub starts_with_slash : Name → Bool
starts_with_slash [] = false
starts_with_slash (c ∷ s) = c == 47

-- A segment that is not allowed: ".", "..", or one with a control character.
abbrev pub is_relative : Name → Bool
is_relative part = text_eq part (46 ∷ []) || text_eq part (46 ∷ 46 ∷ []) || any is_control part

abbrev not_absolute : SpeedProfileError
not_absolute = invalid "executable identity must be an absolute drive-qualified Windows path"

-- What follows the drive.
unfoldable pub after_drive : ℕ → Name → Result SpeedProfileError Name
after_drive drive [] = err not_absolute
after_drive drive (c ∷ rest) = do
  fail_if (not (is_ascii_alphabetic drive) || not (c == 58)) not_absolute
  let remaining = map (λ d. if d == 92 then 47 else d) rest
  fail_if (not (starts_with_slash remaining)) not_absolute
  let components = filter (λ part. not (is_empty part)) (split remaining)
  fail_if (any is_relative components)
      (invalid "relative segments are not allowed in executable identity")
  fail_if (is_empty components) (invalid "executable path lacks a filename")
  ok (lower drive ∷ 58 ∷ 47 ∷ map lower (join components))

unfoldable pub game_path_key : Name → Result SpeedProfileError Name
unfolding after_drive
game_path_key path = elim (trim path) [
  | [] ↦ err (invalid "empty Windows executable path")
  | drive ∷ rest ↦ after_drive drive rest
]
