-- ===== src/Base/Lines.antt =====
-- Python's text operations on lines and substrings: `in`, `count`, `splitlines` and `join`.
use Prim.Native.Nat.{ℕ, zero, suc}
use Prim.Native.Char.{Char, code}
use Prim.Native.String.{String, ◌++◌}
use mathlib.Core.Bool.{Bool, true, false, not, ◌&&◌, ◌||◌}
use mathlib.Core.List.{List, [], ◌∷◌}
use networkops_ai_agent.Base.Lists.{filter}
use networkops_ai_agent.Base.Text.{is_space, is_empty}
use networkops_ai_agent.Base.Tests.{nat_beq, leb, if◌then◌else◌}

-- `text.startswith(prefix)`
unfoldable pub starts_with : String → String → Bool
starts_with text String.[] = true
starts_with String.[] (String.◌∷◌ p prefix) = false
starts_with (String.◌∷◌ c text) (String.◌∷◌ p prefix) =
    nat_beq (code c) (code p) && starts_with text prefix

-- `part in text`
unfoldable pub occurs_in : String → String → Bool
unfolding starts_with
occurs_in part String.[] = starts_with String.[] part
occurs_in part (String.◌∷◌ c text) = starts_with (String.◌∷◌ c text) part || occurs_in part text

-- `text.count(c)`
unfoldable pub count_char : Char → String → ℕ
count_char ch String.[] = 0
count_char ch (String.◌∷◌ c text) =
    if nat_beq (code ch) (code c) then suc (count_char ch text) else count_char ch text

-- `part * n`
unfoldable pub repeat_text : String → ℕ → String
repeat_text part zero = ""
repeat_text part (suc n) = part ++ repeat_text part n

-- `separator.join(parts)`
unfoldable pub join : String → List String → String
join separator [] = ""
join separator (part ∷ []) = part
join separator (part ∷ next ∷ parts) = part ++ (separator ++ join separator (next ∷ parts))

-- The characters that end a line for `str.splitlines`.
unfoldable pub ends_line : Char → Bool
ends_line ch =
    let c = code ch in
    (leb 10 c && leb c 13)
    || (leb 28 c && leb c 30)
    || nat_beq c 133
    || nat_beq c 8232
    || nat_beq c 8233

starts_with_newline : String → Bool
starts_with_newline String.[] = false
starts_with_newline (String.◌∷◌ c text) = nat_beq (code c) 10

-- Puts a character before the first line.
abbrev onto_first : Char → List String → List String
onto_first c [] = String.◌∷◌ c String.[] ∷ []
onto_first c (line ∷ lines) = String.◌∷◌ c line ∷ lines

-- `text.splitlines()`: CR LF is one end of a line, and the last end opens no line.
unfoldable pub splitlines : String → List String
unfolding ends_line starts_with_newline
splitlines String.[] = []
splitlines (String.◌∷◌ c text) =
    let rest = splitlines text in
    if nat_beq (code c) 13 && starts_with_newline text
    then rest
    else if ends_line c
    then "" ∷ rest
    else onto_first c rest

-- `text.split(separator)` for one character: there is always a first part.
unfoldable pub split_on : Char → String → List String
split_on separator String.[] = "" ∷ []
split_on separator (String.◌∷◌ c text) =
    let rest = split_on separator text in
    if nat_beq (code c) (code separator) then "" ∷ rest else onto_first c rest

-- The parts of a text between single spaces of any kind.
split_spaces : String → List String
unfolding is_space
split_spaces String.[] = "" ∷ []
split_spaces (String.◌∷◌ c text) =
    let rest = split_spaces text in if is_space c then "" ∷ rest else onto_first c rest

-- `text.split()`
unfoldable pub words : String → List String
unfolding split_spaces filter
words text = filter (λ part. not (is_empty part)) (split_spaces text)
