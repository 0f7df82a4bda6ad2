-- ===== src/Prelude/Parse.antt =====
-- The string functions of Rust's standard library that the program calls, on bytes. Whitespace is
-- the ASCII one: the texts are those of /proc, status lines and URLs.
pub mod Lines
use causeway.Prelude.Tests.{ltb, leb, ◌==◌, if◌then◌else◌}
use causeway.Prelude.Text.{Text}
use Prim.Native.Nat.{ℕ, ◌+◌, ◌-◌, ◌*◌}
use mathlib.Core.Bool.{Bool, true, false, ◌&&◌, ◌||◌}
use mathlib.Core.List.{List, [], ◌∷◌, map}
use mathlib.Core.Option.{Option, none, some}

-- `char::is_whitespace`
pub is_whitespace : ℕ → Bool
is_whitespace c = leb 9 c && leb c 13 || c == 32

-- `char::is_control`
pub is_control : ℕ → Bool
is_control c = ltb c 32 || c == 127

unfoldable pub to_ascii_lowercase : Text → Text
to_ascii_lowercase = map (λ c. if leb b'A' c && leb c b'Z' then c + 32 else c)

-- The first line and the rest, with the separator dropped.
abbrev pub grow : ℕ → List Text → List Text
grow c [] = (c ∷ []) ∷ []
grow c (l ∷ ls) = (c ∷ l) ∷ ls

-- `text.split('\n')`: one part more than there are newlines.
abbrev split_newline : Text → List Text
split_newline [] = [] ∷ []
split_newline (c ∷ cs) = let rest = split_newline cs in if c == 10 then [] ∷ rest else grow c rest

abbrev strip_cr : Text → Text
strip_cr [] = []
strip_cr (c ∷ []) = if c == 13 then [] else c ∷ []
strip_cr (c ∷ d ∷ cs) = c ∷ strip_cr (d ∷ cs)

abbrev drop_last_empty : List Text → List Text
drop_last_empty [] = []
drop_last_empty ([] ∷ []) = []
drop_last_empty (l ∷ ls) = strip_cr l ∷ drop_last_empty ls

-- `text.lines()`
unfoldable pub lines : Text → List Text
lines t = drop_last_empty (split_newline t)

abbrev nonempty : List Text → List Text
nonempty [] = []
nonempty ([] ∷ ts) = nonempty ts
nonempty ((c ∷ cs) ∷ ts) = (c ∷ cs) ∷ nonempty ts

abbrev split_space : Text → List Text
split_space [] = [] ∷ []
split_space (c ∷ cs) =
    let rest = split_space cs in if leb 9 c && leb c 13 || c == 32 then [] ∷ rest else grow c rest

-- `text.split_whitespace()`
unfoldable pub split_whitespace : Text → List Text
split_whitespace t = nonempty (split_space t)

-- The value of a digit, or a number past every radix.
abbrev pub digit : ℕ → ℕ
digit c =
    if leb b'0' c && leb c b'9'
    then c - b'0'
    else if leb b'a' c && leb c b'z'
    then c - b'a' + 10
    else if leb b'A' c && leb c b'Z'
    then c - b'A' + 10
    else 99

-- The value of the digits after `acc`, refused once it reaches the limit.
unfoldable pub digits_from : ℕ → ℕ → ℕ → Text → Option ℕ
digits_from radix limit acc [] = some acc
digits_from radix limit acc (c ∷ cs) =
    let next = acc * radix + digit c in
    let rest = digits_from radix limit next cs in
    if ltb (digit c) radix && ltb next limit then rest else none

abbrev pub some_digits : ℕ → ℕ → Text → Option ℕ
some_digits radix limit [] = none
some_digits radix limit (c ∷ cs) = digits_from radix limit 0 (c ∷ cs)

-- `uN::from_str_radix` and, at radix 10, `str::parse::<uN>`, for the values below `limit`.
unfoldable pub parse_uint : ℕ → ℕ → Text → Option ℕ
unfolding digits_from
parse_uint radix limit [] = none
parse_uint radix limit (c ∷ cs) =
    if c == b'+' then some_digits radix limit cs else some_digits radix limit (c ∷ cs)

-- `text.strip_prefix(p)`
unfoldable pub strip_prefix : Text → Text → Option Text
strip_prefix [] t = some t
strip_prefix (p ∷ ps) [] = none
strip_prefix (p ∷ ps) (c ∷ cs) = if p == c then strip_prefix ps cs else none

-- `text.contains(c)`
unfoldable pub contains : ℕ → Text → Bool
contains c [] = false
contains c (d ∷ ds) = d == c || contains c ds

-- The part before the first byte that passes the test, and the part from it on.
unfoldable pub split_where : (ℕ → Bool) → Text → Text × Text
split_where p [] = ([], [])
split_where p (c ∷ cs) =
    let (before, from) = split_where p cs in if p c then ([], c ∷ cs) else (c ∷ before, from)

-- `text.rsplit_once(c)`
unfoldable pub rsplit_once : ℕ → Text → Option (Text × Text)
rsplit_once c [] = none
rsplit_once c (d ∷ ds) = elim (rsplit_once c ds) [
  | some (before, after) ↦ some (d ∷ before, after)
  | none ↦ if d == c then some ([], ds) else none
]

unfoldable pub trim_start : Text → Text
unfolding is_whitespace
trim_start [] = []
trim_start (c ∷ cs) = if is_whitespace c then trim_start cs else c ∷ cs

unfoldable pub trim_end : Text → Text
unfolding is_whitespace
trim_end [] = []
trim_end (c ∷ cs) = elim (trim_end cs) [
  | [] ↦ if is_whitespace c then [] else c ∷ []
  | d ∷ ds ↦ c ∷ d ∷ ds
]

-- `text.trim()`
unfoldable pub trim : Text → Text
unfolding trim_start trim_end
trim t = trim_end (trim_start t)

-- Whether the text begins with `p`.
unfoldable pub starts_with : Text → Text → Bool
starts_with [] t = true
starts_with (p ∷ ps) [] = false
starts_with (p ∷ ps) (c ∷ cs) = p == c && starts_with ps cs

-- `text.contains(p)` for a text `p`.
unfoldable pub contains_text : Text → Text → Bool
unfolding starts_with
contains_text p [] = starts_with p []
contains_text p (c ∷ cs) = starts_with p (c ∷ cs) || contains_text p cs
