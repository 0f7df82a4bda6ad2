-- ===== src/Health/Target.antt =====
-- The targets of a health check (src/health.rs, `split_url`, `split_connect_target` and
-- `valid_target`). A URL is the list of its code points.
pub mod Authority
pub mod Http
use causeway.Prelude.{
  ℕ, ◌^◌, ◌≡◌, Bool, true, false, not, ◌&&◌, ◌||◌, Option, none, some, List, [], ◌∷◌, ◌++◌, any,
  ltb, leb, ◌==◌, if◌then◌else◌,
}
use causeway.Prelude.Text.{Text, codes}
use causeway.Prelude.Parse.{
  strip_prefix, contains, split_where, rsplit_once, starts_with, parse_uint,
}
use causeway.Prelude.Result.{Result, ok, err, ◌>>◌, guard}

pub data TargetError : Type 0 where
  not_http invalid_url : TargetError
  not_connect invalid_target bad_port zero_port no_host extra_colons : TargetError

-- `char::is_whitespace`, of Unicode.
is_whitespace : ℕ → Bool
is_whitespace c =
    leb 9 c && leb c 13
    || c == 32
    || c == 133
    || c == 160
    || c == 5760
    || leb 8192 c && leb c 8202
    || c == 8232
    || c == 8233
    || c == 8239
    || c == 8287
    || c == 12288

-- `char::is_control`, of Unicode.
is_control : ℕ → Bool
is_control c = ltb c 32 || leb 127 c && leb c 159

pub is_unprintable : ℕ → Bool
unfolding is_whitespace is_control
is_unprintable c = is_whitespace c || is_control c

abbrev pub is_path_start : ℕ → Bool
is_path_start c = c == b'/' || c == b'?'

abbrev or_root : Text → Text
or_root [] = codes "/"
or_root (c ∷ path) = c ∷ path

abbrev pub is_empty : Text → Bool
is_empty [] = true
is_empty (c ∷ t) = false

split_rest : Text → Option Text → Result TargetError (Text × Text)
unfolding contains split_where is_unprintable
split_rest url none = err not_http
split_rest url (some rest) =
    let (authority, path) = split_where is_path_start rest in
    if is_empty authority || contains b'@' authority || contains b'#' url || any is_unprintable url
    then err invalid_url
    else ok (authority, or_root path)

unfoldable pub split_url : Text → Result TargetError (Text × Text)
unfolding split_rest strip_prefix
split_url url = split_rest url (strip_prefix (codes "http://") url)

-- The checks of `host:port`, with the port as it parses.
checked_port : Text → Option ℕ → Result TargetError (Unit {0})
unfolding contains
checked_port host none = err bad_port
checked_port host (some port) =
    guard (not (port == 0)) zero_port
    >> guard (not (is_empty host)) no_host
    >> guard (not (contains b':' host)) extra_colons

-- An authority with a port stays; one without gets the port 443.
with_port : Text → Option (Text × Text) → Result TargetError Text
unfolding checked_port parse_uint
with_port rest none = ok (rest ++ codes ":443")
with_port rest (some (host, port)) = checked_port host (parse_uint 10 (2 ^ 16) port) >> ok rest

pub is_bad : ℕ → Bool
unfolding is_unprintable
is_bad c = is_path_start c || c == b'#' || c == b'@' || is_unprintable c

connect_rest : Option Text → Result TargetError Text
unfolding with_port is_bad rsplit_once
connect_rest none = err not_connect
connect_rest (some rest) =
    if is_empty rest || any is_bad rest
    then err invalid_target
    else with_port rest (rsplit_once b':' rest)

unfoldable pub split_connect_target : Text → Result TargetError Text
unfolding connect_rest strip_prefix
split_connect_target url = connect_rest (strip_prefix (codes "connect://") url)

abbrev is_ok : {E A : Type 0} → Result E A → Bool
is_ok (ok a) = true
is_ok (err e) = false

unfoldable pub valid_target : Text → Bool
unfolding split_url split_connect_target starts_with
valid_target url =
    if starts_with (codes "connect://") url
    then is_ok (split_connect_target url)
    else is_ok (split_url url)
