-- ===== src/DataPlane/Identity.antt =====
-- The identity of the process that owns a workspace, as a directory name and as a marker file
-- (src/dataplane.rs, `ProcessIdentity`, `strict_instance_name` and `identity_from_instance_name`).
pub mod Names
pub mod Marker
use causeway.Prelude.{
  ℕ, ◌+◌, ◌^◌, Bool, true, false, ◌&&◌, ◌||◌, Option, none, some, List, [], ◌∷◌, ◌++◌, length, take,
  drop, all, leb, ◌==◌, if◌then◌else◌,
}
use causeway.Prelude.Text.{Text, codes, text_eq}
use causeway.Prelude.Parse.{strip_prefix, lines, parse_uint}
use causeway.Prelude.Decimal.{to_string}
use causeway.Prelude.Split.{split}

abbrev pub instance_prefix : Text
instance_prefix = codes "causeway-instance-v1-"

pub record ProcessIdentity : Type 0 where
  pub boot_id : Text
  pub pid : ℕ
  pub start_time : ℕ

abbrev pub is_lower_hex : ℕ → Bool
is_lower_hex byte = leb b'0' byte && leb byte b'9' || leb b'a' byte && leb byte b'f'

boot_byte : ℕ → ℕ → Bool
boot_byte index byte =
    if index == 8 || index == 13 || index == 18 || index == 23
    then byte == b'-'
    else is_lower_hex byte

boot_bytes : ℕ → Text → Bool
unfolding boot_byte
boot_bytes index [] = true
boot_bytes index (byte ∷ bytes) = boot_byte index byte && boot_bytes (index + 1) bytes

unfoldable pub valid_boot_id : Text → Bool
unfolding boot_bytes boot_byte
valid_boot_id value = length value == 36 && boot_bytes 0 value

unfoldable pub valid_nonce : Text → Bool
valid_nonce nonce = length nonce == 32 && all is_lower_hex nonce

pub strict_instance_name : ProcessIdentity → Text → Text
unfolding to_string
strict_instance_name identity nonce_hex =
    instance_prefix
    ++ (identity.boot_id
        ++ (b'-'
            ∷ (to_string identity.pid
                ++ (b'-' ∷ (to_string identity.start_time ++ (b'-' ∷ nonce_hex))))))

-- A number below the limit that is written as `to_string` writes it.
pub canonical : ℕ → Text → Option ℕ
unfolding parse_uint to_string
canonical limit text = elim (parse_uint 10 limit text) [
  | none ↦ none
  | some n ↦ if text_eq (to_string n) text then some n else none
]

from_numbers : Text → Option ℕ → Option ℕ → Option ProcessIdentity
from_numbers boot_id (some pid) (some start_time) =
    some (record { boot_id = boot_id; pid = pid; start_time = start_time })
from_numbers boot_id (some pid) none = none
from_numbers boot_id none start_time = none

from_fields : Text → List Text → Option ProcessIdentity
unfolding canonical from_numbers valid_nonce
from_fields boot_id (pid ∷ start_time ∷ nonce ∷ []) =
    if valid_nonce nonce
    then from_numbers boot_id (canonical (2 ^ 32) pid) (canonical (2 ^ 64) start_time)
    else none
from_fields boot_id fields = none

from_tail : Text → Option Text → Option ProcessIdentity
unfolding from_fields split
from_tail boot_id none = none
from_tail boot_id (some tail) = from_fields boot_id (split b'-' tail)

-- A slice that would cut a character in two has a byte that no boot id has.
from_rest : Option Text → Option ProcessIdentity
unfolding valid_boot_id from_tail strip_prefix
from_rest none = none
from_rest (some rest) =
    let boot_id = take 36 rest in
    if valid_boot_id boot_id
    then from_tail boot_id (strip_prefix (codes "-") (drop 36 rest))
    else none

pub identity_from_instance_name : Text → Option ProcessIdentity
unfolding from_rest strip_prefix
identity_from_instance_name name = from_rest (strip_prefix instance_prefix name)

pub encode : ProcessIdentity → Text
unfolding to_string
encode identity =
    codes "schema=1"
    ++ (10 ∷ codes "boot_id="
        ++ (identity.boot_id
            ++ (10 ∷ codes "pid="
                ++ (to_string identity.pid
                    ++ (10 ∷ codes "start_time="
                        ++ (to_string identity.start_time ++ (10 ∷ [])))))))

field : Text → Text → Option Text
unfolding strip_prefix
field key line = strip_prefix key line

number_of : ℕ → Option Text → Option ℕ
unfolding parse_uint
number_of limit none = none
number_of limit (some text) = parse_uint 10 limit text

checked : Text → Option ProcessIdentity → Option ProcessIdentity
unfolding encode
checked value none = none
checked value (some identity) = if text_eq value (encode identity) then some identity else none

with_boot_id : Option Text → Option ℕ → Option ℕ → Option ProcessIdentity
unfolding valid_boot_id from_numbers
with_boot_id none pid start_time = none
with_boot_id (some boot_id) pid start_time =
    if valid_boot_id boot_id then from_numbers boot_id pid start_time else none

from_lines : Text → List Text → Option ProcessIdentity
unfolding checked with_boot_id field number_of
from_lines value (schema ∷ boot_id ∷ pid ∷ start_time ∷ []) =
    if text_eq schema (codes "schema=1")
    then checked value (
        with_boot_id (field (codes "boot_id=") boot_id)
          (number_of (2 ^ 32) (field (codes "pid=") pid))
          (number_of (2 ^ 64) (field (codes "start_time=") start_time)))
    else none
from_lines value others = none

pub parse : Text → Option ProcessIdentity
unfolding from_lines lines
parse value = from_lines value (lines value)
