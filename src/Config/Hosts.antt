-- ===== src/Config/Hosts.antt =====
-- The hosts that go out directly (src/config.rs, `canonical_direct_host`,
-- `deserialize_direct_hosts` and `RoutingConfig::validate`).
pub mod Canonical
pub mod Plain
use causeway.Prelude.{
  ℕ, Bool, true, false, not, ◌&&◌, ◌||◌, Option, none, some, List, [], ◌∷◌, ◌++◌, length, all, any,
  ltb, leb, ◌==◌, if◌then◌else◌,
}
use causeway.Prelude.Text.{Text, text_eq}
use causeway.Prelude.Parse.{contains, to_ascii_lowercase}
use causeway.Prelude.Split.{split}
use causeway.Prelude.Result.{Result, ok, err, ◌>>=◌, ◌>>◌, guard}

pub data HostError : Type 0 where
  empty_host not_ascii too_long ip_literal no_dot numeric : HostError
  empty_label long_label label_ends label_bytes : HostError
  duplicate not_canonical : HostError

abbrev is_digit : ℕ → Bool
is_digit c = leb b'0' c && leb c b'9'

abbrev pub is_alphanumeric : ℕ → Bool
is_alphanumeric c = is_digit c || leb b'a' c && leb c b'z' || leb b'A' c && leb c b'Z'

last_byte : ℕ → Text → ℕ
last_byte c [] = c
last_byte c (d ∷ ds) = last_byte d ds

abbrev is_label_byte : ℕ → Bool
is_label_byte c = is_alphanumeric c || c == b'-'

check_label : Text → Result HostError (Unit {0})
unfolding last_byte
check_label [] = err empty_label
check_label (c ∷ cs) =
    guard (leb (length (c ∷ cs)) 63) long_label
    >> guard (is_alphanumeric c && is_alphanumeric (last_byte c cs)) label_ends
    >> guard (all is_label_byte (c ∷ cs)) label_bytes

check_labels : List Text → Result HostError (Unit {0})
unfolding check_label
check_labels [] = ok tt
check_labels (label ∷ labels) = check_label label >> check_labels labels

abbrev is_empty : Text → Bool
is_empty [] = true
is_empty (c ∷ cs) = false

-- `is_ip` is `value.parse::<IpAddr>().is_ok()`.
host_checks : (Text → Bool) → Text → Result HostError (Unit {0})
unfolding check_labels contains split
host_checks is_ip value =
    guard (not (is_empty value)) empty_host
    >> guard (all (λ c. ltb c 128) value) not_ascii
    >> guard (leb (length value) 253) too_long
    >> guard (not (is_ip value)) ip_literal
    >> guard (contains b'.' value) no_dot
    >> guard (not (all (all is_digit) (split b'.' value))) numeric
    >> check_labels (split b'.' value)

pub canonical_direct_host : (Text → Bool) → Text → Result HostError Text
unfolding host_checks to_ascii_lowercase
canonical_direct_host is_ip value = host_checks is_ip value >> ok (to_ascii_lowercase value)

abbrev listed : List Text → Text → Bool
listed seen host = any (λ other. text_eq other host) seen

-- `seen` holds the hosts so far.
read_hosts : (Text → Bool) → List Text → List Text → Result HostError (List Text)
unfolding canonical_direct_host
read_hosts is_ip seen [] = ok []
read_hosts is_ip seen (configured ∷ rest) = canonical_direct_host is_ip configured >>= λ host.
    guard (not (listed seen host)) duplicate
    >> (read_hosts is_ip (host ∷ seen) rest >>= λ hosts. ok (host ∷ hosts))

unfoldable pub deserialize_direct_hosts : (Text → Bool) → List Text → Result HostError (List Text)
unfolding read_hosts
deserialize_direct_hosts is_ip configured = read_hosts is_ip [] configured

check_hosts : (Text → Bool) → List Text → List Text → Result HostError (Unit {0})
unfolding canonical_direct_host
check_hosts is_ip seen [] = ok tt
check_hosts is_ip seen (host ∷ rest) = canonical_direct_host is_ip host >>= λ canonical.
    guard (text_eq canonical host) not_canonical
    >> guard (not (listed seen canonical)) duplicate
    >> check_hosts is_ip (canonical ∷ seen) rest

-- `RoutingConfig::validate`
unfoldable pub validate : (Text → Bool) → List Text → Result HostError (Unit {0})
unfolding check_hosts
validate is_ip direct_hosts = check_hosts is_ip [] direct_hosts
