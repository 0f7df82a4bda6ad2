-- ===== src/Peek.antt =====
-- First-byte classification (src/peek.rs).
use causeway.Prelude.{ℕ, ◌≤◌, ◌⊎◌, Bool, ◌&&◌, ◌||◌, leb, ◌==◌, if◌then◌else◌}

pub data InboundProto : Type 0 where
  socks5 http : InboundProto

pub data PeekError : Type 0 where
  eof timeout : PeekError
  unknown : ℕ → PeekError

pub data Classified : Type 0 where
  proto : InboundProto → Classified
  rejected : PeekError → Classified

-- `u8::is_ascii_alphabetic`
pub is_ascii_alphabetic : ℕ → Bool
is_ascii_alphabetic c = leb b'A' c && leb c b'Z' || leb b'a' c && leb c b'z'

unfoldable pub classify : ℕ → Classified
unfolding is_ascii_alphabetic
classify first =
    if first == 0x05
    then proto socks5
    else if is_ascii_alphabetic first
    then proto http
    else rejected (unknown first)

abbrev pub IsLetter : ℕ → Type 0
IsLetter c = ((b'A' ≤ c) × (c ≤ b'Z')) ⊎ ((b'a' ≤ c) × (c ≤ b'z'))
