-- ===== src/Subscription/Cache.antt =====
-- The two cache slots of a remote profile (src/subscription.rs, `cache_slot_path`, `PreparedProfile`
-- and `load_profile_snapshot_from_slot`). A path is its directory and its last component.
pub mod Slots
use causeway.Prelude.{
  Bool, true, false, ◌&&◌, Option, none, some, List, [], ◌∷◌, ◌++◌, if◌then◌else◌,
}
use causeway.Prelude.Text.{Text, codes, text_eq, is_text}
use causeway.Prelude.Result.{Result, ok, err}
use causeway.Subscription.{Node}

pub record FilePath : Type 0 where
  pub parent : Text
  pub file_name : Option Text

abbrev pub same_name : Option Text → Option Text → Bool
same_name none none = true
same_name (some a) (some b) = text_eq a b
same_name none (some b) = false
same_name (some a) none = false

abbrev pub same_path : FilePath → FilePath → Bool
same_path p q = text_eq p.parent q.parent && same_name p.file_name q.file_name

-- The contents of the files.
abbrev pub Files : Type 0
Files = FilePath → Option Text

abbrev pub write : Files → FilePath → Text → Files
write files p body q = if same_path p q then some body else files q

abbrev pub cache_slot_a : Text
cache_slot_a = codes "a"

abbrev pub cache_slot_b : Text
cache_slot_b = codes "b"

suffix : Text → Option Text
suffix slot =
    if text_eq slot cache_slot_a
    then some (codes "causeway-a")
    else if text_eq slot cache_slot_b
    then some (codes "causeway-b")
    else none

suffixed : FilePath → Option Text → Option Text → Option FilePath
suffixed base none name = none
suffixed base (some s) none = none
suffixed base (some s) (some name) =
    some (record { parent = base.parent; file_name = some (name ++ (codes "." ++ s)) })

pub cache_slot_path : FilePath → Text → Option FilePath
unfolding suffix suffixed
cache_slot_path base slot = suffixed base (suffix slot) base.file_name

pub record PreparedProfile : Type 0 where
  pub nodes : List Node
  pub pending_cache : Option (FilePath × Text)
  pub committed_slot : Option Text

-- The slot that the state does not refer to.
pub next_slot : Option Text → Text
next_slot confirmed_slot =
    if is_text confirmed_slot cache_slot_a then cache_slot_b else cache_slot_a

-- `saved` is how `save_private_cache` ends; it replaces the file whole, or leaves it.
write_slot :
    PreparedProfile
    → Files
    → Bool
    → Text
    → Text
    → Option FilePath
    → Result (Unit {0}) (Option Text) × PreparedProfile × Files
write_slot p files saved next body none = (err tt, record p { pending_cache = none }, files)
write_slot p files saved next body (some path) =
    if saved
    then (
      ok (some next),
      record p { pending_cache = none; committed_slot = some next },
      write files path body,
    )
    else (err tt, p, files)

commit_pending :
    PreparedProfile
    → Files
    → Bool
    → Option Text
    → Option (FilePath × Text)
    → Result (Unit {0}) (Option Text) × PreparedProfile × Files
unfolding write_slot next_slot cache_slot_path
commit_pending p files saved confirmed_slot none = (ok none, p, files)
commit_pending p files saved confirmed_slot (some (base, body)) =
    let next = next_slot confirmed_slot in
    write_slot p files saved next body (cache_slot_path base next)

pub commit_cache_slot :
    PreparedProfile
    → Files
    → Bool
    → Option Text
    → Result (Unit {0}) (Option Text) × PreparedProfile × Files
unfolding commit_pending
commit_cache_slot p files saved confirmed_slot =
    commit_pending p files saved confirmed_slot p.pending_cache

-- The file that a remote profile with this cache path is loaded from.
pub snapshot_path : FilePath → Option Text → Option FilePath
unfolding cache_slot_path
snapshot_path base none = some base
snapshot_path base (some slot) = cache_slot_path base slot
