-- ===== src/Subscription/Cache/Slots.antt =====
-- A commit of src/subscription.rs never touches the snapshot that the state refers to.
use causeway.Prelude.{◌≡◌, refl, Bool, true, false, Option, none, some, ◌++◌}
use causeway.Prelude.Text.{Text, codes, text_eq}
use causeway.Prelude.Result.{ok}
use causeway.Subscription.Cache.{
  FilePath, Files, PreparedProfile, next_slot, write_slot, commit_pending, commit_cache_slot,
  snapshot_path,
}

slot_file : FilePath → Text → Text → FilePath
slot_file base name ending = record {
  parent = base.parent;
  file_name = some (name ++ (codes "." ++ ending));
}

-- What a commit guarantees, of the slot that the state refers to.
abbrev pub Spares : PreparedProfile → Files → Bool → FilePath → Text → Text → Type 0
Spares p files saved base body slot =
    let (r, q, after) = commit_cache_slot p files saved (some slot) in
    (path : FilePath) × (snapshot_path base (some slot) ≡ some path)
    × (after path ≡ files path)
    × (saved ≡ true
        → (next : Text) × (new : FilePath) × (r ≡ ok (some next))
          × (q.committed_slot ≡ some next)
          × (text_eq next slot ≡ false)
          × (snapshot_path base (some next) ≡ some new)
          × (after new ≡ some body))

write_slot-nodes :
    (p : PreparedProfile) (files : Files) (saved : Bool) (next body : Text) (path : Option FilePath)
    → (write_slot p files saved next body path).1.nodes ≡ p.nodes
unfolding write_slot
write_slot-nodes p files saved next body none = refl
write_slot-nodes p files true next body (some path) = refl
write_slot-nodes p files false next body (some path) = refl

commit_pending-nodes :
    (p : PreparedProfile) (files : Files) (saved : Bool) (slot : Option Text)
    (pending : Option (FilePath × Text))
    → (commit_pending p files saved slot pending).1.nodes ≡ p.nodes
unfolding commit_pending
commit_pending-nodes p files saved slot none = refl
commit_pending-nodes p files saved slot (some (base, body)) =
    write_slot-nodes p files saved (next_slot slot) body _

pub commit_cache_slot-nodes :
    (p : PreparedProfile) (files : Files) (saved : Bool) (slot : Option Text)
    → (commit_cache_slot p files saved slot).1.nodes ≡ p.nodes
unfolding commit_cache_slot
commit_cache_slot-nodes p files saved slot = commit_pending-nodes p files saved slot p.pending_cache
