-- ===== src/DataPlane/Workspace/Owned.antt =====
-- A daemon's clean-up of its own workspace (src/dataplane.rs, `AdapterWorkspace::cleanup`).
use causeway.Prelude.{
  ◌≡◌, ◌⊎◌, Bool, true, false, Option, some, List, [], ◌∷◌, ◌++◌, ◌&&◌, not, any,
}
use causeway.Prelude.Text.{Text, text_eq}
use causeway.DataPlane.Workspace.{
  identity_file_name, directory, Item, Action, removed_file, removed_dir, found, not_found,
  is_removed, absent, AdapterWorkspace, removable,
}

abbrev pub removals : AdapterWorkspace → List Text → List Action
removals w [] = []
removals w (name ∷ names) = removed_file w.instance_dir name ∷ removals w names

-- Whether the call for an action succeeds.
abbrev pub works : AdapterWorkspace → Action → Bool
works w (removed_file dir file) = w.removes_file file
works w (removed_dir dir) = is_removed w.remove_dir

abbrev pub all_work : AdapterWorkspace → List Action → Bool
all_work w [] = true
all_work w (x ∷ xs) = works w x && all_work w xs

-- What is left to do begins with a call that fails.
abbrev pub stuck : AdapterWorkspace → List Action → Bool
stuck w [] = false
stuck w (x ∷ xs) = not (works w x)

-- Every entry of the instance is a regular file with one of our names, the marker is there, and the
-- actions are the removal of those files in order and then of the directory, up to the first call
-- that fails; the clean-up succeeds if none failed, or if the directory was gone when its turn came.
pub record Swept (w : AdapterWorkspace) (actions : List Action) (done : Bool) : Type 0 where
  pub real : w.metadata ≡ found directory
  pub items : List (Option Item)
  pub listed : w.items ≡ some items
  pub names : List Text
  pub ours : removable items ≡ some names
  pub marked : any (λ name. text_eq name identity_file_name) names ≡ true
  pub undone : List Action
  pub in_order : actions ++ undone ≡ removals w names ++ (removed_dir w.instance_dir ∷ [])
  pub worked : all_work w actions ≡ true
  pub ended :
      ((undone ≡ []) × (done ≡ true))
      ⊎ ((undone ≡ removed_dir w.instance_dir ∷ []) × (w.remove_dir ≡ absent) × (done ≡ true))
      ⊎ ((stuck w undone ≡ true) × (done ≡ false))

-- Nothing is touched, and it succeeds only if there is nothing to do; or the instance is swept.
abbrev pub Careful : AdapterWorkspace → Bool → List Action × Bool → Type 0
Careful w cleaned (actions, done) =
    ((actions ≡ []) × (done ≡ true → (cleaned ≡ true) ⊎ (w.metadata ≡ not_found)))
    ⊎ Swept w actions done

-- How far the removal of the files comes.
abbrev Partway : AdapterWorkspace → List Text → List Action × Bool → Type 0
Partway w names (actions, done) =
    (undone : List Action) × (actions ++ undone ≡ removals w names)
    × (done ≡ true → undone ≡ [])
    × (done ≡ false → stuck w undone ≡ true)
    × (all_work w actions ≡ true)
