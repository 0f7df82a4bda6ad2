-- ===== src/DataPlane/Workspace.antt =====
-- The clean-up of workspaces (src/dataplane.rs, `cleanup_stale_instances`,
-- `remove_strict_stale_instance` and `AdapterWorkspace::cleanup`). A directory is what the calls on
-- it return; `none` stands for a call that fails, or for a name that is not UTF-8.
pub mod Stale
pub mod Owned
use causeway.Prelude.{
  ℕ, ◌^◌, Bool, true, false, not, ◌&&◌, ◌||◌, Option, none, some, List, [], ◌∷◌, ◌++◌, length, all,
  any, drop, ltb, ◌==◌, is_some, if◌then◌else◌,
}
use causeway.Prelude.Text.{Text, codes, text_eq, is_text}
use causeway.Prelude.Parse.{strip_prefix, rsplit_once, trim_start, split_whitespace, parse_uint}
use causeway.Prelude.Result.{Result, ok, err}
use causeway.DataPlane.Identity.{
  ProcessIdentity, is_lower_hex, identity_from_instance_name, canonical, parse,
}

abbrev pub identity_file_name : Text
identity_file_name = codes "identity-v1"

strip_suffix : Text → Text → Option Text
strip_suffix suffix [] = if text_eq suffix [] then some [] else none
strip_suffix suffix (c ∷ cs) =
    let rest = strip_suffix suffix cs in
    if text_eq (c ∷ cs) suffix
    then some []
    else elim rest [ none ↦ none | some stem ↦ some (c ∷ stem) ]

split_once : ℕ → Text → Option (Text × Text)
split_once sep [] = none
split_once sep (c ∷ cs) =
    let rest = split_once sep cs in
    if c == sep
    then some ([], cs)
    else elim rest [ none ↦ none | some (before, after) ↦ some (c ∷ before, after) ]

-- The digits follow from the comparison with `to_string`.
is_credential : Option (Text × Text) → Bool
is_credential none = false
is_credential (some (pid, sequence)) =
    is_some (canonical (2 ^ 32) pid) && length sequence == 16 && all is_lower_hex sequence

after_adapter : Text → Option Text
unfolding strip_prefix
after_adapter stem = elim (strip_prefix (codes "sslocal-") stem) [
  | some rest ↦ some rest
  | none ↦ strip_prefix (codes "singbox-") stem
]

and_then : {A B : Type 0} → Option A → (A → Option B) → Option B
and_then none f = none
and_then (some a) f = f a

pub strict_credential_name : Text → Bool
unfolding is_credential after_adapter strip_suffix split_once and_then
strict_credential_name name =
    is_credential
      (and_then (and_then (strip_suffix (codes ".json") name) after_adapter) (split_once b'-'))

-- `symlink_metadata(path).file_type()`
pub data Kind : Type 0 where
  regular directory symlink other : Kind

abbrev pub is_regular : Option Kind → Bool
is_regular (some regular) = true
is_regular o = false

abbrev pub is_directory : Option Kind → Bool
is_directory (some directory) = true
is_directory o = false

-- An entry of an instance: a failed read, or a name and what it is.
pub record Item : Type 0 where
  pub name : Option Text
  pub kind : Option Kind

-- An entry of the directory of adapters, with what each look at it returns.
pub record Instance : Type 0 where
  pub name : Option Text
  pub kind : Option Kind
  pub marker_kind : Option Kind
  pub marker_len : ℕ
  pub marker : Option Text
  pub items : Option (List (Option Item))
  pub marker_again : Option Kind
  pub removes_file : Text → Bool
  pub removes_dir : Bool

-- The content of /proc/<pid>/stat.
pub data Stat : Type 0 where
  missing unreadable : Stat
  content : Text → Stat

nth : ℕ → List Text → Option Text
nth n ts = elim (drop n ts) [ [] ↦ none | t ∷ rest ↦ some t ]

pub parse_process_start_time : Text → Option ℕ
unfolding rsplit_once trim_start split_whitespace nth parse_uint and_then
parse_process_start_time stat =
    and_then (rsplit_once b')' stat)
      (λ parts. and_then (nth 19 (split_whitespace (trim_start parts.1))) (parse_uint 10 (2 ^ 64)))

pub read_process_start_time : Stat → Result (Unit {0}) (Option ℕ)
unfolding parse_process_start_time
read_process_start_time missing = ok none
read_process_start_time unreadable = err tt
read_process_start_time (content value) = elim (parse_process_start_time value) [
  | none ↦ err tt
  | some start_time ↦ ok (some start_time)
]

-- Whether the process is certainly not the one that runs.
dead_process : ProcessIdentity → Result (Unit {0}) (Option ℕ) → Bool
dead_process marker (ok none) = true
dead_process marker (ok (some start_time)) = not (start_time == marker.start_time)
dead_process marker (err e) = false

pub definitely_dead : (ℕ → Stat) → Text → ProcessIdentity → Bool
unfolding dead_process read_process_start_time
definitely_dead stat current_boot marker =
    not (text_eq marker.boot_id current_boot)
    || dead_process marker (read_process_start_time (stat marker.pid))

-- What the clean-up does: it removes a file of an instance, or the instance.
pub data Action : Type 0 where
  removed_file : Text → Text → Action
  removed_dir : Text → Action

-- One look through an instance: to be left alone, or its credential files.
strict_item : Option Item → Option (Text × Bool)
unfolding strict_credential_name
strict_item none = none
strict_item (some item) = elim item.name [
  | none ↦ none
  | some name ↦
      if (text_eq name identity_file_name || strict_credential_name name) && is_regular item.kind
      then some (name, text_eq name identity_file_name)
      else none
]

strict_items : List (Option Item) → Option (List Text × Bool)
unfolding strict_item
strict_items [] = some ([], false)
strict_items (item ∷ items) = elim (strict_item item) [
  | none ↦ none
  | some (name, is_marker) ↦ elim (strict_items items) [
    | none ↦ none
    | some (names, saw) ↦ some ((if is_marker then names else name ∷ names), is_marker || saw)
  ]
]

-- Removals in order; the first that fails ends them.
remove_files : Instance → Text → List Text → List Action × Bool
remove_files i dir [] = ([], true)
remove_files i dir (file ∷ files) =
    let (actions, done) = remove_files i dir files in
    if i.removes_file file then (removed_file dir file ∷ actions, done) else ([], false)

then_dir : Instance → Text → List Action × Bool → List Action
then_dir i dir (actions, true) =
    if i.removes_dir then actions ++ (removed_dir dir ∷ []) else actions
then_dir i dir (actions, false) = actions

remove_found : Instance → Text → Option (List Text × Bool) → List Action
unfolding remove_files then_dir
remove_found i dir none = []
remove_found i dir (some (names, saw_marker)) =
    if saw_marker && is_regular i.marker_again
    then then_dir i dir (remove_files i dir (names ++ (identity_file_name ∷ [])))
    else []

pub remove_strict_stale_instance : Instance → Text → List Action
unfolding remove_found strict_items and_then
remove_strict_stale_instance i dir = remove_found i dir (and_then i.items strict_items)

same_identity : ProcessIdentity → ProcessIdentity → Bool
same_identity a b = text_eq a.boot_id b.boot_id && a.pid == b.pid && a.start_time == b.start_time

marker_of : Instance → Option ProcessIdentity
unfolding and_then
marker_of i =
    if is_regular i.marker_kind && not (ltb 512 i.marker_len) then and_then i.marker parse else none

with_marker :
    (ℕ → Stat) → Text → Instance → Text → ProcessIdentity → Option ProcessIdentity → List Action
unfolding same_identity definitely_dead remove_strict_stale_instance
with_marker stat current_boot i dir named none = []
with_marker stat current_boot i dir named (some marker) =
    if same_identity marker named && definitely_dead stat current_boot marker
    then remove_strict_stale_instance i dir
    else []

with_identity : (ℕ → Stat) → Text → Instance → Text → Option ProcessIdentity → List Action
unfolding with_marker marker_of
with_identity stat current_boot i dir none = []
with_identity stat current_boot i dir (some named) =
    if is_directory i.kind then with_marker stat current_boot i dir named (marker_of i) else []

clean_named : (ℕ → Stat) → Text → Instance → Option Text → List Action
unfolding with_identity
clean_named stat current_boot i none = []
clean_named stat current_boot i (some dir) =
    with_identity stat current_boot i dir (identity_from_instance_name dir)

-- An entry that cannot be read is skipped. Without the boot id nothing is done.
pub cleanup_stale_instances : (ℕ → Stat) → Text → List (Option Instance) → List Action
unfolding clean_named
cleanup_stale_instances stat current_boot [] = []
cleanup_stale_instances stat current_boot (none ∷ entries) =
    cleanup_stale_instances stat current_boot entries
cleanup_stale_instances stat current_boot (some i ∷ entries) =
    clean_named stat current_boot i i.name ++ cleanup_stale_instances stat current_boot entries

-- `AdapterWorkspace`, of an instance `dir`: `cleaned` and what is looked at.
pub data Metadata : Type 0 where
  found : Kind → Metadata
  not_found failed : Metadata

pub data RemoveDir : Type 0 where
  removed absent refused : RemoveDir

abbrev pub is_removed : RemoveDir → Bool
is_removed removed = true
is_removed absent = false
is_removed refused = false

pub record AdapterWorkspace : Type 0 where
  pub instance_dir : Text
  pub metadata : Metadata
  pub items : Option (List (Option Item))
  pub removes_file : Text → Bool
  pub remove_dir : RemoveDir

-- The entries, if each is ours and a regular file.
pub removable : List (Option Item) → Option (List Text)
unfolding strict_item
removable [] = some []
removable (item ∷ items) = elim (strict_item item) [
  | none ↦ none
  | some (name, is_marker) ↦ elim (removable items) [
    | none ↦ none
    | some names ↦ some (name ∷ names)
  ]
]

-- The files that went, and whether all did.
remove_owned : AdapterWorkspace → List Text → List Action × Bool
remove_owned w [] = ([], true)
remove_owned w (file ∷ files) =
    let (actions, done) = remove_owned w files in
    if w.removes_file file then (removed_file w.instance_dir file ∷ actions, done) else ([], false)

finish : AdapterWorkspace → RemoveDir → List Action × Bool → List Action × Bool
finish w r (actions, false) = (actions, false)
finish w removed (actions, true) = (actions ++ (removed_dir w.instance_dir ∷ []), true)
finish w absent (actions, true) = (actions, true)
finish w refused (actions, true) = (actions, false)

clean_files : AdapterWorkspace → Option (List Text) → List Action × Bool
unfolding remove_owned finish
clean_files w none = ([], false)
clean_files w (some names) =
    if any (λ name. text_eq name identity_file_name) names
    then finish w w.remove_dir (remove_owned w names)
    else ([], false)

clean_found : AdapterWorkspace → Metadata → List Action × Bool
unfolding clean_files removable and_then
clean_found w not_found = ([], true)
clean_found w failed = ([], false)
clean_found w (found kind) =
    if is_directory (some kind) then clean_files w (and_then w.items removable) else ([], false)

-- What is done and whether the clean-up succeeded, which is what `cleaned` is afterwards.
pub cleanup : AdapterWorkspace → Bool → List Action × Bool
unfolding clean_found
cleanup w true = ([], true)
cleanup w false = clean_found w w.metadata
