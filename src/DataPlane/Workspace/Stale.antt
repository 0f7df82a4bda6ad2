-- ===== src/DataPlane/Workspace/Stale.antt =====
-- The clean-up of src/dataplane.rs removes only what processes that are gone have left.
use causeway.Prelude.{
  ℕ, ◌≡◌, ◌≢◌, refl, sym, subst, ap, ◌∙◌, ◌⊎◌, inl, inr, Bool, true, false, ◌&&◌, ◌||◌, Option,
  none, some, List, [], ◌∷◌, ◌++◌, ==_iff, if◌then◌else◌, Bool-cases, Option-cases, arith,
}
use causeway.Prelude.Text.{Text, text_eq, text_eq_iff, text_eq_refl}
use causeway.DataPlane.Identity.{ProcessIdentity, strict_instance_name, identity_from_instance_name}
use causeway.DataPlane.Identity.Names.{identity_from_instance_name-strict_instance_name}
use causeway.DataPlane.Workspace.{
  identity_file_name, strict_credential_name, is_regular, is_directory, Item, Instance, Stat,
  missing, unreadable, content, parse_process_start_time, read_process_start_time, dead_process,
  definitely_dead, Action, removed_file, removed_dir, strict_item, strict_items, remove_files,
  then_dir, remove_found, remove_strict_stale_instance, same_identity, marker_of, with_marker,
  with_identity, clean_named, cleanup_stale_instances, and_then,
}

-- The process of the identity does not run: another boot, no such process, or one that started at
-- another time.
abbrev pub Gone : (ℕ → Stat) → Text → ProcessIdentity → Type 0
Gone stat current_boot identity =
    (identity.boot_id ≢ current_boot)
    ⊎ ((stat identity.pid ≡ missing)
        ⊎ ((value : Text) × (start_time : ℕ) × (stat identity.pid ≡ content value)
            × (parse_process_start_time value ≡ some start_time)
            × (start_time ≢ identity.start_time)))

-- The directory is an instance of a process that is gone.
abbrev pub Orphan : (ℕ → Stat) → Text → Text → Type 0
Orphan stat current_boot dir =
    (identity : ProcessIdentity) × (nonce : Text) × (dir ≡ strict_instance_name identity nonce)
    × Gone stat current_boot identity

abbrev pub is_ours : Text → Bool
is_ours file = text_eq file identity_file_name || strict_credential_name file

-- A removal that is called for.
abbrev pub Justified : (ℕ → Stat) → Text → Action → Type 0
Justified stat current_boot (removed_file dir file) =
    Orphan stat current_boot dir × (is_ours file ≡ true)
Justified stat current_boot (removed_dir dir) = Orphan stat current_boot dir

abbrev pub AllJustified : (ℕ → Stat) → Text → List Action → Type 0
AllJustified stat current_boot [] = Unit {0}
AllJustified stat current_boot (a ∷ actions) =
    Justified stat current_boot a × AllJustified stat current_boot actions

AllJustified-append :
    (stat : ℕ → Stat) (b : Text) (xs ys : List Action)
    → AllJustified stat b xs
    → AllJustified stat b ys
    → AllJustified stat b (xs ++ ys)
AllJustified-append stat b [] ys h k = k
AllJustified-append stat b (x ∷ xs) ys (h, hs) k = (h, AllJustified-append stat b xs ys hs k)

by_stat :
    (stat : ℕ → Stat) (b : Text) (identity : ProcessIdentity) (s : Stat)
    → stat identity.pid ≡ s
    → dead_process identity (read_process_start_time s) ≡ true
    → Gone stat b identity
unfolding dead_process read_process_start_time
by_stat stat b identity missing e h = inr (inl e)
by_stat stat b identity unreadable e h = absurd cc
by_stat stat b identity (content value) e h = elim (Option-cases (parse_process_start_time value)) [
  | inl f ↦ absurd (ground arith)
  | inr (t, f) ↦ inr (inr (value, t, e, f, (λ same. absurd (ground arith))))
]

definitely_dead-Gone :
    (stat : ℕ → Stat) (b : Text) (identity : ProcessIdentity)
    → definitely_dead stat b identity ≡ true
    → Gone stat b identity
unfolding definitely_dead
definitely_dead-Gone stat b identity h = elim (Bool-cases (text_eq identity.boot_id b)) [
  | inr e ↦ inl (λ same. absurd (let k = (text_eq_iff identity.boot_id b).1 same in ground arith))
  | inl e ↦ by_stat stat b identity (stat identity.pid) refl (ground arith)
]

same_identity-eq : (a b : ProcessIdentity) → same_identity a b ≡ true → a ≡ b
unfolding same_identity
same_identity-eq a b h =
    let boot = (text_eq_iff a.boot_id b.boot_id).0 (ground arith) in
    let pid = (==_iff a.pid b.pid).0 (ground arith) in
    let start = (==_iff a.start_time b.start_time).0 (ground arith) in
    ap (λ x. record { boot_id = x; pid = a.pid; start_time = a.start_time }) boot
    ∙ ap (λ x. record { boot_id = b.boot_id; pid = x; start_time = a.start_time }) pid
    ∙ ap (λ x. record { boot_id = b.boot_id; pid = b.pid; start_time = x }) start

abbrev all_ours : List Text → Bool
all_ours [] = true
all_ours (f ∷ fs) = is_ours f && all_ours fs

all_ours-snoc :
    (fs : List Text) → all_ours fs ≡ true → all_ours (fs ++ (identity_file_name ∷ [])) ≡ true
all_ours-snoc [] h = ground (arith, text_eq_refl identity_file_name)
all_ours-snoc (f ∷ fs) h = ground (arith, all_ours-snoc fs)

abbrev names_of : Option (List Text × Bool) → List Text
names_of none = []
names_of (some (names, saw)) = names

strict_item-ours :
    (item : Option Item) (name : Text) (m : Bool)
    → strict_item item ≡ some (name, m)
    → is_ours name ≡ true
unfolding strict_item
strict_item-ours none name m h = absurd cc
strict_item-ours (some item) name m h = elim (Option-cases item.name) [
  | inl e ↦ absurd (ground arith)
  | inr (n, e) ↦ elim (Bool-cases (is_ours n && is_regular item.kind)) [
    | inr f ↦ absurd (ground arith)
    | inl f ↦ let same : n ≡ name = ground arith in ap is_ours (sym same) ∙ ground arith
  ]
]

kept :
    (name : Text) (m : Bool) (rest : List Text) (seen : Bool) (names : List Text) (saw : Bool)
    → is_ours name ≡ true
    → all_ours rest ≡ true
    → ◌≡◌ {A = Option (List Text × Bool)}
        (some ((if m then rest else name ∷ rest), seen))
        (some (names, saw))
    → all_ours names ≡ true
kept name true rest seen names saw h k e = ap (λ o. all_ours (names_of o)) (sym e) ∙ k
kept name false rest seen names saw h k e = ap (λ o. all_ours (names_of o)) (sym e) ∙ ground arith

strict_items-ours :
    (items : List (Option Item)) (names : List Text) (saw : Bool)
    → strict_items items ≡ some (names, saw)
    → all_ours names ≡ true
unfolding strict_items
strict_items-ours [] names saw h = ap (λ o. all_ours (names_of o)) (sym h)
strict_items-ours (item ∷ items) names saw h = elim (Option-cases (strict_item item)) [
  | inl e ↦ absurd (ground arith)
  | inr ((name, m), e) ↦ elim (Option-cases (strict_items items)) [
    | inl f ↦ absurd (ground arith)
    | inr ((rest, seen), f) ↦
        let here = strict_item-ours item name m e in
        let there = strict_items-ours items rest seen f in
        kept name m rest (m || seen) names saw here there (rw (e, f, strict_items) refl ∙ h)
  ]
]

remove_files-Justified :
    (stat : ℕ → Stat) (b : Text) (i : Instance) (dir : Text) (files : List Text)
    → Orphan stat b dir
    → all_ours files ≡ true
    → AllJustified stat b (remove_files i dir files).0
unfolding remove_files
remove_files-Justified stat b i dir [] o h = tt
remove_files-Justified stat b i dir (f ∷ files) o h = elim (Bool-cases (i.removes_file f)) [
  | inr e ↦ rw e tt
  | inl e ↦ rw e ((o, ground arith), remove_files-Justified stat b i dir files o (ground arith))
]

then_dir-Justified :
    (stat : ℕ → Stat) (b : Text) (i : Instance) (dir : Text) (r : List Action × Bool)
    → Orphan stat b dir
    → AllJustified stat b r.0
    → AllJustified stat b (then_dir i dir r)
unfolding then_dir
then_dir-Justified stat b i dir (actions, false) o h = h
then_dir-Justified stat b i dir (actions, true) o h = elim (Bool-cases i.removes_dir) [
  | inr e ↦ rw e h
  | inl e ↦ rw e (AllJustified-append stat b actions (removed_dir dir ∷ []) h (o, tt))
]

remove_found-Justified :
    (stat : ℕ → Stat) (b : Text) (i : Instance) (dir : Text) (found : Option (List Text × Bool))
    → Orphan stat b dir
    → all_ours (names_of found) ≡ true
    → AllJustified stat b (remove_found i dir found)
unfolding remove_found
remove_found-Justified stat b i dir none o h = tt
remove_found-Justified stat b i dir (some (names, saw)) o h =
    let files = names ++ (identity_file_name ∷ []) in
    elim (Bool-cases (saw && is_regular i.marker_again)) [
      | inr e ↦ rw e tt
      | inl e ↦ rw e (
          then_dir-Justified stat b i dir (remove_files i dir files) o
            (remove_files-Justified stat b i dir files o (all_ours-snoc names h)))
    ]

looked-ours :
    (items : Option (List (Option Item))) → all_ours (names_of (and_then items strict_items)) ≡ true
unfolding and_then
looked-ours none = refl
looked-ours (some items) = elim (Option-cases (strict_items items)) [
  | inl e ↦ ap (λ o. all_ours (names_of o)) e
  | inr ((names, saw), e) ↦ ap (λ o. all_ours (names_of o)) e ∙ strict_items-ours items names saw e
]

with_marker-Justified :
    (stat : ℕ → Stat) (b : Text) (i : Instance) (dir : Text) (named : ProcessIdentity)
    (marker : Option ProcessIdentity)
    → identity_from_instance_name dir ≡ some named
    → AllJustified stat b (with_marker stat b i dir named marker)
unfolding with_marker remove_strict_stale_instance
with_marker-Justified stat b i dir named none h = tt
with_marker-Justified stat b i dir named (some marker) h =
    elim (Bool-cases (same_identity marker named && definitely_dead stat b marker)) [
      | inr e ↦ rw e tt
      | inl e ↦
          let same = same_identity-eq marker named (ground arith) in
          let q = (identity_from_instance_name-strict_instance_name named).1 dir h in
          let gone = definitely_dead-Gone stat b marker (ground arith) in
          rw e (
            remove_found-Justified stat b i dir (and_then i.items strict_items)
              (named, q.0, q.1, subst (Gone stat b) same gone) (looked-ours i.items))
    ]

with_identity-Justified :
    (stat : ℕ → Stat) (b : Text) (i : Instance) (dir : Text) (o : Option ProcessIdentity)
    → identity_from_instance_name dir ≡ o
    → AllJustified stat b (with_identity stat b i dir o)
unfolding with_identity
with_identity-Justified stat b i dir none h = tt
with_identity-Justified stat b i dir (some named) h = elim (Bool-cases (is_directory i.kind)) [
  | inr e ↦ rw e tt
  | inl e ↦ rw e (with_marker-Justified stat b i dir named (marker_of i) h)
]

clean_named-Justified :
    (stat : ℕ → Stat) (b : Text) (i : Instance) (name : Option Text)
    → AllJustified stat b (clean_named stat b i name)
unfolding clean_named
clean_named-Justified stat b i none = tt
clean_named-Justified stat b i (some dir) =
    with_identity-Justified stat b i dir (identity_from_instance_name dir) refl

-- Each removal of the clean-up concerns a directory that `strict_instance_name` named for a process
-- that does not run, in this boot or at all; and each file that is removed is a marker or has the
-- strict name of a credential file.
pub cleanup_stale_instances-Justified :
    (stat : ℕ → Stat) (current_boot : Text) (entries : List (Option Instance))
    → AllJustified stat current_boot (cleanup_stale_instances stat current_boot entries)
unfolding cleanup_stale_instances
cleanup_stale_instances-Justified stat b [] = tt
cleanup_stale_instances-Justified stat b (none ∷ entries) =
    cleanup_stale_instances-Justified stat b entries
cleanup_stale_instances-Justified stat b (some i ∷ entries) =
    AllJustified-append stat b (clean_named stat b i i.name)
      (cleanup_stale_instances stat b entries) (clean_named-Justified stat b i i.name)
      (cleanup_stale_instances-Justified stat b entries)
