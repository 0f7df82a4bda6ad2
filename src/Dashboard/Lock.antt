-- ===== src/Dashboard/Lock.antt =====
-- After a reply was lost, no change of the subscription is sent until a status proves how the
-- request ended (src/switch.rs).
use causeway.Prelude.{
  ℕ, ◌+◌, ◌%◌, ◌^◌, ◌≡◌, refl, sym, subst, ap, ◌∙◌, ◌⊎◌, inl, inr, Bool, true, false, ◌&&◌, Option,
  none, some, List, [], ◌∷◌, ◌==◌, ==_iff, if◌then◌else◌, Bool-cases, Option-cases, arith,
}
use causeway.Prelude.Text.{Text, text_eq, text_eq_iff, is_text}
use causeway.Dashboard.{
  App, StatusSnapshot, SubscriptionOutcomeUnknown, SubscriptionPicker,
  authoritative_subscription_status, settles, is_settled, reconciled,
  reconcile_subscription_outcome, authoritative_active_subscription, subscription_mutation_allowed,
  apply_live_snapshot, switch, PickerKey, escape, up, down, enter, backspace, char, Editor,
  enter_on, entry_at, edit_on, select_up, select_down, on_char, on_key, trim_front, trim_back,
  submit_on, submit_url_edit, url_edit_key, in_picker, with_picker, picker_key,
}

-- What the dashboard meets after the request: keys in the picker and statuses.
pub data Input : Type 0 where
  pressed : PickerKey → Input
  arrived : StatusSnapshot → Input

unfoldable pub run : Editor → App → List Input → App
run ed app [] = app
run ed app (pressed key ∷ inputs) = run ed (picker_key ed app key).1 inputs
run ed app (arrived snapshot ∷ inputs) = run ed (apply_live_snapshot app snapshot) inputs

-- A coherent status with no transaction under way, in which the requested profile is active one
-- generation later, or the former one at the same generation.
pub record Proves (pending : SubscriptionOutcomeUnknown) (s : StatusSnapshot) : Type 0 where
  pub coherent : authoritative_subscription_status s ≡ true
  pub settled : s.subscription_txn_in_progress ≡ some false
  pub outcome :
      ((s.active_subscription ≡ some pending.requested)
        × (s.subscription_generation
            ≡ some ((pending.subscription_generation_before_request + 1) % 2 ^ 64)))
      ⊎ ((s.active_subscription ≡ some pending.previous)
          × (s.subscription_generation ≡ some pending.subscription_generation_before_request))

abbrev pub Among : StatusSnapshot → List Input → Type 0
Among s [] = ⊥
Among s (pressed key ∷ inputs) = Among s inputs
Among s (arrived t ∷ inputs) = (t ≡ s) ⊎ Among s inputs

otherwise : (c d : Bool) → c ≡ false → (if c then true else d) ≡ true → d ≡ true
otherwise true d e h = absurd cc
otherwise false d e h = h

settles-outcome :
    (pending : SubscriptionOutcomeUnknown) (g : Option ℕ) (a : Option Text)
    → settles pending g a ≡ true
    → ((a ≡ some pending.requested)
        × (g ≡ some ((pending.subscription_generation_before_request + 1) % 2 ^ 64)))
      ⊎ ((a ≡ some pending.previous) × (g ≡ some pending.subscription_generation_before_request))
unfolding settles
settles-outcome pending none a h = absurd cc
settles-outcome pending (some g) none h = absurd cc
settles-outcome pending (some g) (some a) h =
    let next = (pending.subscription_generation_before_request + 1) % 2 ^ 64 in
    elim (Bool-cases (text_eq a pending.requested && g == next)) [
      | inl e ↦ inl (
        ap some ((text_eq_iff a pending.requested).0 (ground arith)),
        ap some ((==_iff g next).0 (ground arith)),
      )
      | inr e ↦
          let k =
            otherwise (text_eq a pending.requested && g == next)
              (text_eq a pending.previous && g == pending.subscription_generation_before_request) e
              h in
          inr (
            ap some ((text_eq_iff a pending.previous).0 (ground arith)),
            ap some ((==_iff g pending.subscription_generation_before_request).0 (ground arith)),
          )
    ]

is_settled-false : (o : Option Bool) → is_settled o ≡ true → o ≡ some false
unfolding is_settled
is_settled-false none h = absurd cc
is_settled-false (some true) h = absurd cc
is_settled-false (some false) h = refl

-- A status keeps the lock or proves the outcome.
reconciled-lock :
    (app : App) (s : StatusSnapshot) (pending : SubscriptionOutcomeUnknown)
    → app.subscription_outcome_unknown ≡ some pending
    → ((reconciled app s (some pending)).subscription_outcome_unknown ≡ some pending)
      ⊎ Proves pending s
unfolding reconciled
reconciled-lock app s pending h =
    elim (Bool-cases (
      authoritative_subscription_status s
      && is_settled s.subscription_txn_in_progress
      && settles pending s.subscription_generation s.active_subscription)) [
        | inr e ↦ rw e (inl h)
        | inl e ↦ inr (record {
          coherent = ground arith;
          settled = is_settled-false s.subscription_txn_in_progress (ground arith);
          outcome =
              settles-outcome pending s.subscription_generation s.active_subscription
                (ground arith);
        })
      ]

apply_live_snapshot-lock :
    (app : App) (s : StatusSnapshot) (pending : SubscriptionOutcomeUnknown)
    → app.subscription_outcome_unknown ≡ some pending
    → ((apply_live_snapshot app s).subscription_outcome_unknown ≡ some pending) ⊎ Proves pending s
unfolding apply_live_snapshot reconcile_subscription_outcome
apply_live_snapshot-lock app s pending h =
    subst
      (λ o. ((reconciled app s o).subscription_outcome_unknown ≡ some pending) ⊎ Proves pending s)
      (sym h) (reconciled-lock app s pending h)

enter_on-lock :
    (app : App) (name : Option Text)
    → (enter_on app name).1.subscription_outcome_unknown ≡ app.subscription_outcome_unknown
unfolding enter_on
enter_on-lock app none = refl
enter_on-lock app (some name) =
    elim (Bool-cases (is_text (authoritative_active_subscription app) name)) [
      | inl e ↦ rw e refl
      | inr e ↦ elim (Bool-cases (subscription_mutation_allowed app)) [
        | inl f ↦ rw (e, f) refl
        | inr f ↦ rw (e, f) refl
      ]
    ]

submit_on-lock :
    (ed : Editor) (app : App) (url : List Text) (name : Option Text)
    → (submit_on ed app url name).1.subscription_outcome_unknown ≡ app.subscription_outcome_unknown
unfolding submit_on
submit_on-lock ed app url none = refl
submit_on-lock ed app url (some name) = ground arith

on_char-lock :
    (ed : Editor) (app : App) (picker : SubscriptionPicker) (c : Text)
    → (on_char ed app picker c).1.subscription_outcome_unknown ≡ app.subscription_outcome_unknown
unfolding on_char edit_on select_up select_down
on_char-lock ed app picker c = elim (Option-cases (entry_at picker.entries picker.selected)) [
  | inl e ↦ ground arith
  | inr (name, e) ↦ ground arith
]

on_key-lock :
    (ed : Editor) (app : App) (picker : SubscriptionPicker) (key : PickerKey)
    → (on_key ed app picker key).1.subscription_outcome_unknown ≡ app.subscription_outcome_unknown
unfolding on_key select_up select_down
on_key-lock ed app picker escape = refl
on_key-lock ed app picker up = refl
on_key-lock ed app picker down = refl
on_key-lock ed app picker backspace = refl
on_key-lock ed app picker (char c) = on_char-lock ed app picker c
on_key-lock ed app picker enter =
    enter_on-lock (record app { subscription_picker = none })
      (entry_at picker.entries picker.selected)

url_edit_key-lock :
    (ed : Editor) (app : App) (picker : SubscriptionPicker) (buffer : List Text) (key : PickerKey)
    → (url_edit_key ed app picker buffer key).1.subscription_outcome_unknown
      ≡ app.subscription_outcome_unknown
unfolding url_edit_key submit_url_edit
url_edit_key-lock ed app picker buffer escape = refl
url_edit_key-lock ed app picker buffer up = refl
url_edit_key-lock ed app picker buffer down = refl
url_edit_key-lock ed app picker buffer backspace = refl
url_edit_key-lock ed app picker buffer (char c) = ground arith
url_edit_key-lock ed app picker buffer enter =
    submit_on-lock ed
      (record app { subscription_picker = some (record picker { url_edit = none }) })
      (trim_back ed.is_whitespace (trim_front ed.is_whitespace buffer))
      (entry_at picker.entries picker.selected)

in_picker-lock :
    (ed : Editor) (app : App) (picker : SubscriptionPicker) (buffer : Option (List Text))
    (key : PickerKey)
    → (in_picker ed app picker buffer key).1.subscription_outcome_unknown
      ≡ app.subscription_outcome_unknown
unfolding in_picker
in_picker-lock ed app picker none key = on_key-lock ed app picker key
in_picker-lock ed app picker (some buffer) key = url_edit_key-lock ed app picker buffer key

with_picker-lock :
    (ed : Editor) (app : App) (p : Option SubscriptionPicker) (key : PickerKey)
    → (with_picker ed app p key).1.subscription_outcome_unknown ≡ app.subscription_outcome_unknown
unfolding with_picker
with_picker-lock ed app none key = refl
with_picker-lock ed app (some picker) key = in_picker-lock ed app picker picker.url_edit key

-- A key that sends a change meets no lock.
allowed-open :
    (app : App) → subscription_mutation_allowed app ≡ true → app.subscription_outcome_unknown ≡ none
unfolding subscription_mutation_allowed
allowed-open app h = elim (Option-cases app.subscription_outcome_unknown) [
  | inl e ↦ e
  | inr (u, e) ↦ absurd (ground arith)
]

enter_on-open :
    (app : App) (name : Option Text) (target : Text)
    → (enter_on app name).0 ≡ switch target
    → app.subscription_outcome_unknown ≡ none
unfolding enter_on subscription_mutation_allowed
enter_on-open app none target h = absurd cc
enter_on-open app (some name) target h =
    elim (Bool-cases (is_text (authoritative_active_subscription app) name)) [
      | inl e ↦ absurd (ground arith)
      | inr e ↦ elim (Bool-cases (subscription_mutation_allowed app)) [
        | inl f ↦ allowed-open app f
        | inr f ↦ absurd (ground arith)
      ]
    ]

submit_on-open :
    (ed : Editor) (app : App) (url : List Text) (name : Option Text) (target : Text)
    → (submit_on ed app url name).0 ≡ switch target
    → app.subscription_outcome_unknown ≡ none
unfolding submit_on
submit_on-open ed app url none target h = absurd cc
submit_on-open ed app url (some name) target h =
    elim (Bool-cases (subscription_mutation_allowed app)) [
      | inl f ↦ allowed-open app f
      | inr f ↦ absurd (ground arith)
    ]

on_char-open :
    (ed : Editor) (app : App) (picker : SubscriptionPicker) (c target : Text)
    → (on_char ed app picker c).0 ≡ switch target
    → app.subscription_outcome_unknown ≡ none
unfolding on_char edit_on select_up select_down
on_char-open ed app picker c target h =
    elim (Option-cases (entry_at picker.entries picker.selected)) [
      | inl e ↦ absurd (ground arith)
      | inr (name, e) ↦ absurd (ground arith)
    ]

on_key-open :
    (ed : Editor) (app : App) (picker : SubscriptionPicker) (key : PickerKey) (target : Text)
    → (on_key ed app picker key).0 ≡ switch target
    → app.subscription_outcome_unknown ≡ none
unfolding on_key select_up select_down
on_key-open ed app picker escape target h = absurd cc
on_key-open ed app picker up target h = absurd cc
on_key-open ed app picker down target h = absurd cc
on_key-open ed app picker backspace target h = absurd cc
on_key-open ed app picker (char c) target h = on_char-open ed app picker c target h
on_key-open ed app picker enter target h =
    enter_on-open (record app { subscription_picker = none })
      (entry_at picker.entries picker.selected) target h

url_edit_key-open :
    (ed : Editor) (app : App) (picker : SubscriptionPicker) (buffer : List Text) (key : PickerKey)
    (target : Text)
    → (url_edit_key ed app picker buffer key).0 ≡ switch target
    → app.subscription_outcome_unknown ≡ none
unfolding url_edit_key submit_url_edit
url_edit_key-open ed app picker buffer escape target h = absurd cc
url_edit_key-open ed app picker buffer up target h = absurd cc
url_edit_key-open ed app picker buffer down target h = absurd cc
url_edit_key-open ed app picker buffer backspace target h = absurd cc
url_edit_key-open ed app picker buffer (char c) target h = absurd (ground arith)
url_edit_key-open ed app picker buffer enter target h =
    submit_on-open ed
      (record app { subscription_picker = some (record picker { url_edit = none }) })
      (trim_back ed.is_whitespace (trim_front ed.is_whitespace buffer))
      (entry_at picker.entries picker.selected) target h

in_picker-open :
    (ed : Editor) (app : App) (picker : SubscriptionPicker) (buffer : Option (List Text))
    (key : PickerKey) (target : Text)
    → (in_picker ed app picker buffer key).0 ≡ switch target
    → app.subscription_outcome_unknown ≡ none
unfolding in_picker
in_picker-open ed app picker none key target h = on_key-open ed app picker key target h
in_picker-open ed app picker (some buffer) key target h =
    url_edit_key-open ed app picker buffer key target h

with_picker-open :
    (ed : Editor) (app : App) (p : Option SubscriptionPicker) (key : PickerKey) (target : Text)
    → (with_picker ed app p key).0 ≡ switch target
    → app.subscription_outcome_unknown ≡ none
unfolding with_picker
with_picker-open ed app none key target h = absurd cc
with_picker-open ed app (some picker) key target h =
    in_picker-open ed app picker picker.url_edit key target h

-- Through keys and statuses, the lock stays or a status among them proves the outcome.
run-lock :
    (ed : Editor) (inputs : List Input) (app : App) (pending : SubscriptionOutcomeUnknown)
    → app.subscription_outcome_unknown ≡ some pending
    → ((run ed app inputs).subscription_outcome_unknown ≡ some pending)
      ⊎ ((s : StatusSnapshot) × Among s inputs × Proves pending s)
unfolding run picker_key
run-lock ed [] app pending h = inl h
run-lock ed (pressed key ∷ inputs) app pending h =
    run-lock ed inputs (picker_key ed app key).1 pending
      (with_picker-lock ed app app.subscription_picker key ∙ h)
run-lock ed (arrived t ∷ inputs) app pending h = elim (apply_live_snapshot-lock app t pending h) [
  | inr p ↦ inr (t, inl refl, p)
  | inl k ↦ elim (run-lock ed inputs (apply_live_snapshot app t) pending k) [
    | inl l ↦ inl l
    | inr (s, m, p) ↦ inr (s, inr m, p)
  ]
]

-- If the outcome of a request is unknown, then a key that sends another change of the subscription,
-- after any keys and statuses, those of the URL editor included, comes after a status that is coherent, has no transaction under way,
-- and shows the requested profile one generation later or the former profile at the same generation.
pub picker_key-Proves :
    (ed : Editor) (app : App) (pending : SubscriptionOutcomeUnknown) (inputs : List Input)
    (key : PickerKey) (target : Text)
    → app.subscription_outcome_unknown ≡ some pending
    → (picker_key ed (run ed app inputs) key).0 ≡ switch target
    → (s : StatusSnapshot) × Among s inputs × Proves pending s
unfolding picker_key
picker_key-Proves ed app pending inputs key target h k = elim (run-lock ed inputs app pending h) [
  | inr found ↦ found
  | inl locked ↦
      let free =
        with_picker-open ed (run ed app inputs) (run ed app inputs).subscription_picker key target
          k in
      absurd cc
]
