-- ===== src/Dashboard.antt =====
-- The dashboard's view of the daemon (src/switch.rs): which changes of the subscription it lets
-- through. The texts of its messages are left out.
pub mod Lock
use causeway.Prelude.{
  ℕ, ◌+◌, ◌-◌, ◌%◌, ◌^◌, min, Bool, true, false, not, ◌&&◌, ◌||◌, Option, none, some, List, [], ◌∷◌,
  ◌++◌, leb, length, drop, all, any, ltb, ◌==◌, is_some, if◌then◌else◌,
}
use causeway.Prelude.Text.{Text, codes, text_eq, is_text}
use causeway.Prelude.Parse.{starts_with}
use causeway.Prelude.Result.{Result, ok, err}
use causeway.Supervisor.Transaction.Daemon.{SubscriptionSwitchOutcome}

pub data MessageLevel : Type 0 where
  info success warning error : MessageLevel

pub record SubscriptionSummary : Type 0 where
  pub name : Text
  pub node_count : Option ℕ

-- The fields that an old daemon leaves out are optional.
pub record StatusSnapshot : Type 0 where
  pub active_subscription : Option Text
  pub subscription_generation : Option ℕ
  pub subscription_txn_in_progress : Option Bool
  pub available_subscriptions : List SubscriptionSummary

pub record SubscriptionOutcomeUnknown : Type 0 where
  pub previous : Text
  pub requested : Text
  pub subscription_generation_before_request : ℕ

pub data OfflineSubscription : Type 0 where
  persisted configured_default : Text → OfflineSubscription
  unavailable : OfflineSubscription

pub record SubscriptionPicker : Type 0 where
  pub entries : List SubscriptionSummary
  pub selected : ℕ
  pub url_edit : Option (List Text)  -- the characters, each by its bytes

pub record App : Type 0 where
  pub connected : Bool
  pub snapshot : Option StatusSnapshot
  pub subscription_outcome_unknown : Option SubscriptionOutcomeUnknown
  pub subscription_picker : Option SubscriptionPicker
  pub offline_subscription : OfflineSubscription
  pub fallback_subscriptions : List SubscriptionSummary
  pub message_level : MessageLevel

-- The reply to a change of the subscription, or a request that failed.
pub record Reply : Type 0 where
  pub is_ok : Bool
  pub subscription_switch : Option SubscriptionSwitchOutcome

abbrev is_empty : Text → Bool
is_empty [] = true
is_empty (c ∷ t) = false

abbrev has_entries : List SubscriptionSummary → Bool
has_entries [] = false
has_entries (e ∷ es) = true

pub authoritative_subscription_status : StatusSnapshot → Bool
authoritative_subscription_status snapshot = elim snapshot.active_subscription [
  | none ↦ false
  | some active ↦
      not (is_empty active)
      && is_some snapshot.subscription_generation
      && is_some snapshot.subscription_txn_in_progress
      && has_entries snapshot.available_subscriptions
      && all (λ (entry : SubscriptionSummary). not (is_empty entry.name))
          snapshot.available_subscriptions
      && any (λ (entry : SubscriptionSummary). text_eq entry.name active)
          snapshot.available_subscriptions
]

pub data SubscriptionReplyResult : Type 0 where
  succeeded : SubscriptionSwitchOutcome → SubscriptionReplyResult
  failed unknown : SubscriptionReplyResult

pub classify_subscription_reply : Option Reply → SubscriptionReplyResult
classify_subscription_reply none = unknown
classify_subscription_reply (some reply) =
    if reply.is_ok
    then elim reply.subscription_switch [ some outcome ↦ succeeded outcome | none ↦ unknown ]
    else failed

abbrev set_message : App → MessageLevel → App
set_message app level = record app { message_level = level }

pub apply_subscription_reply_result : App → SubscriptionReplyResult → Text → Text → ℕ → Bool × App
apply_subscription_reply_result app (succeeded outcome) previous requested generation =
    (true, set_message (record app { subscription_outcome_unknown = none }) success)
apply_subscription_reply_result app failed previous requested generation =
    (false, set_message app error)
apply_subscription_reply_result app unknown previous requested generation = (
  false,
  set_message
      (record app {
        subscription_outcome_unknown = some (record {
          previous = previous;
          requested = requested;
          subscription_generation_before_request = generation;
        });
      })
      warning,
)

-- Whether a status proves how the request ended.
settles : SubscriptionOutcomeUnknown → Option ℕ → Option Text → Bool
settles pending none active = false
settles pending (some generation) none = false
settles pending (some generation) (some active) =
    if text_eq active pending.requested
      && generation == (pending.subscription_generation_before_request + 1) % 2 ^ 64
    then true
    else text_eq active pending.previous
      && generation == pending.subscription_generation_before_request

is_settled : Option Bool → Bool
is_settled none = false
is_settled (some in_progress) = not in_progress

reconciled : App → StatusSnapshot → Option SubscriptionOutcomeUnknown → App
unfolding settles is_settled authoritative_subscription_status
reconciled app snapshot none = app
reconciled app snapshot (some pending) =
    if authoritative_subscription_status snapshot
      && is_settled snapshot.subscription_txn_in_progress
      && settles pending snapshot.subscription_generation snapshot.active_subscription
    then set_message (record app { subscription_outcome_unknown = none }) warning
    else app

pub reconcile_subscription_outcome : App → StatusSnapshot → App
unfolding reconciled
reconcile_subscription_outcome app snapshot =
    reconciled app snapshot app.subscription_outcome_unknown

authoritative : Bool → Option StatusSnapshot → Option StatusSnapshot
unfolding authoritative_subscription_status
authoritative connected none = none
authoritative connected (some snapshot) =
    if connected && authoritative_subscription_status snapshot then some snapshot else none

pub authoritative_subscription_snapshot : App → Option StatusSnapshot
unfolding authoritative
authoritative_subscription_snapshot app = authoritative app.connected app.snapshot

active_of : Option StatusSnapshot → Option Text
active_of none = none
active_of (some snapshot) = snapshot.active_subscription

pub authoritative_active_subscription : App → Option Text
unfolding active_of authoritative_subscription_snapshot
authoritative_active_subscription app = active_of (authoritative_subscription_snapshot app)

txn_settled : Option StatusSnapshot → Bool
unfolding is_settled
txn_settled none = false
txn_settled (some snapshot) = is_settled snapshot.subscription_txn_in_progress

pub subscription_mutation_allowed : App → Bool
unfolding authoritative_subscription_snapshot txn_settled
subscription_mutation_allowed app =
    is_some (authoritative_subscription_snapshot app)
    && txn_settled app.snapshot
    && not (is_some app.subscription_outcome_unknown)

-- A status that arrived, without the traffic rates and the order of the nodes.
unfoldable pub apply_live_snapshot : App → StatusSnapshot → App
unfolding reconcile_subscription_outcome
apply_live_snapshot app snapshot = record (reconcile_subscription_outcome app snapshot) {
  connected = true;
  snapshot = some snapshot;
}

pub data PickerAction : Type 0 where
  nothing close : PickerAction
  switch : Text → PickerAction

entry_at : List SubscriptionSummary → ℕ → Option Text
entry_at entries i = elim (drop i entries) [ [] ↦ none | e ∷ es ↦ some e.name ]

-- The keys that the picker knows; `char` has the bytes of the character.
pub data PickerKey : Type 0 where
  escape up down enter backspace : PickerKey
  char : Text → PickerKey

-- What the picker takes from outside: which profiles of `fallback_profiles` have a `url_file`, the
-- classes of `char`, and whether `write_subscription_url_atomic` succeeds.
pub record Editor : Type 0 where
  pub has_url_file : Text → Bool
  pub is_whitespace : Text → Bool
  pub is_control : Text → Bool
  pub writes : Text → Text → Bool

abbrev max_subscription_url_bytes : ℕ
max_subscription_url_bytes = 8192

abbrev concat : List Text → Text
concat [] = []
concat (c ∷ cs) = c ++ concat cs

trim_front : (Text → Bool) → List Text → List Text
trim_front space [] = []
trim_front space (c ∷ cs) = if space c then trim_front space cs else c ∷ cs

trim_back : (Text → Bool) → List Text → List Text
trim_back space [] = []
trim_back space (c ∷ cs) = elim (trim_back space cs) [
  | [] ↦ if space c then [] else c ∷ []
  | d ∷ ds ↦ c ∷ d ∷ ds
]

-- `buffer.pop()`
pop : List Text → List Text
pop [] = []
pop (c ∷ []) = []
pop (c ∷ d ∷ ds) = c ∷ pop (d ∷ ds)

validate_subscription_url : Editor → List Text → Bool
unfolding starts_with
validate_subscription_url ed chars =
    let url = concat chars in
    starts_with (codes "https://") url
    && ltb 8 (length url)
    && not (any (λ c. ed.is_whitespace c || ed.is_control c) chars)
    && leb (length url) max_subscription_url_bytes

enter_on : App → Option Text → PickerAction × App
unfolding authoritative_active_subscription subscription_mutation_allowed
enter_on app none = (nothing, app)
enter_on app (some name) =
    if is_text (authoritative_active_subscription app) name
    then (close, set_message app info)
    else if subscription_mutation_allowed app
    then (switch name, app)
    else (close, set_message app warning)

abbrev set_picker : App → SubscriptionPicker → App
set_picker app picker = record app { subscription_picker = some picker }

select_up : App → SubscriptionPicker → PickerAction × App
select_up app picker = (nothing, set_picker app (record picker { selected = picker.selected - 1 }))

select_down : App → SubscriptionPicker → PickerAction × App
select_down app picker = (
  nothing,
  set_picker app
      (record picker { selected = min (picker.selected + 1) (length picker.entries - 1) }),
)

-- The key `e`.
edit_on : Editor → App → SubscriptionPicker → Option Text → PickerAction × App
edit_on ed app picker none = (nothing, app)
edit_on ed app picker (some name) =
    if ed.has_url_file name
    then (nothing, set_message (set_picker app (record picker { url_edit = some [] })) info)
    else (nothing, set_message app warning)

on_char : Editor → App → SubscriptionPicker → Text → PickerAction × App
unfolding select_up select_down edit_on entry_at
on_char ed app picker c =
    if text_eq c (codes "q")
    then (close, record app { subscription_picker = none })
    else if text_eq c (codes "k")
    then select_up app picker
    else if text_eq c (codes "j")
    then select_down app picker
    else if text_eq c (codes "e")
    then edit_on ed app picker (entry_at picker.entries picker.selected)
    else (nothing, app)

on_key : Editor → App → SubscriptionPicker → PickerKey → PickerAction × App
unfolding enter_on entry_at select_up select_down on_char
on_key ed app picker escape = (close, record app { subscription_picker = none })
on_key ed app picker up = select_up app picker
on_key ed app picker down = select_down app picker
on_key ed app picker enter =
    enter_on (record app { subscription_picker = none }) (entry_at picker.entries picker.selected)
on_key ed app picker backspace = (nothing, app)
on_key ed app picker (char c) = on_char ed app picker c

-- `url` is trimmed, and the editor is closed already.
submit_on : Editor → App → List Text → Option Text → PickerAction × App
unfolding authoritative_active_subscription subscription_mutation_allowed validate_subscription_url
submit_on ed app url none = (nothing, app)
submit_on ed app url (some name) =
    if not (validate_subscription_url ed url)
    then (nothing, set_message app warning)
    else if not (ed.has_url_file name)
    then (nothing, set_message app warning)
    else if not (ed.writes name (concat url))
    then (nothing, set_message app warning)
    else if is_text (authoritative_active_subscription app) name
        && subscription_mutation_allowed app
    then (switch name, set_message (record app { subscription_picker = none }) info)
    else (nothing, set_message app success)

submit_url_edit : Editor → App → SubscriptionPicker → List Text → PickerAction × App
unfolding submit_on entry_at trim_front trim_back
submit_url_edit ed app picker buffer =
    submit_on ed (set_picker app (record picker { url_edit = none }))
      (trim_back ed.is_whitespace (trim_front ed.is_whitespace buffer))
      (entry_at picker.entries picker.selected)

url_edit_key : Editor → App → SubscriptionPicker → List Text → PickerKey → PickerAction × App
unfolding submit_url_edit pop
url_edit_key ed app picker buffer escape =
    (nothing, set_message (set_picker app (record picker { url_edit = none })) info)
url_edit_key ed app picker buffer enter = submit_url_edit ed app picker buffer
url_edit_key ed app picker buffer backspace =
    (nothing, set_picker app (record picker { url_edit = some (pop buffer) }))
url_edit_key ed app picker buffer (char c) =
    if not (ed.is_control c) && ltb (length (concat buffer)) max_subscription_url_bytes
    then (nothing, set_picker app (record picker { url_edit = some (buffer ++ (c ∷ [])) }))
    else (nothing, app)
url_edit_key ed app picker buffer up = (nothing, app)
url_edit_key ed app picker buffer down = (nothing, app)

in_picker : Editor → App → SubscriptionPicker → Option (List Text) → PickerKey → PickerAction × App
unfolding on_key url_edit_key
in_picker ed app picker none key = on_key ed app picker key
in_picker ed app picker (some buffer) key = url_edit_key ed app picker buffer key

with_picker : Editor → App → Option SubscriptionPicker → PickerKey → PickerAction × App
unfolding in_picker
with_picker ed app none key = (nothing, app)
with_picker ed app (some picker) key = in_picker ed app picker picker.url_edit key

unfoldable pub picker_key : Editor → App → PickerKey → PickerAction × App
unfolding with_picker
picker_key ed app key = with_picker ed app app.subscription_picker key
