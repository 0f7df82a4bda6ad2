-- ===== src/Tests/Persisted.antt =====
-- The theorems on the state file at a concrete state.
use causeway.Prelude.{◌≡◌, refl, true, false, none, some, [], find}
use causeway.Prelude.Text.{Text, text_cmp}
use causeway.Prelude.Result.{ok}
use causeway.State.Persist.{durable, contents, bad_slot, Calls, Disk, load, save_atomic}
use causeway.State.Persist.Atomic.{Replaces, save_atomic-Replaces}
use causeway.State.Persist.Roundtrip.{all_exact_always, load-save_atomic}
use causeway.Tests.Sources.{stored, stored-IsSingle}
use causeway.Tests.Codec.{codec, codec-ReadsBack}

abbrev calls : Calls
calls = record {
  create_dir_all = true;
  open_tmp = true;
  set_permissions = true;
  write_all = true;
  written = [];
  sync_all = true;
  rename = true;
  sync_parent = true;
}

abbrev blank_disk : Disk
blank_disk = record { target = none; tmp = none }

save_atomic-Replaces_example :
    Replaces codec
      (record calls { rename = false })
      blank_disk
      stored
      (save_atomic codec (record calls { rename = false }) blank_disk stored)
save_atomic-Replaces_example =
    save_atomic-Replaces codec (record calls { rename = false }) blank_disk stored

saved : (save_atomic codec calls blank_disk stored).0 ≡ ok durable
unfolding save_atomic
saved = refl

slots_valid : find bad_slot stored.subscription_cache_slots ≡ none
unfolding text_cmp
slots_valid = refl

load-save_atomic_example :
    (text : Text) × ((save_atomic codec calls blank_disk stored).1.target ≡ some text)
    × (load codec (contents text) ≡ ok (some stored))
load-save_atomic_example =
    load-save_atomic codec (λ n. true) calls blank_disk stored durable codec-ReadsBack
      (λ all e. all_exact_always all) stored-IsSingle slots_valid saved
