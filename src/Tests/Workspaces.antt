-- ===== src/Tests/Workspaces.antt =====
-- The theorems on workspaces at concrete identities.
use causeway.Prelude.{ℕ, ◌≡◌, refl, true, none, some, [], ◌∷◌, arith}
use causeway.Prelude.Text.{Text, codes}
use causeway.DataPlane.Identity.{
  ProcessIdentity, valid_boot_id, valid_nonce, strict_instance_name, encode, parse,
  identity_from_instance_name,
}
use causeway.DataPlane.Identity.Names.{Proper, identity_from_instance_name-strict_instance_name}
use causeway.DataPlane.Identity.Marker.{parse-encode}
use causeway.DataPlane.Workspace.{
  identity_file_name, directory, regular, Item, Instance, Stat, missing, found, removed,
  AdapterWorkspace, cleanup_stale_instances,
}
use causeway.DataPlane.Workspace.Stale.{AllJustified, cleanup_stale_instances-Justified}

abbrev owner : ProcessIdentity
owner = record {
  boot_id = codes "0f8fad5b-d9cb-469f-a165-70867728950e";
  pid = 4711;
  start_time = 123456789;
}

owner-Proper : Proper owner
unfolding valid_boot_id
owner-Proper = record { boot = refl; pid_fits = omega arith; start_fits = omega arith }

identity_from_instance_name-strict_instance_name_example :
    ((nonce : Text)
      → Proper owner
      → valid_nonce nonce ≡ true
      → identity_from_instance_name (strict_instance_name owner nonce) ≡ some owner)
    × ((name : Text)
        → identity_from_instance_name name ≡ some owner
        → (nonce : Text) × (name ≡ strict_instance_name owner nonce)
          × (valid_nonce nonce ≡ true)
          × Proper owner)
identity_from_instance_name-strict_instance_name_example =
    identity_from_instance_name-strict_instance_name owner

parse-encode_example :
    (Proper owner → parse (encode owner) ≡ some owner)
    × ((value : Text) → parse value ≡ some owner → (value ≡ encode owner) × Proper owner)
parse-encode_example = parse-encode owner

abbrev marker : Item
marker = record { name = some identity_file_name; kind = some regular }

abbrev left_over : Instance
left_over = record {
  name = some (strict_instance_name owner (codes "00112233445566778899aabbccddeeff"));
  kind = some directory;
  marker_kind = some regular;
  marker_len = 90;
  marker = some (encode owner);
  items = some (some marker ∷ []);
  marker_again = some regular;
  removes_file = λ file. true;
  removes_dir = true;
}

abbrev no_process : ℕ → Stat
no_process pid = missing

cleanup_stale_instances-Justified_example :
    AllJustified no_process owner.boot_id
      (cleanup_stale_instances no_process owner.boot_id (none ∷ some left_over ∷ []))
cleanup_stale_instances-Justified_example =
    cleanup_stale_instances-Justified no_process owner.boot_id (none ∷ some left_over ∷ [])

abbrev own : AdapterWorkspace
own = record {
  instance_dir = codes "instance";
  metadata = found directory;
  items = some (some marker ∷ []);
  removes_file = λ file. true;
  remove_dir = removed;
}
