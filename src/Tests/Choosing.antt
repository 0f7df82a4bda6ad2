-- ===== src/Tests/Choosing.antt =====
-- The theorems on statistics, ranking and entries at concrete inputs, with a fixed-point number of
-- three decimals for the floating-point type and an insertion sort for the sort.
use causeway.Prelude.{
  ℕ, ◌+◌, ◌*◌, ◌/◌, ◌^◌, ◌≡◌, Bool, true, false, Option, none, some, List, [], ◌∷◌, Ordering,
  compare, ltb, leb, arith,
}
use causeway.Prelude.Text.{Text, codes}
use causeway.Prelude.Int.{ℤ, pos, pos_part, neg_part, sub_ℕ}
use causeway.Prelude.Sort
use causeway.Score.{Float, NodeStats}
use causeway.Score.History.{Probe}
use causeway.Score.Order.{Symmetric}
use causeway.Subscription.{Node, ss, string, number, RawProxy, parse_proxies}
use causeway.Subscription.Parsed.{
  DistinctNames, node_named, converted, tally, is_type, is_bad, parse_proxies_first_wins,
}
use causeway.State.{Stats}
use causeway.Supervisor.Candidates.{Sorting}

abbrev order : ℤ → ℤ → Ordering
order a b = compare (pos_part a + neg_part b) (neg_part a + pos_part b)

abbrev below : ℤ → ℤ → Bool
below a b = ltb (pos_part a + neg_part b) (neg_part a + pos_part b)

abbrev at_most : ℤ → ℤ → Bool
at_most a b = leb (pos_part a + neg_part b) (neg_part a + pos_part b)

abbrev pub milli : Float
milli = record {
  F64 = ℤ;
  add = λ a b. sub_ℕ (pos_part a + pos_part b) (neg_part a + neg_part b);
  sub = λ a b. sub_ℕ (pos_part a + neg_part b) (neg_part a + pos_part b);
  mul = λ a b.
      sub_ℕ ((pos_part a * pos_part b + neg_part a * neg_part b) / 1000)
        ((pos_part a * neg_part b + neg_part a * pos_part b) / 1000);
  abs = λ a. pos (pos_part a + neg_part a);
  max = λ a b. elim (order a b) [ Ordering.lt ↦ b | _ ↦ a ];
  lt = below;
  le = at_most;
  total_cmp = order;
  seconds = λ rtt. pos (rtt / 1_000_000);
  f0 = pos 0;
  f1 = pos 1000;
  f1000 = pos 1_000_000;
  decimal = λ n k. pos (n * 1000 / 10 ^ k);
}

milli-Symmetric : Symmetric milli
milli-Symmetric = record { total_cmp_swap = λ a b. ground arith; tie_swap = λ a b. ground arith }

abbrev pub probed : ℕ → ℕ → NodeStats ℤ
probed success rtt = record {
  success_ema = pos success;
  rtt_ema_ms = some (pos rtt);
  recent_rtts_ms = [];
  consecutive_health_failures = 0;
  probe_count = 9;
  last_probe_unix = none;
}

abbrev probes : List (Probe milli (pos 300))
probes = (some 50_000_000, pos 1) ∷ (none, pos 2) ∷ []

abbrev entry_ss : Text → RawProxy
entry_ss n = record {
  kind = codes "ss";
  name = some n;
  server = some (codes "host");
  port = some (number (some 443) (codes "443"));
  cipher = some (codes "aes-256-gcm");
  password = some (string (codes "pw"));
  plugin = none;
  plugin_opts = none;
  sni = none;
  alpn = none;
  client_fingerprint = none;
  skip_cert_verify = none;
}

abbrev manifest : List (Option RawProxy)
manifest = some (entry_ss (codes "a")) ∷ none ∷ some (entry_ss (codes "a")) ∷ []

parse_proxies_first_wins_example :
    let p = parse_proxies manifest in
    DistinctNames p.nodes
    × (node_named (codes "a") p.nodes ≡ node_named (codes "a") (converted manifest))
    × (p.skipped_type ≡ tally is_type manifest)
    × (p.skipped_bad ≡ tally is_bad manifest)
parse_proxies_first_wins_example = parse_proxies_first_wins manifest (codes "a")

abbrev pub insertion : Sorting Node
insertion = record {
  sort_by = λ cmp l. Sort.sort_by (λ a b. elim (cmp a b) [ Ordering.gt ↦ false | _ ↦ true ]) l;
  rearranges =
      λ cmp l. Sort.sort_by-perm (λ a b. elim (cmp a b) [ Ordering.gt ↦ false | _ ↦ true ]) l;
}

abbrev pub node : Text → Node
node n = ss (record {
  name = n;
  server = codes "host";
  port = 443;
  cipher = codes "aes-256-gcm";
  password = codes "pw";
  plugin = none;
})

abbrev pool : List Node
pool = node (codes "jp") ∷ node (codes "us") ∷ []

abbrev history : Stats ℤ
history = (codes "jp", probed 900 5) ∷ []
