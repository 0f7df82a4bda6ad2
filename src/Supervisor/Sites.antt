-- ===== src/Supervisor/Sites.antt =====
-- The switch for a site that has frozen the exit address (src/supervisor.rs, `switch_for_site` and its
-- probes), once the site and the class are known. No other task comes between its steps.
pub mod Served
use causeway.Prelude.{
  ℕ, ◌+◌, ◌≡◌, Bool, true, false, not, Option, none, some, List, [], ◌∷◌, leb, take, filterb,
  is_some, if◌then◌else◌,
}
use causeway.Prelude.Text.{Text, codes, is_text}
use causeway.Prelude.Map.{Map, get, insert}
use causeway.Prelude.Int.{ℤ, pos_part, ◌-ℤ◌}
use causeway.Prelude.Result.{Result, ok, err}
use causeway.Score.{Float}
use causeway.Siteprobe.{SiteStatus, SiteVerdict, classify_status}
use causeway.State.{StateFile}
use causeway.Subscription.{Node, name}
use causeway.Supervisor.Candidates.{Sorting, ranked_candidates}
use causeway.Supervisor.Activation.{Env, Sys, tick, or_else}
use causeway.Supervisor.Switching.{SwitchOutcome, SwitchError, active_name, incumbent, switch_to}

-- The site, its configuration, and what a probe through a temporary data plane of the node ends in:
-- the status code, or what went wrong on the way.
pub record Site : Type 0 where
  pub name : Text
  pub max_candidates : ℕ
  pub verdict_ttl_secs : ℕ
  pub https_status : ℕ → Node → Result Text ℕ

-- The replies; the free-form detail is left out.
pub data SiteReply : Type 0 where
  kept : Text → SiteReply
  switched : Option Text → Text → SiteReply
  no_candidate : Option Text → SiteReply

pub is_ok : SiteStatus → Bool
is_ok SiteStatus.ok = true
is_ok SiteStatus.blocked = false
is_ok SiteStatus.unknown = false

verdict_of : ℤ → Result Text ℕ → SiteVerdict
verdict_of now (ok code) = record {
  status = classify_status code;
  http_status = some code;
  checked_unix = now;
  detail = none;
}
verdict_of now (err e) = record {
  status = SiteStatus.unknown;
  http_status = none;
  checked_unix = now;
  detail = some e;
}

abbrev left_pool : ℤ → SiteVerdict
left_pool now = record {
  status = SiteStatus.unknown;
  http_status = none;
  checked_unix = now;
  detail = some (codes "incumbent left the pool");
}

still_fresh : Site → ℤ → Option SiteVerdict → Option SiteVerdict
still_fresh site now none = none
still_fresh site now (some v) =
    if leb (pos_part (now -ℤ v.checked_unix)) site.verdict_ttl_secs then some v else none

module _ {F64 : Type 0} where
  record_site_verdict : Env F64 → Sys F64 → Text → Text → SiteVerdict → Sys F64
  record_site_verdict env s site node verdict = record s {
    clock = s.clock + 1;
    state = record s.state {
      updated_unix = env.now_unix s.clock;
      site_verdicts =
          insert site (insert node verdict (or_else (get site s.state.site_verdicts) []))
            s.state.site_verdicts;
    };
  }

  fresh_verdict : Env F64 → Site → Sys F64 → Text → Option SiteVerdict
  unfolding still_fresh
  fresh_verdict env site s node =
      still_fresh site (env.now_unix s.clock)
        (get node (or_else (get site.name s.state.site_verdicts) []))

  pub probe_site_node : Env F64 → Site → Sys F64 → Node → SiteVerdict × Sys F64
  unfolding verdict_of record_site_verdict
  probe_site_node env site s node =
      let verdict = verdict_of (env.now_unix s.clock) (site.https_status s.clock node) in
      (verdict, record_site_verdict env (tick s) site.name (name node) verdict)

  probe_incumbent : Env F64 → Site → Sys F64 → Option Node → SiteVerdict × Sys F64
  unfolding probe_site_node
  probe_incumbent env site s none = (left_pool (env.now_unix s.clock), tick s)
  probe_incumbent env site s (some node) = probe_site_node env site s node

  judge : Env F64 → Site → Sys F64 → Text → Option SiteVerdict → SiteVerdict × Sys F64
  unfolding probe_incumbent
  judge env site s current (some v) = (v, s)
  judge env site s current none = probe_incumbent env site s (incumbent (some current) env.pool)

  pub incumbent_verdict : Env F64 → Site → Sys F64 → Text → SiteVerdict × Sys F64
  unfolding judge fresh_verdict
  incumbent_verdict env site s current =
      judge env site (tick s) current (fresh_verdict env site s current)

  abbrev save_state : Sys F64 → Sys F64
  save_state s = record s { saved = some s.state }

module _ (F : Float) (sorting : Sorting Node) where
  search : Env F.F64 → Site → Option Text → Sys F.F64 → List Node → SiteReply × Sys F.F64
  unfolding probe_site_node
  search env site before s [] = (no_candidate before, save_state s)
  search env site before s (node ∷ nodes) =
      let (verdict, s₁) = probe_site_node env site s node in
      elim (is_ok verdict.status) [
        | false ↦ search env site before s₁ nodes
        | true ↦
            let (r, s₂) = switch_to F sorting env s₁ (name node) in
            elim r [
              | ok o ↦ (switched before (name node), save_state s₂)
              | err e ↦ search env site before s₂ nodes
            ]
      ]

  search_pool : Env F.F64 → Site → Option Text → Sys F.F64 → SiteReply × Sys F.F64
  unfolding search
  search_pool env site before s = search env site before s (
      take site.max_candidates (
        filterb (λ n. not (is_text before (name n)))
          (ranked_candidates F sorting env.pool s.state.nodes [])))

  from_incumbent : Env F.F64 → Site → Sys F.F64 → Option Text → SiteReply × Sys F.F64
  unfolding search_pool incumbent_verdict
  from_incumbent env site s none = search_pool env site none s
  from_incumbent env site s (some current) =
      let (verdict, s₁) = incumbent_verdict env site s current in
      if is_ok verdict.status then (kept current, s₁) else search_pool env site (some current) s₁

  pub switch_for_site : Env F.F64 → Site → Sys F.F64 → SiteReply × Sys F.F64
  unfolding from_incumbent
  switch_for_site env site s = from_incumbent env site s (active_name s.rt.active)
