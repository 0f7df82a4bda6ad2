-- ===== src/Siteprobe.antt =====
-- Site verdicts (src/siteprobe.rs): the classification of a status code and the record that the
-- state file keeps.
use causeway.Prelude.{ℕ, Option, ◌&&◌, ◌||◌, leb, ◌==◌, if◌then◌else◌}
use causeway.Prelude.Text.{Text, codes}
use causeway.Prelude.Int.{ℤ}

pub data SiteStatus : Type 0 where
  ok blocked unknown : SiteStatus

pub as_str : SiteStatus → Text
as_str ok = codes "ok"
as_str blocked = codes "blocked"
as_str unknown = codes "unknown"

pub record SiteVerdict : Type 0 where
  pub status : SiteStatus
  pub http_status : Option ℕ
  pub checked_unix : ℤ
  pub detail : Option Text

unfoldable pub classify_status : ℕ → SiteStatus
classify_status code =
    if leb 200 code && leb code 399
    then ok
    else if code == 401 || code == 403 || code == 429 || code == 451
    then blocked
    else unknown
