-- ===== src/Health/Exchange.antt =====
-- One health check (src/health.rs, `read_status_line`, `http_get_status_timed`,
-- `connect_status_timed`, `check_status` and `is_healthy`). A peer is what the reads return, in
-- order; when no read is left, the peer is silent until the time-out.
pub mod StatusLine
pub mod Tunnel
use causeway.Prelude.{
  ℕ, ◌^◌, ◌≡◌, Bool, true, false, not, ◌&&◌, Option, none, some, List, [], ◌∷◌, ◌++◌, length, ltb,
  leb, ◌==◌, if◌then◌else◌,
}
use causeway.Prelude.Text.{Text, codes}
use causeway.Prelude.Parse.{split_whitespace, starts_with, parse_uint}
use causeway.Prelude.Result.{Result, ok, err, ◌>>=◌}
use causeway.Health.Target.{TargetError, split_url, split_connect_target}

pub data HealthError : Type 0 where
  target_error : TargetError → HealthError
  connect_failed send_failed read_failed closed_early line_too_long timed_out : HealthError
  no_version no_code bad_code probe_send_failed probe_read_failed tunnel_closed : HealthError

-- `stream.read`: some bytes, the end of the stream, or an error.
pub data Read : Type 0 where
  chunk : Text → Read
  read_error : Read

abbrev pub max_status_line : ℕ
max_status_line = 8192

cons_line : ℕ → Option Text → Option Text
cons_line c none = none
cons_line c (some l) = some (c ∷ l)

-- The bytes before the first CRLF.
unfoldable pub before_crlf : Text → Option Text
unfolding cons_line
before_crlf [] = none
before_crlf (c ∷ []) = none
before_crlf (c ∷ d ∷ cs) =
    let rest = before_crlf (d ∷ cs) in if c == 13 && d == 10 then some [] else cons_line c rest

code_of : List Text → Result HealthError ℕ
unfolding parse_uint
code_of [] = err no_version
code_of (version ∷ []) = err no_code
code_of (version ∷ code ∷ fields) = elim (parse_uint 10 (2 ^ 16) code) [
  | none ↦ err bad_code
  | some n ↦ ok n
]

-- The code of a status line, which is ASCII.
unfoldable pub status_code : Text → Result HealthError ℕ
unfolding split_whitespace code_of
status_code line = code_of (split_whitespace line)

-- After a chunk: the line is there, too long, or read on.
pub data Scan : Type 0 where
  found : Text → Scan
  too_long more : Scan

pub scan : Text → Scan
unfolding before_crlf
scan buf = elim (before_crlf buf) [
  | some line ↦ found line
  | none ↦ if ltb max_status_line (length buf) then too_long else more
]

-- The answer and the reads that are left.
pub read_status_line : Text → List Read → Result HealthError ℕ × List Read
unfolding status_code scan
read_status_line buf [] = (err timed_out, [])
read_status_line buf (read_error ∷ reads) = (err read_failed, reads)
read_status_line buf (chunk [] ∷ reads) = (err closed_early, reads)
read_status_line buf (chunk (c ∷ cs) ∷ reads) =
    let next = buf ++ (c ∷ cs) in
    let rest = read_status_line next reads in
    elim (scan next) [
      | found line ↦ (status_code line, reads)
      | too_long ↦ (err line_too_long, reads)
      | more ↦ rest
    ]

pub record Peer : Type 0 where
  pub connected : Bool
  pub sent : Bool
  pub reads : List Read
  pub probe_sent : Bool

abbrev pub is_success : ℕ → Bool
is_success code = leb 200 code && ltb code 300

exchange : Peer → Result HealthError ℕ × List Read
unfolding read_status_line
exchange peer =
    if not peer.connected
    then (err connect_failed, peer.reads)
    else if not peer.sent
    then (err send_failed, peer.reads)
    else read_status_line [] peer.reads

-- The write-through probe of an open tunnel.
probed : ℕ → List Read → Result HealthError ℕ
probed code [] = err timed_out
probed code (read_error ∷ reads) = err probe_read_failed
probed code (chunk [] ∷ reads) = err tunnel_closed
probed code (chunk (c ∷ cs) ∷ reads) = ok code

after_connect : Bool → Result HealthError ℕ × List Read → Result HealthError ℕ
unfolding probed
after_connect probe_sent (err e, reads) = err e
after_connect probe_sent (ok code, reads) =
    if is_success code
    then if probe_sent then probed code reads else err probe_send_failed
    else ok code

abbrev with_target :
    {A : Type 0} → Result TargetError A → (A → Result HealthError ℕ) → Result HealthError ℕ
with_target (err e) f = err (target_error e)
with_target (ok a) f = f a

pub http_get_status : Peer → Text → Result HealthError ℕ
unfolding exchange split_url
http_get_status peer url = with_target (split_url url) (λ parts. (exchange peer).0)

pub connect_status : Peer → Text → Result HealthError ℕ
unfolding after_connect exchange split_connect_target
connect_status peer url =
    with_target (split_connect_target url)
      (λ authority. after_connect peer.probe_sent (exchange peer))

pub check_status : Peer → Text → Result HealthError ℕ
unfolding http_get_status connect_status starts_with
check_status peer url =
    if starts_with (codes "connect://") url
    then connect_status peer url
    else http_get_status peer url

abbrev has_succeeded : Result HealthError ℕ → Bool
has_succeeded (ok code) = is_success code
has_succeeded (err e) = false

unfoldable pub is_healthy : Peer → Text → Bool
unfolding check_status
is_healthy peer url = has_succeeded (check_status peer url)
