-- ===== src/Tests/Checking.antt =====
-- The theorems on health checks at concrete targets and peers.
use causeway.Prelude.{ℕ, ◌+◌, ◌≤◌, ◌≡◌, refl, some, List, [], ◌∷◌, ◌++◌, length, max, ltb, arith}
use causeway.Prelude.Text.{Text, codes}
use causeway.Prelude.Parse.{
  split_whitespace, parse_uint, digits_from, rsplit_once, strip_prefix, contains,
}
use causeway.Prelude.Result.{ok, err}
use causeway.Health.Target.{split_connect_target}
use causeway.Health.Target.Authority.{Authority, split_connect_target-Authority}
use causeway.Health.Exchange.{
  chunk, before_crlf, status_code, read_status_line, max_status_line, connect_status, timed_out,
  is_healthy,
}
use causeway.Health.Exchange.StatusLine.{
  chunks, joined, read_status_line-joined, read_status_line_bounded,
}
use causeway.Health.Exchange.Tunnel.{replying, crlf, connect_status_takes_head}
use causeway.Health.Sampled.{is_healthy_sampled}
use causeway.Health.Sampled.AnyFail.{Says, is_healthy_sampled-Says}

abbrev target : Text
target = codes "connect://example.com"

abbrev authority : Text
authority = codes "example.com:443"

abbrev status_line : Text
status_line = codes "HTTP/1.1 200 OK"

target_splits : split_connect_target target ≡ ok authority
unfolding split_connect_target strip_prefix rsplit_once parse_uint digits_from contains
target_splits = refl

status_line_ends : before_crlf (status_line ++ crlf) ≡ some status_line
unfolding before_crlf
status_line_ends = refl

status_line_code : status_code status_line ≡ ok 200
unfolding status_code split_whitespace parse_uint digits_from
status_line_code = refl

split_connect_target-Authority_example :
    ((url : Text) → split_connect_target url ≡ ok authority → Authority authority)
    × (Authority authority → split_connect_target (codes "connect://" ++ authority) ≡ ok authority)
split_connect_target-Authority_example = split_connect_target-Authority authority

abbrev pieces : List Text
pieces = codes "HTTP/1.1 2" ∷ (codes "00 OK" ++ 13 ∷ []) ∷ (10 ∷ codes "Via: x") ∷ []

pieces_end : before_crlf (joined pieces) ≡ some status_line
unfolding before_crlf
pieces_end = refl

read_status_line-joined_example : (read_status_line [] (chunks pieces)).0 ≡ status_code status_line
read_status_line-joined_example =
    read_status_line-joined pieces status_line refl pieces_end (omega arith)

read_status_line_bounded_example :
    3 ≤ length (read_status_line [] (chunks pieces)).1 + (max_status_line + 1)
read_status_line_bounded_example = read_status_line_bounded (chunks pieces)

connect_status_takes_head_example :
    (connect_status (replying (chunk ((status_line ++ crlf) ++ crlf) ∷ [])) target ≡ err timed_out)
    × (connect_status (replying (chunk (status_line ++ crlf) ∷ chunk crlf ∷ [])) target ≡ ok 200)
connect_status_takes_head_example =
    connect_status_takes_head target authority status_line 200 target_splits status_line_ends
      status_line_code refl

is_healthy_sampled-Says_example :
    let peer = λ (i : ℕ). replying (chunks pieces) in
    Says
      (λ i. ltb 1 i)
      (λ i. is_healthy (peer i) target)
      0
      (max 3 1)
      (is_healthy_sampled peer target 3 (λ i. ltb 1 i))
is_healthy_sampled-Says_example =
    is_healthy_sampled-Says (λ i. replying (chunks pieces)) target 3 (λ i. ltb 1 i)
