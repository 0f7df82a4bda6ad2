-- ===== src/Health/Exchange/Tunnel.antt =====
-- The write-through probe of a CONNECT tunnel (src/health.rs, `connect_status_timed`).
use causeway.Prelude.{
  ℕ, ◌≡◌, refl, sym, ap, ◌∙◌, inl, inr, Bool, true, false, some, List, [], ◌∷◌, ◌++◌, Bool-cases,
  arith,
}
use causeway.Prelude.Text.{Text}
use causeway.Prelude.Result.{Result, ok, err}
use causeway.Health.Target.{TargetError, split_connect_target}
use causeway.Health.Exchange.StatusLine.{all_nonempty, before_crlf-append, step-found}
use causeway.Health.Exchange.{
  HealthError, Read, chunk, read_error, before_crlf, status_code, read_status_line, Peer,
  is_success, exchange, probed, after_connect, with_target, connect_status, timed_out,
}

-- Whether the next read returns a byte.
abbrev pub answers : List Read → Bool
answers [] = false
answers (read_error ∷ reads) = false
answers (chunk [] ∷ reads) = false
answers (chunk (c ∷ cs) ∷ reads) = true

probed-ok :
    (code n : ℕ) (reads : List Read)
    → probed code reads ≡ ok n
    → (answers reads ≡ true) × (n ≡ code)
unfolding probed
probed-ok code n [] h = absurd cc
probed-ok code n (read_error ∷ reads) h = absurd cc
probed-ok code n (chunk [] ∷ reads) h = absurd cc
probed-ok code n (chunk (c ∷ cs) ∷ reads) h = (refl, cc)

probed-answers : (code : ℕ) (reads : List Read) → answers reads ≡ true → probed code reads ≡ ok code
unfolding probed
probed-answers code [] h = absurd cc
probed-answers code (read_error ∷ reads) h = absurd cc
probed-answers code (chunk [] ∷ reads) h = absurd cc
probed-answers code (chunk (c ∷ cs) ∷ reads) h = refl

-- What the code of a CONNECT probe stands for.
pub record Reached (peer : Peer) (url : Text) (code : ℕ) : Type 0 where
  pub target : (a : Text) × (split_connect_target url ≡ ok a)
  pub opened : (peer.connected ≡ true) × (peer.sent ≡ true)
  pub line : (read_status_line [] peer.reads).0 ≡ ok code
  pub through :
      is_success code ≡ true
      → (peer.probe_sent ≡ true) × (answers (read_status_line [] peer.reads).1 ≡ true)

after_connect-ok :
    (sent : Bool) (o : Result HealthError ℕ × List Read) (code : ℕ)
    → after_connect sent o ≡ ok code
    → (o.0 ≡ ok code) × (is_success code ≡ true → (sent ≡ true) × (answers o.1 ≡ true))
unfolding after_connect
after_connect-ok sent (err e, reads) code h = absurd cc
after_connect-ok sent (ok n, reads) code h = elim (Bool-cases (is_success n)) [
  | inr e ↦ (let same : ok n ≡ ok code = ground arith in same, (λ k. absurd (ground arith)))
  | inl e ↦ elim (Bool-cases sent) [
    | inr f ↦ absurd (ground arith)
    | inl f ↦ let p = probed-ok n code reads (ground arith) in (ap ok (sym p.1), (λ k. (f, p.0)))
  ]
]

exchange-ok :
    (peer : Peer) (code : ℕ)
    → (exchange peer).0 ≡ ok code
    → (peer.connected ≡ true)
      × (peer.sent ≡ true)
      × (exchange peer ≡ read_status_line [] peer.reads)
unfolding exchange
exchange-ok peer code h = elim (Bool-cases peer.connected) [
  | inr e ↦ absurd (ground arith)
  | inl e ↦ elim (Bool-cases peer.sent) [
    | inr f ↦ absurd (ground arith)
    | inl f ↦ (e, f, ground arith)
  ]
]

after_connect-all :
    (sent : Bool) (o : Result HealthError ℕ × List Read) (code : ℕ)
    → o.0 ≡ ok code
    → (is_success code ≡ true → (sent ≡ true) × (answers o.1 ≡ true))
    → after_connect sent o ≡ ok code
unfolding after_connect
after_connect-all sent (err e, reads) code h k = absurd cc
after_connect-all sent (ok n, reads) code h k =
    let same : n ≡ code = cc in
    elim (Bool-cases (is_success code)) [
      | inl e ↦ let probe = probed-answers code reads (k e).1 in rw (same, e, (k e).0, probe) refl
      | inr e ↦ rw (same, e) refl
    ]

exchange-open :
    (peer : Peer)
    → peer.connected ≡ true
    → peer.sent ≡ true
    → exchange peer ≡ read_status_line [] peer.reads
unfolding exchange
exchange-open peer c s = ground arith

-- `connect_status` once the target is split.
abbrev split_as : Peer → Result TargetError Text → Result HealthError ℕ
split_as peer r = with_target r (λ authority. after_connect peer.probe_sent (exchange peer))

reached :
    (peer : Peer) (url : Text) (code : ℕ) (r : Result TargetError Text)
    → split_connect_target url ≡ r
    → split_as peer r ≡ ok code
    → Reached peer url code
reached peer url code (err e) s h = absurd cc
reached peer url code (ok a) s h =
    let done = after_connect-ok peer.probe_sent (exchange peer) code h in
    let ready = exchange-ok peer code done.0 in
    record {
      target = (a, s);
      opened = (ready.0, ready.1);
      line = ap (λ o. o.0) (sym ready.2) ∙ done.0;
      through = λ k. let t = done.1 k in (t.0, ap (λ o. answers o.1) (sym ready.2) ∙ t.1);
    }

-- A CONNECT probe returns a code just if the target is valid, the connection opens and takes the
-- request, the status line has that code and, where the code is a success, the probe is written and
-- the read after that of the status line returns a byte.
pub connect_status_iff :
    (peer : Peer) (url : Text) (code : ℕ)
    → (connect_status peer url ≡ ok code → Reached peer url code)
      × (Reached peer url code → connect_status peer url ≡ ok code)
unfolding connect_status
connect_status_iff peer url code = (
  (λ h. reached peer url code (split_connect_target url) refl h),
  (λ k.
      let ready = exchange-open peer k.opened.0 k.opened.1 in
      ap (split_as peer) k.target.1
      ∙ ap (after_connect peer.probe_sent) ready
      ∙ after_connect-all peer.probe_sent (read_status_line [] peer.reads) code k.line k.through),
)

-- The reply of the entry point: its status line and the blank line that ends its head.
abbrev pub crlf : Text
crlf = 13 ∷ 10 ∷ []

abbrev pub replying : List Read → Peer
replying reads = record { connected = true; sent = true; reads = reads; probe_sent = true }

nonempty-crlf : (line : Text) → all_nonempty ((line ++ crlf) ∷ []) ≡ true
nonempty-crlf [] = refl
nonempty-crlf (c ∷ line) = refl

nonempty-append : (s t : Text) → all_nonempty (s ∷ []) ≡ true → all_nonempty ((s ++ t) ∷ []) ≡ true
nonempty-append [] t h = absurd cc
nonempty-append (c ∷ s) t h = refl

-- A peer that answers the CONNECT with a status line of a 2xx code and a blank line, and then sends nothing: when
-- the two lines come in one read the probe times out, and when they come in two reads it returns
-- the code, since the blank line is taken for an answer of the target.
pub connect_status_takes_head :
    (url authority line : Text) (code : ℕ)
    → split_connect_target url ≡ ok authority
    → before_crlf (line ++ crlf) ≡ some line
    → status_code line ≡ ok code
    → is_success code ≡ true
    → (connect_status (replying (chunk ((line ++ crlf) ++ crlf) ∷ [])) url ≡ err timed_out)
      × (connect_status (replying (chunk (line ++ crlf) ∷ chunk crlf ∷ [])) url ≡ ok code)
unfolding connect_status exchange after_connect probed
connect_status_takes_head url authority line code s b h k =
    let filled = nonempty-crlf line in
    let one =
      step-found [] ((line ++ crlf) ++ crlf) line [] (nonempty-append (line ++ crlf) crlf filled)
        (before_crlf-append (line ++ crlf) crlf line b) in
    let two = step-found [] (line ++ crlf) line (chunk crlf ∷ []) filled b in
    (rw (s, one, h, k) refl, rw (s, two, h, k) refl)
