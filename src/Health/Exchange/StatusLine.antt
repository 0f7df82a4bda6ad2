-- ===== src/Health/Exchange/StatusLine.antt =====
-- Reading the status line (src/health.rs, `read_status_line`): how the bytes come does not matter,
-- and the reading ends.
use causeway.Prelude.{
  ◌+◌, ◌≤◌, ◌≡◌, refl, sym, ap, ◌∙◌, inl, inr, Bool, true, false, none, some, List, [], ◌∷◌, ◌++◌,
  length, length-append, ltb, Bool-cases, Option-cases, arith,
}
use causeway.Prelude.Text.{Text}
use causeway.Health.Exchange.{
  Read, chunk, read_error, max_status_line, cons_line, before_crlf, status_code, scan,
  read_status_line,
}

-- The reads that return these bytes.
abbrev pub chunks : List Text → List Read
chunks [] = []
chunks (t ∷ ts) = chunk t ∷ chunks ts

abbrev pub joined : List Text → Text
joined [] = []
joined (t ∷ ts) = t ++ joined ts

abbrev pub all_nonempty : List Text → Bool
all_nonempty [] = true
all_nonempty ([] ∷ ts) = false
all_nonempty ((c ∷ cs) ∷ ts) = all_nonempty ts

append_assoc : (a b c : Text) → (a ++ b) ++ c ≡ a ++ (b ++ c)
append_assoc [] b c = refl
append_assoc (x ∷ a) b c = ap (λ t. x ∷ t) (append_assoc a b c)

append_nil : (a : Text) → a ++ [] ≡ a
append_nil [] = refl
append_nil (x ∷ a) = ap (λ t. x ∷ t) (append_nil a)

pub before_crlf-append :
    (s t line : Text) → before_crlf s ≡ some line → before_crlf (s ++ t) ≡ some line
unfolding before_crlf cons_line
before_crlf-append [] t line h = absurd cc
before_crlf-append (c ∷ []) t line h = absurd cc
before_crlf-append (c ∷ d ∷ cs) t line h = elim (Option-cases (before_crlf (d ∷ cs))) [
  | inl e ↦ ground arith
  | inr (l, e) ↦ ground (arith, before_crlf-append (d ∷ cs) t l e)
]

-- A text without a CRLF before the first one ends at most in its carriage return.
before_crlf-shorter :
    (s t line : Text)
    → before_crlf s ≡ none
    → before_crlf (s ++ t) ≡ some line
    → length s ≤ length line + 1
unfolding before_crlf cons_line
before_crlf-shorter [] t line h k = omega arith
before_crlf-shorter (c ∷ []) t line h k = omega arith
before_crlf-shorter (c ∷ d ∷ cs) t line h k = elim (Option-cases (before_crlf (d ∷ (cs ++ t)))) [
  | inl e ↦ ground arith
  | inr (l, e) ↦ ground (arith, before_crlf-shorter (d ∷ cs) t l)
]

pub step-found :
    (buf t line : Text) (reads : List Read)
    → all_nonempty (t ∷ []) ≡ true
    → before_crlf (buf ++ t) ≡ some line
    → read_status_line buf (chunk t ∷ reads) ≡ (status_code line, reads)
unfolding read_status_line scan
step-found buf [] line reads n h = absurd cc
step-found buf (c ∷ cs) line reads n h = ground arith

step-more :
    (buf t : Text) (reads : List Read)
    → all_nonempty (t ∷ []) ≡ true
    → before_crlf (buf ++ t) ≡ none
    → length (buf ++ t) ≤ max_status_line
    → read_status_line buf (chunk t ∷ reads) ≡ read_status_line (buf ++ t) reads
unfolding read_status_line scan
step-more buf [] reads n h k = absurd cc
step-more buf (c ∷ cs) reads n h k = ground arith

all_nonempty-head :
    (t : Text) (ts : List Text)
    → all_nonempty (t ∷ ts) ≡ true
    → (all_nonempty (t ∷ []) ≡ true) × (all_nonempty ts ≡ true)
all_nonempty-head [] ts h = absurd cc
all_nonempty-head (c ∷ t) ts h = (refl, h)

read_from :
    (ts : List Text) (buf line : Text)
    → all_nonempty ts ≡ true
    → before_crlf buf ≡ none
    → before_crlf (buf ++ joined ts) ≡ some line
    → length line + 2 ≤ max_status_line
    → (read_status_line buf (chunks ts)).0 ≡ status_code line
read_from [] buf line n h k l =
    absurd (let e : before_crlf buf ≡ some line = ap before_crlf (sym (append_nil buf)) ∙ k in cc)
read_from (t ∷ ts) buf line n h k l =
    let m = all_nonempty-head t ts n in
    let k' : before_crlf ((buf ++ t) ++ joined ts) ≡ some line =
      ap before_crlf (append_assoc buf t (joined ts)) ∙ k in
    elim (Option-cases (before_crlf (buf ++ t))) [
      | inr (l', e) ↦ rw (step-found buf t l' (chunks ts) m.0 e) (
          let same : l' ≡ line = ground (arith, before_crlf-append (buf ++ t) (joined ts) l' e) in
          ap status_code same)
      | inl e ↦
          rw
            (step-more buf t (chunks ts) m.0 e
              (omega (arith, before_crlf-shorter (buf ++ t) (joined ts) line e k')))
            (read_from ts (buf ++ t) line m.1 e k' l)
    ]

-- If the bytes that a peer sends have a first CRLF within 8 KiB, then however they are split into
-- reads, the answer is what the line before that CRLF says.
pub read_status_line-joined :
    (ts : List Text) (line : Text)
    → all_nonempty ts ≡ true
    → before_crlf (joined ts) ≡ some line
    → length line + 2 ≤ max_status_line
    → (read_status_line [] (chunks ts)).0 ≡ status_code line
unfolding before_crlf
read_status_line-joined ts line n h l = read_from ts [] line n refl h l

read_at_most :
    (reads : List Read) (buf : Text)
    → length buf ≤ max_status_line
    → length reads + length buf ≤ length (read_status_line buf reads).1 + (max_status_line + 1)
unfolding read_status_line scan
read_at_most [] buf h = omega arith
read_at_most (read_error ∷ reads) buf h = omega arith
read_at_most (chunk [] ∷ reads) buf h = omega arith
read_at_most (chunk (c ∷ cs) ∷ reads) buf h =
    let next = buf ++ (c ∷ cs) in
    elim (Option-cases (before_crlf next)) [
      | inr (line, e) ↦ ground arith
      | inl e ↦ elim (Bool-cases (ltb max_status_line (length next))) [
        | inl late ↦ ground arith
        | inr room ↦
            let ih = read_at_most reads next (ground arith) in
            ground (arith, length-append buf (c ∷ cs), ih)
      ]
    ]

-- Whatever the peer sends, at most 8193 reads are made.
pub read_status_line_bounded :
    (reads : List Read)
    → length reads ≤ length (read_status_line [] reads).1 + (max_status_line + 1)
read_status_line_bounded reads = omega (arith, read_at_most reads [] (omega arith))
