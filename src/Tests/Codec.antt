-- ===== src/Tests/Codec.antt =====
-- A codec for the wire form of the state file: it stands for `serde_json`, to show that what the
-- proofs rely on of it can hold.
use causeway.Prelude.{ℕ, zero, suc, ◌≡◌, refl, true, Option, none, some, List, [], ◌∷◌, length}
use causeway.Prelude.Text.{Text}
use causeway.Prelude.Map.{Map}
use causeway.Prelude.Int.{ℤ, pos, negsuc}
use causeway.Score.{NodeStats}
use causeway.Siteprobe.{SiteStatus, SiteVerdict}
use causeway.State.{ClassState}
use causeway.State.Persist.{StateFileV2, Json}
use causeway.State.Persist.Roundtrip.{ReadsBack}

infixl 5 ◌>>=◌
abbrev ◌>>=◌ : {A B : Type 0} → Option A → (A → Option B) → Option B
none >>= f = none
some a >>= f = f a

-- A codec writes in front of the rest of a document.
record Codec (A : Type 0) : Type 0 where
  enc : A → List ℕ → List ℕ
  dec : List ℕ → Option (A × List ℕ)
  back : (a : A) (rest : List ℕ) → dec (enc a rest) ≡ some (a, rest)

module _ {A : Type 0} (c : Codec A) where
  abbrev via : {B : Type 0} (to : B → A) (from : A → B) → ((b : B) → from (to b) ≡ b) → Codec B
  via to from h = record {
    enc = λ b rest. c.enc (to b) rest;
    dec = λ t. c.dec t >>= λ (p : A × List ℕ). some (from p.0, p.1);
    back = λ b rest. rw (c.back (to b) rest, h b) refl;
  }

  abbrev pair : {B : Type 0} → Codec B → Codec (A × B)
  pair d = record {
    enc = λ p rest. c.enc p.0 (d.enc p.1 rest);
    dec = λ t. c.dec t >>= λ (p : A × List ℕ). d.dec p.1 >>= λ q. some ((p.0, q.0), q.1);
    back = λ p rest. rw (c.back p.0 (d.enc p.1 rest), d.back p.1 rest) refl;
  }

  enc_items : List A → List ℕ → List ℕ
  enc_items [] rest = rest
  enc_items (a ∷ l) rest = c.enc a (enc_items l rest)

  dec_items : ℕ → List ℕ → Option (List A × List ℕ)
  dec_items zero t = some ([], t)
  dec_items (suc n) t =
      c.dec t >>= λ (p : A × List ℕ). dec_items n p.1 >>= λ q. some (p.0 ∷ q.0, q.1)

  dec_items-enc_items :
      (l : List A) (rest : List ℕ) → dec_items (length l) (enc_items l rest) ≡ some (l, rest)
  unfolding enc_items dec_items
  dec_items-enc_items [] rest = refl
  dec_items-enc_items (a ∷ l) rest =
      rw (c.back a (enc_items l rest), dec_items-enc_items l rest) refl

  abbrev list : Codec (List A)
  list = record {
    enc = λ l rest. length l ∷ enc_items l rest;
    dec = λ t. elim t [ [] ↦ none | n ∷ t' ↦ dec_items n t' ];
    back = λ l rest. dec_items-enc_items l rest;
  }

  abbrev enc_option : Option A → List ℕ → List ℕ
  enc_option none rest = 0 ∷ rest
  enc_option (some a) rest = 1 ∷ c.enc a rest

  abbrev dec_option : List ℕ → Option (Option A × List ℕ)
  dec_option [] = none
  dec_option (zero ∷ t) = some (none, t)
  dec_option (suc n ∷ t) = c.dec t >>= λ p. some (some p.0, p.1)

  dec_option-enc_option :
      (o : Option A) (rest : List ℕ) → dec_option (enc_option o rest) ≡ some (o, rest)
  dec_option-enc_option none rest = refl
  dec_option-enc_option (some a) rest = rw (c.back a rest) refl

  abbrev option : Codec (Option A)
  option = record { enc = enc_option; dec = dec_option; back = dec_option-enc_option }

abbrev nat : Codec ℕ
nat = record {
  enc = λ n rest. n ∷ rest;
  dec = λ t. elim t [ [] ↦ none | n ∷ t' ↦ some (n, t') ];
  back = λ n rest. refl;
}

abbrev to_nats : ℤ → ℕ × ℕ
to_nats (pos n) = (0, n)
to_nats (negsuc n) = (1, n)

abbrev from_nats : ℕ × ℕ → ℤ
from_nats (zero, n) = pos n
from_nats (suc k, n) = negsuc n

from_nats-to_nats : (z : ℤ) → from_nats (to_nats z) ≡ z
from_nats-to_nats (pos n) = refl
from_nats-to_nats (negsuc n) = refl

abbrev int : Codec ℤ
int = via (pair nat nat) to_nats from_nats from_nats-to_nats

abbrev to_nat : SiteStatus → ℕ
to_nat SiteStatus.ok = 0
to_nat SiteStatus.blocked = 1
to_nat SiteStatus.unknown = 2

abbrev from_nat : ℕ → SiteStatus
from_nat zero = SiteStatus.ok
from_nat (suc zero) = SiteStatus.blocked
from_nat (suc (suc n)) = SiteStatus.unknown

from_nat-to_nat : (s : SiteStatus) → from_nat (to_nat s) ≡ s
from_nat-to_nat SiteStatus.ok = refl
from_nat-to_nat SiteStatus.blocked = refl
from_nat-to_nat SiteStatus.unknown = refl

abbrev text : Codec Text
text = list nat

abbrev map : {V : Type 0} → Codec V → Codec (Map V)
map c = list (pair text c)

abbrev class : Codec ClassState
class =
    via (pair (option text) (pair (option nat) (pair (option nat) nat)))
      (λ s. (s.active_node, (s.socks_port, (s.http_port, s.generation))))
      (λ p. record {
        active_node = p.0;
        socks_port = p.1.0;
        http_port = p.1.1.0;
        generation = p.1.1.1;
      })
      (λ s. refl)

abbrev stats : Codec (NodeStats ℤ)
stats =
    via (pair int (pair (option int) (pair (list int) (pair nat (pair nat (option int))))))
      (λ s. (
        s.success_ema,
        (
          s.rtt_ema_ms,
          (s.recent_rtts_ms, (s.consecutive_health_failures, (s.probe_count, s.last_probe_unix))),
        ),
      ))
      (λ p. record {
        success_ema = p.0;
        rtt_ema_ms = p.1.0;
        recent_rtts_ms = p.1.1.0;
        consecutive_health_failures = p.1.1.1.0;
        probe_count = p.1.1.1.1.0;
        last_probe_unix = p.1.1.1.1.1;
      })
      (λ s. refl)

abbrev verdict : Codec SiteVerdict
verdict =
    via
      (pair (via nat to_nat from_nat from_nat-to_nat) (pair (option nat) (pair int (option text))))
      (λ v. (v.status, (v.http_status, (v.checked_unix, v.detail))))
      (λ p. record { status = p.0; http_status = p.1.0; checked_unix = p.1.1.0; detail = p.1.1.1 })
      (λ v. refl)

abbrev wire : Codec (StateFileV2 ℤ)
wire =
    via
      (pair nat (
        pair int (
          pair (option text) (
            pair (map class) (
              pair (map (map stats))
                (pair (map (map verdict)) (pair (map text) (pair (map text) (map text)))))))))
      (λ w. (
        w.version,
        (
          w.updated_unix,
          (
            w.active_subscription,
            (
              w.classes,
              (
                w.subscription_nodes,
                (
                  w.site_verdicts,
                  (
                    w.subscription_cache_slots,
                    (w.subscription_source_identities, w.pending_subscription_sources),
                  ),
                ),
              ),
            ),
          ),
        ),
      ))
      (λ p. record {
        version = p.0;
        updated_unix = p.1.0;
        active_subscription = p.1.1.0;
        classes = p.1.1.1.0;
        subscription_nodes = p.1.1.1.1.0;
        site_verdicts = p.1.1.1.1.1.0;
        subscription_cache_slots = p.1.1.1.1.1.1.0;
        subscription_source_identities = p.1.1.1.1.1.1.1.0;
        pending_subscription_sources = p.1.1.1.1.1.1.1.1;
      })
      (λ w. refl)

abbrev first : {A : Type 0} → Option (A × List ℕ) → Option A
first none = none
first (some p) = some p.0

abbrev head? : List ℕ → Option ℕ
head? [] = none
head? (n ∷ t) = some n

pub codec : Json ℤ
codec = record {
  version_only = head?;
  read_v1 = λ t. none;
  read_v2 = λ t. first (wire.dec t);
  write_v2 = λ w. wire.enc w [];
}

pub codec-ReadsBack : ReadsBack codec (λ n. true)
unfolding codec
codec-ReadsBack = record {
  version_only-write = λ w. refl;
  read-write = λ w e. rw (wire.back w []) refl;
}
