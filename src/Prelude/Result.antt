-- ===== src/Prelude/Result.antt =====
-- Rust's `Result`, with the chain of fallible steps.
use mathlib.Core.Bool.{Bool, true, false}
use mathlib.Core.Path.{◌≡◌, refl}
use mathlib.Core.Option.{Option, none, some}

pub data Result (E A : Type 0) : Type 0 where
  ok : A → Result E A
  err : E → Result E A

infixl 5 ◌>>=◌ ◌>>◌
abbrev pub ◌>>=◌ : {E A B : Type 0} → Result E A → (A → Result E B) → Result E B
ok a >>= f = f a
err e >>= f = err e

abbrev pub ◌>>◌ : {E B : Type 0} → Result E (Unit {0}) → Result E B → Result E B
m >> k = m >>= λ _. k

-- `ensure!`, and `if !… { return Err(…) }`.
abbrev pub guard : {E : Type 0} → Bool → E → Result E (Unit {0})
guard true e = ok tt
guard false e = err e

-- `ok_or`, and `context` on an option.
abbrev pub ok_or : {E A : Type 0} → Option A → E → Result E A
ok_or none e = err e
ok_or (some a) e = ok a

-- A chain that succeeds has steps that succeed.
pub bind-ok :
    {E A B : Type 0} (m : Result E A) (f : A → Result E B) (b : B)
    → (m >>= f) ≡ ok b
    → (a : A) × (m ≡ ok a) × (f a ≡ ok b)
bind-ok (ok a) f b h = (a, refl, h)
bind-ok (err e) f b h = absurd cc

pub guard-ok : {E : Type 0} (c : Bool) (e : E) (u : Unit {0}) → guard c e ≡ ok u → c ≡ true
guard-ok true e u h = refl
guard-ok false e u h = absurd cc

pub then_first :
    {E B : Type 0} (m : Result E (Unit {0})) (k : Result E B) (b : B) → (m >> k) ≡ ok b → m ≡ ok tt
then_first (ok u) k b h = refl
then_first (err e) k b h = absurd cc

pub then_last :
    {E B : Type 0} (m : Result E (Unit {0})) (k : Result E B) (b : B) → (m >> k) ≡ ok b → k ≡ ok b
then_last (ok u) k b h = h
then_last (err e) k b h = absurd cc
