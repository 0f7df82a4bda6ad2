-- ===== src/Supervisor/Switching/Manual.antt =====
-- The manual switch (src/supervisor.rs, `switch_to`).
use mathlib.Core.Bool.{Bool-set}
use mathlib.Core.List.{Mem, Memᴰ}
use mathlib.Core.List.Memᴰ
use mathlib.Core.Logic.{∥∥₁_elim}
use causeway.Prelude.{
  ℕ, zero, suc, ◌≡◌, ◌≢◌, refl, subst, if◌then◌else◌, inl, inr, Bool, true, false, not, ◌&&◌,
  Option, none, some, List, [], ◌∷◌, take, filterb, find, Bool-cases, arith,
}
use causeway.Prelude.Text.{Text, text_eq, text_eq_iff, is_text, is_text_iff}
use causeway.Prelude.Result.{Result, ok, err}
use causeway.Score.{Float}
use causeway.Subscription.{Node, name}
use causeway.Supervisor.Candidates.{Sorting}
use causeway.Supervisor.Activation.{ActiveNode, Env, Sys}
use causeway.Supervisor.Activation.Moves.{
  Unmoved, Switched, Unmoved-refl, Unmoved-trans, Switched-after,
}
use causeway.Supervisor.Activation.Attempts.{Outcome, try_candidates_outcome}
use causeway.Supervisor.Switching.{
  SwitchOutcome, SwitchError, switch_to, switch_to_node, after_requested, after_fallback,
  alternates_of, active_name, max_switch_candidates,
}

module _ {A : Type 0} where
  Memᴰ-take : (n : ℕ) (l : List A) (a : A) → Memᴰ a (take n l) → Memᴰ a l
  Memᴰ-take zero l a m = absurd (Memᴰ.not-nil m)
  Memᴰ-take (suc n) [] a m = m
  Memᴰ-take (suc n) (x ∷ l) a m = elim (Memᴰ.cases_cons m) [
    | inl e ↦ Memᴰ.head e
    | inr k ↦ Memᴰ.tail (Memᴰ-take n l a k)
  ]

  Memᴰ-filterb : (p : A → Bool) (l : List A) (a : A) → Memᴰ a (filterb p l) → p a ≡ true
  Memᴰ-filterb p [] a m = absurd (Memᴰ.not-nil m)
  Memᴰ-filterb p (x ∷ l) a m = elim (Bool-cases (p x)) [
    | inl e ↦
        elim (Memᴰ.cases_cons
          (subst (λ b. Memᴰ a (if b then x ∷ filterb p l else filterb p l)) e m)) [
            | inl same ↦ rw same e
            | inr k ↦ Memᴰ-filterb p l a k
          ]
    | inr e ↦
        Memᴰ-filterb p l a (subst (λ b. Memᴰ a (if b then x ∷ filterb p l else filterb p l)) e m)
  ]

  Mem-single : (p : A → Bool) (b a : A) → p b ≡ true → Mem a (b ∷ []) → p a ≡ true
  Mem-single p b a h m =
      ∥∥₁_elim m (Bool-set _ _)
        (λ d. elim (Memᴰ.cases_cons d) [ inl e ↦ rw e h | inr k ↦ absurd (Memᴰ.not-nil k) ])

  -- What `filter` and `take` let through passes the test.
  Mem-kept : (p : A → Bool) (n : ℕ) (l : List A) (a : A) → Mem a (take n (filterb p l)) → p a ≡ true
  Mem-kept p n l a m =
      ∥∥₁_elim m (Bool-set _ _) (λ d. Memᴰ-filterb p l a (Memᴰ-take n (filterb p l) a d))

module _ (F : Float) (sorting : Sorting Node) where
  -- What a manual switch may come to, from `s`.
  abbrev pub Answered :
      Env F.F64 → Sys F.F64 → Text → Result SwitchError SwitchOutcome × Sys F.F64 → Type 0
  Answered env s requested (err e, s') = Unmoved s s'
  Answered env s requested (ok o, s') =
      (o.requested ≡ requested)
      × (active_name s'.rt.active ≡ some o.installed)
      × (o.fallback ≡ false → o.installed ≡ requested)
      × (o.fallback ≡ true → o.installed ≢ requested)
      × (is_text (active_name s.rt.active) requested ≡ true → s' ≡ s)
      × (is_text (active_name s.rt.active) requested ≡ false
          → (a : ActiveNode) × Switched env s s' a)

  after_fallback-Answered :
      (env : Env F.F64) (s t : Sys F.F64) (requested : Text) (cause : Option Text) (l : List Node)
      (o : Result (Option Text) Text × Sys F.F64)
      → is_text (active_name s.rt.active) requested ≡ false
      → Unmoved s t
      → ((n : Node) → Mem n l → text_eq (name n) requested ≡ false)
      → Outcome F env t l o
      → Answered env s requested (after_fallback F sorting requested cause o)
  unfolding after_fallback
  after_fallback-Answered env s t requested cause l (ok n, u) new h other (inl (c, e, k)) = cc
  after_fallback-Answered env s t requested cause l (ok n, u) new h other (inr (a, e, m, k)) = (
    refl,
    ground (arith, k.active),
    (λ e'. cc),
    (λ e' same. ground (arith, other a.node m, text_eq_iff (name a.node) requested)),
    (λ e'. cc),
    (λ e'. (a, Switched-after env a h k)),
  )
  after_fallback-Answered env s t requested cause l (err c, u) new h other (inl (c', e, k)) =
      Unmoved-trans h k
  after_fallback-Answered env s t requested cause l (err c, u) new h other (inr (a, e, m, k)) = cc

  after_requested-Answered :
      (env : Env F.F64) (s : Sys F.F64) (node : Node) (requested : Text) (current : Option Text)
      (o : Result (Option Text) Text × Sys F.F64)
      → is_text (active_name s.rt.active) requested ≡ false
      → name node ≡ requested
      → Outcome F env s (node ∷ []) o
      → Answered env s requested (after_requested F sorting env requested current o)
  unfolding after_requested alternates_of
  after_requested-Answered env s node requested current (ok n, u) new named (inl (c, e, k)) = cc
  after_requested-Answered env s node requested current (ok n, u) new named (inr (a, e, m, k)) = (
    refl,
    ground (arith, k.active),
    (λ e'. ground (
      arith,
      text_eq_iff (name a.node) requested,
      text_eq_iff (name node) requested,
      Mem-single (λ n'. text_eq (name n') requested) node a.node,
    )),
    (λ e'. cc),
    (λ e'. cc),
    (λ e'. (a, k)),
  )
  after_requested-Answered env s node requested current (err c, u) new named (inl (c', e, k)) =
      after_fallback-Answered env s u requested c _ _ new k (λ n m. kept n m)
        (try_candidates_outcome F env u _ _)
    where
      other : Node → Bool
      other n = not (text_eq (name n) requested) && not (is_text current (name n))

      kept :
          (n : Node)
          → Mem n (alternates_of F sorting env u [] other)
          → text_eq (name n) requested ≡ false
      kept n m = ground (arith, Mem-kept other max_switch_candidates _ n m)
  after_requested-Answered env s node requested current (err c, u) new named (inr (a, e, m, k)) = cc

  find-named :
      (requested : Text) (pool : List Node) (node : Node)
      → find (λ n. text_eq (name n) requested) pool ≡ some node
      → name node ≡ requested
  find-named requested [] node e = cc
  find-named requested (n ∷ pool) node e =
      ground (arith, text_eq_iff (name n) requested, find-named requested pool node)

  switch_to_node-Answered :
      (env : Env F.F64) (s : Sys F.F64) (requested : Text) (found : Option Node)
      → find (λ n. text_eq (name n) requested) env.pool ≡ found
      → Answered env s requested (switch_to_node F sorting env s requested found)
  unfolding switch_to_node
  switch_to_node-Answered env s requested none e = Unmoved-refl s
  switch_to_node-Answered env s requested (some node) e =
      elim (Bool-cases (is_text (active_name s.rt.active) requested)) [
        | inl c ↦ rw c (
          refl,
          ground (arith, is_text_iff (active_name s.rt.active) requested),
          (λ k. refl),
          (λ k. cc),
          (λ k. refl),
          (λ k. cc),
        )
        | inr c ↦ rw c (
            after_requested-Answered env s node requested (active_name s.rt.active) _ c
              (find-named requested env.pool node e) (try_candidates_outcome F env s (node ∷ []) _))
      ]

  -- A manual switch that reports an error has left the class and its paths as they were. One that
  -- reports a success names the node that is now active; it is the requested one exactly if the
  -- reply is not marked as a fallback; if the requested node was active before, nothing at all
  -- changed, and otherwise one path was installed and the old one retired.
  pub switch_to-Answered :
      (env : Env F.F64) (s : Sys F.F64) (requested : Text)
      → Answered env s requested (switch_to F sorting env s requested)
  unfolding switch_to
  switch_to-Answered env s requested = switch_to_node-Answered env s requested _ refl
