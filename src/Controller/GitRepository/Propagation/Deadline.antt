-- ===== src/Controller/GitRepository/Propagation/Deadline.antt =====
-- The requeue time that reconcilePropagate computes from the expiries of the tokens.
use mathlib.Core.Path.{subst}
use platform_service_gitops.Controller.GitRepository.Base.{GitRepositoryReconciler}
use platform_service_gitops.Controller.{Runtime}
use platform_service_gitops.Prelude.{
  List, Option, Option-cases, [], ap, arith, inl, inr, none, refl, some, ◌++◌, ◌∷◌, ◌≡◌, ◌⊎◌, ℕ,
  ◌+◌, ◌-◌, ◌<◌, ◌^◌, ◌∙◌, ◌≢◌, ◌≤◌,
}
use platform_service_gitops.McpAccess.{ResolvedTarget}
use platform_service_gitops.Propagate.{TokenMinter}
use platform_service_gitops.Api.GitRepository.{GitRepository}
use platform_service_gitops.Go.Eff.{Eff, pure, ◌>>=◌}
use platform_service_gitops.Go.Int.{pos, ℤ, ◌<ℤ◌, ◌≤ℤ◌}
use platform_service_gitops.Go.Time.{Duration, Time, max_duration, zero_time}
use platform_service_gitops.Controller.GitRepository.Target.{reconcile_target}
use platform_service_gitops.Controller.GitRepository.Status.{set_propagate_status}
use platform_service_gitops.Controller.GitRepository.Propagation.{
  earlier, sync_targets, time_left, with_propagated, sync_all,
}

-- The loop's update of `earliest` over the remaining times of the targets.
unfoldable pub earliest_of : Duration → List Duration → Duration
unfolding earlier
earliest_of earliest [] = earliest
earliest_of earliest (d ∷ ds) = earliest_of (earlier earliest d) ds

abbrev pub AllPositive : List Duration → Type 0
AllPositive [] = Unit {0}
AllPositive (d ∷ ds) = (pos 0 <ℤ d) × AllPositive ds

abbrev pub BelowAll : Duration → List Duration → Type 0
BelowAll m [] = Unit {0}
BelowAll m (d ∷ ds) = (m ≤ℤ d) × BelowAll m ds

abbrev pub OneOf : Duration → List Duration → Type 0
OneOf m [] = ⊥
OneOf m (d ∷ ds) = (m ≡ d) ⊎ OneOf m ds

earlier-pos :
    (e d : Duration)
    → pos 0 <ℤ e
    → pos 0 <ℤ d
    → (pos 0 <ℤ earlier e d)
      × (earlier e d ≤ℤ e)
      × (earlier e d ≤ℤ d)
      × ((earlier e d ≡ e) ⊎ (earlier e d ≡ d))
unfolding earlier
earlier-pos e d p q = (ground arith, ground arith, ground arith, ground arith)

≤ℤ-trans : (a b c : ℤ) → a ≤ℤ b → b ≤ℤ c → a ≤ℤ c
≤ℤ-trans a b c p q = omega arith

BelowAll-mono : (m n : Duration) (ds : List Duration) → m ≤ℤ n → BelowAll n ds → BelowAll m ds
BelowAll-mono m n [] p h = tt
BelowAll-mono m n (d ∷ ds) p (q, h) = (≤ℤ-trans m n d p q, BelowAll-mono m n ds p h)

earliest_of-least :
    (e : Duration) (ds : List Duration)
    → pos 0 <ℤ e
    → AllPositive ds
    → (earliest_of e ds ≤ℤ e)
      × BelowAll (earliest_of e ds) ds
      × ((earliest_of e ds ≡ e) ⊎ OneOf (earliest_of e ds) ds)
unfolding earliest_of
earliest_of-least e [] p a = (omega arith, tt, inl refl)
earliest_of-least e (d ∷ ds) p (q, a) =
    let (positive, below_e, below_d, choice) = earlier-pos e d p q in
    let (top, all, one) = earliest_of-least (earlier e d) ds positive a in
    let m = earliest_of (earlier e d) ds in
    (
      ≤ℤ-trans m (earlier e d) e top below_e,
      (≤ℤ-trans m (earlier e d) d top below_d, all),
      elim one [
        | inl a' ↦ elim choice [ inl b ↦ inl (a' ∙ b) | inr b ↦ inr (inl (a' ∙ b)) ]
        | inr o ↦ inr (inr o)
      ],
    )

one_positive : (m : Duration) (ds : List Duration) → AllPositive ds → OneOf m ds → pos 0 <ℤ m
one_positive m [] a o = absurd o
one_positive m (d ∷ ds) (p, a) o = elim o [
  | inl same ↦ rw same p
  | inr rest ↦ one_positive m ds a rest
]

least_of_zero :
    (ds : List Duration)
    → AllPositive ds
    → ds ≢ []
    → OneOf (earliest_of (pos 0) ds) ds × BelowAll (earliest_of (pos 0) ds) ds
unfolding earliest_of
least_of_zero [] a h = absurd (h refl)
least_of_zero (d ∷ ds) (p, a) h =
    let (top, all, one) = earliest_of-least d ds p a in (one, (top, all))

-- No time left is negative.
abbrev NoneNegative : List Duration → Type 0
NoneNegative [] = Unit {0}
NoneNegative (d ∷ ds) = (pos 0 ≤ℤ d) × NoneNegative ds

time_left_nonneg : (expires now buffer : ℤ) → pos 0 ≤ℤ time_left expires now buffer
unfolding time_left max_duration
time_left_nonneg expires now buffer = ground arith

earlier_nonneg : (e d : Duration) → pos 0 ≤ℤ e → pos 0 ≤ℤ d → pos 0 ≤ℤ earlier e d
unfolding earlier
earlier_nonneg e d p q = ground arith

earlier_due : (e : Duration) → pos 0 ≤ℤ e → earlier e (pos 0) ≡ pos 0
unfolding earlier
earlier_due e p = ground arith

-- A time left of 0 makes the loop start again.
earliest_of_due :
    (e : Duration) (before ds : List Duration)
    → pos 0 ≤ℤ e
    → NoneNegative (before ++ (pos 0 ∷ ds))
    → earliest_of e (before ++ (pos 0 ∷ ds)) ≡ earliest_of (pos 0) ds
unfolding earliest_of
earliest_of_due e [] ds p h = ap (λ m. earliest_of m ds) (earlier_due e p)
earliest_of_due e (d ∷ before) ds p (q, h) =
    earliest_of_due (earlier e d) before ds (earlier_nonneg e d p q) h

module _ {W : Type 0} (rt : Runtime W) (r : GitRepositoryReconciler W) (id : ℤ)
    (minter : TokenMinter W) where
  abbrev observed : Option Time → Eff W (List Duration)
  observed none = pure []
  observed (some t) = do now ← rt.clock.now; pure (time_left t now r.token_renew_buffer ∷ [])

  -- The times left that the loop sees, in its order.
  unfoldable pub deadlines : List (ResolvedTarget W) → GitRepository → Eff W (List Duration)
  deadlines [] gr = pure []
  deadlines (t ∷ ts) gr = do
    ps ← reconcile_target rt r gr t id minter
    first ← observed ps.token_expires_at
    rest ← deadlines ts (with_propagated gr (set_propagate_status gr.status.propagated ps))
    pure (first ++ rest)

  sync_targets-deadlines :
      (ts : List (ResolvedTarget W)) (gr : GitRepository) (earliest : Duration) (w : W)
      → (sync_targets rt r ts gr id minter earliest w).0.1
        ≡ earliest_of earliest (deadlines ts gr w).0
  unfolding sync_targets deadlines earliest_of
  sync_targets-deadlines [] gr earliest w = refl
  sync_targets-deadlines (t ∷ ts) gr earliest w =
      elim (Option-cases (reconcile_target rt r gr t id minter w).0.token_expires_at) [
        | inl p ↦ rw p (sync_targets-deadlines ts _ _ _)
        | inr (e, p) ↦ rw p (sync_targets-deadlines ts _ _ _)
      ]

  -- If every time left that the loop sees is positive, and there is one, the requeue time is one of
  -- them and at most each of them.
  pub sync_all-least :
      (ts : List (ResolvedTarget W)) (gr : GitRepository) (w : W)
      → AllPositive (deadlines ts gr w).0
      → (deadlines ts gr w).0 ≢ []
      → let m = (sync_all rt r ts gr id minter w).0.1 in
        OneOf m (deadlines ts gr w).0 × BelowAll m (deadlines ts gr w).0
  unfolding sync_all
  sync_all-least ts gr w a nonempty =
      rw (sync_targets-deadlines ts gr (pos 0) w) (least_of_zero (deadlines ts gr w).0 a nonempty)

  deadlines-NoneNegative :
      (ts : List (ResolvedTarget W)) (gr : GitRepository) (w : W)
      → NoneNegative (deadlines ts gr w).0
  unfolding deadlines
  deadlines-NoneNegative [] gr w = tt
  deadlines-NoneNegative (t ∷ ts) gr w =
      let ps = (reconcile_target rt r gr t id minter w).0 in
      let now = rt.clock.now (reconcile_target rt r gr t id minter w).1 in
      elim (Option-cases ps.token_expires_at) [
        | inl p ↦ rw p (deadlines-NoneNegative ts _ _)
        | inr (e, p) ↦
            rw p (time_left_nonneg e now.0 r.token_renew_buffer, deadlines-NoneNegative ts _ _)
      ]

  -- If the loop sees a time left of 0 and after it others, which are all positive, then the requeue
  -- time is positive, and it is the least of those others: what came before is forgotten, with the
  -- token that is due now.
  pub sync_all-forgets_due :
      (ts : List (ResolvedTarget W)) (gr : GitRepository) (w : W) (before ds : List Duration)
      → (deadlines ts gr w).0 ≡ before ++ (pos 0 ∷ ds)
      → AllPositive ds
      → ds ≢ []
      → let m = (sync_all rt r ts gr id minter w).0.1 in (pos 0 <ℤ m) × OneOf m ds × BelowAll m ds
  unfolding sync_all
  sync_all-forgets_due ts gr w before ds p a nonempty =
      let (one, all) = least_of_zero ds a nonempty in
      let bounds : NoneNegative (before ++ (pos 0 ∷ ds)) =
        subst NoneNegative p (deadlines-NoneNegative ts gr w) in
      rw
        (
          sync_targets-deadlines ts gr (pos 0) w,
          p,
          earliest_of_due (pos 0) before ds (omega arith) bounds,
        )
        (one_positive (earliest_of (pos 0) ds) ds a one, one, all)

-- For a token without an expiry, at a present 2^63 ns or more after the zero time and with a buffer
-- that is positive and at most 2^63 ns, the time left is 2^63 ns less the buffer, because the
-- subtraction wraps.
pub time_left-zero_time :
    (now buffer : ℕ)
    → 2 ^ 63 ≤ now
    → 0 < buffer
    → buffer ≤ 2 ^ 63
    → time_left zero_time (pos now) (pos buffer) ≡ pos (2 ^ 63 - buffer)
unfolding time_left
time_left-zero_time now buffer h p q = ground arith

-- At a time that is not negative, for an expiry less than 2^63 ns later and a buffer below 2^63 ns,
-- the time left is their difference, but at least 0.
pub time_left_in_range :
    (left now buffer : ℕ)
    → left < 2 ^ 63
    → buffer < 2 ^ 63
    → time_left (pos (now + left)) (pos now) (pos buffer) ≡ pos (left - buffer)
unfolding time_left
time_left_in_range left now buffer p q = ground arith
