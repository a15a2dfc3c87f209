-- ===== src/Application/Safety.antt =====
-- What holds in every state that the runner can reach, whatever the schedule.
use robine_ci.Prelude.{
  ℕ, suc, ◌+◌, ◌≤◌, ◌≡◌, ◌≢◌, refl, sym, ap, ◌∙◌, false, List, [], ◌∷◌, arith, length,
  length-append, if◌then◌else◌,
}
use mathlib.Core.Path.{subst}
use robine_ci.Prelude.Bytes.{bytes_eq_ne, Bytes, bytes_eq, bytes_eq_refl}
use robine_ci.Offer.{Offer}
use robine_ci.Application.{
  App, Decision, ignore, reject_busy, ask, accept_offer, lookup, active_attempt_ids, ids,
}
use robine_ci.Application.Books.{Taken, kept, busy, took, accept_offer-Taken}
use robine_ci.Application.World.{Phase, asking, executing, Task, World, Reach}
use robine_ci.Application.Invariant.{Reach-Inv, held, held_by, counted, counts}

-- The goroutines that ask for a job or run one.
abbrev pub live_phase : Phase → ℕ
live_phase asking = 1
live_phase executing = 1
live_phase _ = 0

abbrev pub live : List Task → ℕ
live [] = 0
live (t ∷ ts) = live_phase t.phase + live ts

live_phase_bounds :
    (p : Phase) (id : Bytes) (ctx : ℕ)
    → (live_phase p ≤ length (held_by p id ctx)) × (live_phase p ≤ counts p)
live_phase_bounds asking id ctx = omega arith
live_phase_bounds _ id ctx = omega arith

live-le-held : (ts : List Task) → live ts ≤ length (held ts)
live-le-held [] = omega arith
live-le-held (t ∷ ts) = omega (
  arith,
  live-le-held ts,
  (live_phase_bounds t.phase t.attempt_id t.context).0,
  length-append (held_by t.phase t.attempt_id t.context) (held ts),
)

live-le-counted : (ts : List Task) → live ts ≤ counted ts
live-le-counted [] = omega arith
live-le-counted (t ∷ ts) =
    omega (arith, live-le-counted ts, (live_phase_bounds t.phase t.attempt_id t.context).1)

length-ids : (m : List (Bytes × ℕ)) → length (ids m) ≡ length m
length-ids [] = refl
length-ids (e ∷ m) = ap suc (length-ids m)

-- In every reachable state at most one goroutine asks for a job or runs one, and the runner reports
-- at most one active attempt.
pub one_execution :
    {w : World} → Reach w → (live w.tasks ≤ 1) × (length (active_attempt_ids w.app) ≤ 1)
unfolding active_attempt_ids
one_execution {w} r =
    let inv = Reach-Inv r in
    (
      omega (arith, inv.few, ap length inv.entries, live-le-held w.tasks),
      omega (arith, inv.few, length-ids w.app.executions),
    )

-- In every reachable state where the wait group's counter is zero no goroutine asks for a job or runs
-- one.
pub wait_group_zero : {w : World} → Reach w → w.app.running ≡ 0 → live w.tasks ≡ 0
wait_group_zero {w} r zero_left = omega (arith, (Reach-Inv r).running, live-le-counted w.tasks)

accept_offer_held :
    (b : App) (offer : Offer) (id : Bytes) (ctx : ℕ)
    → b.stopping ≡ false
    → b.executions ≡ (id, ctx) ∷ []
    → accept_offer b offer ≡ (b, if bytes_eq id offer.attempt_id then ignore else reject_busy)
unfolding accept_offer
accept_offer_held b offer id ctx open_ held_ =
    ground (arith, ap (lookup offer.attempt_id) held_, ap length held_)

Taken-held :
    {a b : App} {id : Bytes} {d : Decision} (ctx : ℕ)
    → Taken a id b d
    → d ≡ ask ctx
    → (b.stopping ≡ false) × (b.executions ≡ (id, ctx) ∷ [])
Taken-held ctx (kept same) e = cc
Taken-held ctx busy e = cc
Taken-held {id} ctx (took open_ empty one more same) e =
    (same ∙ open_, one ∙ ap (λ d. (id, context_of d) ∷ []) e)
  where
    context_of : Decision → ℕ
    context_of (ask n) = n
    context_of _ = 0

-- After an offer is taken, the same offer is ignored and an offer of another attempt is rejected as
-- busy, and neither changes the state.
pub accept_offer_again :
    (a b : App) (offer other : Offer) (ctx : ℕ)
    → accept_offer a offer ≡ (b, ask ctx)
    → other.attempt_id ≢ offer.attempt_id
    → (accept_offer b offer ≡ (b, ignore)) × (accept_offer b other ≡ (b, reject_busy))
accept_offer_again a b offer other ctx e ne =
    let taken : Taken a offer.attempt_id b (ask ctx) =
      subst (λ x. Taken a offer.attempt_id x.0 x.1) e (accept_offer-Taken a offer) in
    let (open_, held_) = Taken-held ctx taken refl in
    (
      accept_offer_held b offer offer.attempt_id ctx open_ held_
          ∙ ap (λ t. (b, if t then ignore else reject_busy)) (bytes_eq_refl offer.attempt_id),
      accept_offer_held b other offer.attempt_id ctx open_ held_
          ∙ ap (λ t. (b, if t then ignore else reject_busy))
              (bytes_eq_ne offer.attempt_id other.attempt_id (λ same. ne (sym same))),
    )
