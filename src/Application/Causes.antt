-- ===== src/Application/Causes.antt =====
-- The causes that the contexts of the executions in the map can have.
use robine_ci.Prelude.{
  In-append_cases, In-append_left, In-append_right, ap₂, ℕ, ◌<◌, ◌≡◌, ◌≢◌, refl, sym, none, some,
  List, [], ◌∷◌, ◌++◌, arith, Option-cases, inl, inr, ◌⊎◌, In,
}
use mathlib.Core.Path.{subst}
use robine_ci.Prelude.Bytes.{Bytes}
use robine_ci.Application.{
  App, Cause, Call, of_context, of_channel, finish, wait_group_done, cancel_context, to_call,
  make_call,
}
use robine_ci.Application.Invariant.{
  Inv, Reach-Inv, held_by, alone, at_list, finish-books, working-stored,
}
use robine_ci.Application.Clean.{
  Clean, cancel_found-stored, heartbeat-Clean, handle_event-Clean, stop-Clean,
}
use robine_ci.Application.World.{finished, Task, World, Step, Reach}

-- What is cancelled as context.Canceled was so before, or by this call.
cancel_context-canceled :
    (a : App) (n ctx : ℕ) (c : Cause)
    → (cancel_context a n c).cause ctx ≡ some Cause.canceled
    → (a.cause ctx ≡ some Cause.canceled) ⊎ ((ctx ≡ n) × (c ≡ Cause.canceled))
unfolding cancel_context
cancel_context-canceled a n ctx c e = elim (Option-cases (a.cause ctx)) [
  | inl none_yet ↦ inr (ground (arith, e, none_yet), ground (arith, e, none_yet))
  | inr (d, old) ↦ inl (ground (arith, e, old))
]

cancel_context-unset :
    (a : App) (n ctx : ℕ) (c : Cause)
    → n < ctx
    → a.cause ctx ≡ none
    → (cancel_context a n c).cause ctx ≡ none
unfolding cancel_context
cancel_context-unset a n ctx c less e = ground (arith, less, e)

-- What is still to be called after one call was to be called before.
kept :
    {pending : List Call} (before after : List Call) (x : Call)
    → pending ≡ before ++ x ∷ after
    → (y : Call) → In y (before ++ after)
    → In y pending
kept before after x at y m = subst (In y) (sym at) (elim (In-append_cases y before after m) [
  | inl l ↦ In-append_left y before (x ∷ after) l
  | inr r ↦ In-append_right y before (x ∷ after) (inr r)
])

-- One of the calls is made.
make_call-Clean :
    (a : App) (before after : List Call) (x : Call)
    → a.pending ≡ before ++ x ∷ after
    → Clean a
    → Clean (make_call (record a { pending = before ++ after }) x)
unfolding make_call
make_call-Clean a before after (of_channel c) at k = record {
  known = k.known;
  small = λ ctx d m. k.small ctx d (kept before after (of_channel c) at _ m);
  unset = k.unset;
  spared = k.spared;
  unasked = λ id ctx there m. k.unasked id ctx there (kept before after (of_channel c) at _ m);
}
make_call-Clean a before after (of_context n c) at k =
    let b = record a { pending = before ++ after } in
    let asked : In (of_context n c) a.pending =
      subst (In (of_context n c)) (sym at)
        (In-append_right (of_context n c) before (of_context n c ∷ after) (inl refl)) in
    let below = k.small n c asked in
    unfold cancel_context in
    record {
      known = k.known;
      small = λ ctx d m. k.small ctx d (kept before after (of_context n c) at _ m);
      unset = λ ctx h. cancel_context-unset b n ctx c (omega (arith, below, h)) (k.unset ctx h);
      spared = λ id ctx there e. elim (cancel_context-canceled b n ctx c e) [
        | inl old ↦ k.spared id ctx there old
        | inr (same, is) ↦
            k.unasked id ctx there
              (subst (λ p. In p a.pending) (ap₂ of_context (sym same) is) asked)
      ];
      unasked =
          λ id ctx there m. k.unasked id ctx there (kept before after (of_context n c) at _ m);
    }

finish-Clean :
    (a : App) (id : Bytes) (ctx : ℕ) → a.executions ≡ (id, ctx) ∷ [] → Clean a → Clean (finish a id)
finish-Clean a id ctx only k =
    let gone : (j : Bytes) (n : ℕ) → In (j, n) (finish a id).executions → ⊥ =
      λ j n at. subst (In (j, n)) (finish-books a id ctx only).0 at in
    record {
      known = λ j n at. absurd (gone j n at);
      small = λ n c at.
          unfold finish to_call in
          elim (In-append_cases _ a.pending _ at) [
            | inl old ↦ k.small n c old
            | inr new ↦
                let ((j, there), _) = cancel_found-stored id a.executions Cause.canceled n c new in
                k.known j n there
          ];
      unset = λ n h. unfold finish to_call in k.unset n h;
      spared = λ j n at. absurd (gone j n at);
      unasked = λ j n at. absurd (gone j n at);
    }

-- A goroutine that holds an entry calls `finish`.
release-Clean :
    {w : World} (before after : List Task) (t : Task)
    → Inv w
    → w.tasks ≡ before ++ t ∷ after
    → held_by t.phase t.attempt_id t.context ≡ (t.attempt_id, t.context) ∷ []
    → Clean w.app
    → Clean (finish w.app t.attempt_id)
release-Clean {w} before after t inv at holds =
    let inv' = at_list inv at in
    finish-Clean w.app t.attempt_id t.context
      (alone before after t w.app.executions inv'.entries inv'.few holds).2

done-Clean : (a : App) → Clean a → Clean (wait_group_done a)
unfolding wait_group_done
done-Clean a k = record {
  known = k.known;
  small = k.small;
  unset = k.unset;
  spared = k.spared;
  unasked = k.unasked;
}

Step-Clean : {w v : World} → Inv w → Clean w.app → Step w v → Clean v.app
Step-Clean {w} inv k (Step.event e) = handle_event-Clean w.app e k
Step-Clean {w} inv k (Step.heartbeat ids) = heartbeat-Clean ids w.app k
Step-Clean {w} inv k Step.stop = stop-Clean w.app k
Step-Clean {w} inv k (Step.call before after x at) = make_call-Clean w.app before after x at k
Step-Clean inv k (Step.accepted before after t at phase) = k
Step-Clean {w} inv k (Step.not_accepted before after t at phase) = done-Clean w.app k
Step-Clean {w} inv k (Step.give_up before after t at phase) =
    release-Clean before after t inv at (rw phase) k
Step-Clean {w} inv k (Step.complete before after t at phase) =
    release-Clean before after t inv at (rw phase) k
Step-Clean {w} inv k (Step.leave before after t at phase) = done-Clean w.app k

Reach-Clean : {w : World} → Reach w → Clean w.app
Reach-Clean Reach.here = record {
  known = λ id ctx at. absurd at;
  small = λ ctx c at. absurd at;
  unset = λ ctx h. refl;
  spared = λ id ctx at. absurd at;
  unasked = λ id ctx at. absurd at;
}
Reach-Clean (Reach.next r s) = Step-Clean (Reach-Inv r) (Reach-Clean r) s

-- In every reachable state, a goroutine that has not finished its job has a context that is not
-- cancelled as context.Canceled, and no pending call is going to cancel it so.
pub context_not_released :
    {w : World} (before after : List Task) (t : Task)
    → Reach w
    → w.tasks ≡ before ++ t ∷ after
    → t.phase ≢ finished
    → (w.app.cause t.context ≢ some Cause.canceled)
      × (In (of_context t.context Cause.canceled) w.app.pending → ⊥)
context_not_released before after t r at working =
    let k = Reach-Clean r in
    let stored = working-stored before after t r at working in
    (k.spared t.attempt_id t.context stored, k.unasked t.attempt_id t.context stored)
