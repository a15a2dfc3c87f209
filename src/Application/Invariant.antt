-- ===== src/Application/Invariant.antt =====
-- What links the goroutines to the map of executions and to the wait group, kept by every step.
use mathlib.Core.Path.{subst}
use robine_ci.Prelude.{
  In, In-append_left, In-append_right, inl, ◌≢◌, ℕ, suc, ◌+◌, ◌≤◌, ◌≡◌, refl, sym, ap, ap₂, ◌∙◌,
  List, [], ◌∷◌, ◌++◌, arith, length, length-append, append_assoc,
}
use robine_ci.Prelude.Bytes.{Bytes, bytes_eq_refl}
use robine_ci.Application.{App, Decision, stop_executions, finish, wait_group_done, delete, to_call}
use robine_ci.Application.Books.{
  SameBooks, Taken, kept, busy, took, handle_event-Taken, heartbeat-SameBooks, make_call-SameBooks,
}
use robine_ci.Application.World.{
  Phase, refused, executing, finished, Task, World, Step, Reach, spawned, moved, start,
}

-- The map's entries that the goroutines stand for: all but those that have called `finish`.
abbrev pub held_by : Phase → Bytes → ℕ → List (Bytes × ℕ)
held_by finished id ctx = []
held_by _ id ctx = (id, ctx) ∷ []

abbrev pub held : List Task → List (Bytes × ℕ)
held [] = []
held (t ∷ ts) = held_by t.phase t.attempt_id t.context ++ held ts

-- The goroutines that have not called `executionWG.Done`.
abbrev pub counts : Phase → ℕ
counts refused = 0
counts _ = 1

abbrev pub counted : List Task → ℕ
counted [] = 0
counted (t ∷ ts) = counts t.phase + counted ts

pub record Inv (w : World) : Type 0 where
  pub entries : held w.tasks ≡ w.app.executions
  pub few : length w.app.executions ≤ 1
  pub running : w.app.running ≡ counted w.tasks

pub held-append : (ts us : List Task) → held (ts ++ us) ≡ held ts ++ held us
held-append [] us = refl
held-append (t ∷ ts) us =
    ap (λ m. held_by t.phase t.attempt_id t.context ++ m) (held-append ts us)
    ∙ sym (append_assoc (held_by t.phase t.attempt_id t.context) (held ts) (held us))

pub counted-append : (ts us : List Task) → counted (ts ++ us) ≡ counted ts + counted us
counted-append [] us = omega arith
counted-append (t ∷ ts) us = omega (arith, counted-append ts us)

Inv-start : Inv start
Inv-start = record { entries = refl; few = omega arith; running = refl }

Taken-Inv :
    {a b : App} {id : Bytes} {d : Decision} (ts : List Task)
    → Inv (record { app = a; tasks = ts })
    → Taken a id b d
    → Inv (record { app = b; tasks = spawned d id ++ ts })
Taken-Inv ts inv (kept same) = record {
  entries = inv.entries ∙ sym same.executions;
  few = omega (arith, inv.few, ap length same.executions);
  running = same.running ∙ inv.running;
}
Taken-Inv ts inv busy = inv
Taken-Inv {id} ts inv (took {ctx} open_ none_held one more rest) = record {
  entries = ap (◌∷◌ (id, ctx)) (inv.entries ∙ none_held) ∙ sym one;
  few = omega (arith, ap length one);
  running = more ∙ ap suc inv.running ∙ omega arith;
}

SameBooks-Inv :
    {a b : App} (ts : List Task)
    → Inv (record { app = a; tasks = ts })
    → SameBooks a b
    → Inv (record { app = b; tasks = ts })
SameBooks-Inv {a} {b} ts inv same = Taken-Inv {id = []} ts inv (kept same)

empty_of_length : {A : Type 0} (m : List A) → length m ≤ 0 → m ≡ []
empty_of_length [] h = refl
empty_of_length (x ∷ m) h = absurd (omega arith)

held-split :
    (before after : List Task) (t : Task)
    → held (before ++ t ∷ after)
      ≡ held before ++ (held_by t.phase t.attempt_id t.context ++ held after)
held-split before after t = held-append before (t ∷ after)

-- Where a goroutine that holds an entry stands among the others, no other one holds an entry.
pub alone :
    (before after : List Task) (t : Task) (m : List (Bytes × ℕ))
    → held (before ++ t ∷ after) ≡ m
    → length m ≤ 1
    → held_by t.phase t.attempt_id t.context ≡ (t.attempt_id, t.context) ∷ []
    → (held before ≡ []) × (held after ≡ []) × (m ≡ (t.attempt_id, t.context) ∷ [])
alone before after t m e few h =
    let parts : m ≡ held before ++ (t.attempt_id, t.context) ∷ held after =
      sym e ∙ held-append before (t ∷ after) ∙ ap (λ x. held before ++ (x ++ held after)) h in
    let size = length-append (held before) ((t.attempt_id, t.context) ∷ held after) in
    let none_before = empty_of_length (held before) (omega (arith, ap length parts, size)) in
    let none_after = empty_of_length (held after) (omega (arith, ap length parts, size)) in
    (
      none_before,
      none_after,
      parts ∙ ap₂ (λ x y. x ++ (t.attempt_id, t.context) ∷ y) none_before none_after,
    )

delete_only : (id : Bytes) (ctx : ℕ) → delete id ((id, ctx) ∷ []) ≡ []
unfolding delete
delete_only id ctx = rw (bytes_eq_refl id)

-- A goroutine that holds the only entry takes it out of the map.
pub finish-books :
    (a : App) (id : Bytes) (ctx : ℕ)
    → a.executions ≡ (id, ctx) ∷ []
    → ((finish a id).executions ≡ [])
      × ((finish a id).running ≡ a.running)
      × ((finish a id).stopping ≡ a.stopping)
unfolding finish to_call
finish-books a id ctx e =
    (ground (arith, ap (delete id) e, delete_only id ctx), ground arith, ground arith)

-- The invariant where the list of goroutines is written out.
pub at_list : {w : World} {ts : List Task} → Inv w → w.tasks ≡ ts → Inv (record w { tasks = ts })
at_list inv e = record {
  entries = ap held (sym e) ∙ inv.entries;
  few = inv.few;
  running = inv.running ∙ ap counted e;
}

counted-split :
    (before after : List Task) (t : Task)
    → counted (before ++ t ∷ after) ≡ counted before + (counts t.phase + counted after)
counted-split before after t = counted-append before (t ∷ after)

module _ (before after : List Task) (t : Task) (a b : App) where
  -- A goroutine goes on with the entry that it has, or with none.
  stay-Inv :
      (p : Phase)
      → Inv (record { app = a; tasks = before ++ t ∷ after })
      → held_by p t.attempt_id t.context ≡ held_by t.phase t.attempt_id t.context
      → b.executions ≡ a.executions
      → b.running + counts t.phase ≡ a.running + counts p
      → Inv (record { app = b; tasks = before ++ moved t p ∷ after })
  stay-Inv p inv same books sum = record {
    entries =
        held-split before after (moved t p)
        ∙ ap (λ x. held before ++ (x ++ held after)) same
        ∙ sym (held-split before after t)
        ∙ inv.entries
        ∙ sym books;
    few = omega (arith, inv.few, ap length books);
    running = omega (
      arith,
      sum,
      inv.running,
      counted-split before after t,
      counted-split before after (moved t p),
    );
  }

  -- A goroutine takes the only entry out of the map; `left` is what is left of the goroutine.
  release-Inv :
      (left : List Task)
      → Inv (record { app = a; tasks = before ++ t ∷ after })
      → held_by t.phase t.attempt_id t.context ≡ (t.attempt_id, t.context) ∷ []
      → held left ≡ []
      → counted left ≡ counts t.phase
      → b ≡ finish a t.attempt_id
      → Inv (record { app = b; tasks = before ++ (left ++ after) })
  release-Inv left inv holds gone same done =
      let (none_before, none_after, only) =
        alone before after t a.executions inv.entries inv.few holds in
      let (none_held, runs, _) = finish-books a t.attempt_id t.context only in
      let empty : b.executions ≡ [] = ap (λ x. x.executions) done ∙ none_held in
      record {
        entries =
            held-append before (left ++ after)
            ∙ ap₂ ◌++◌ none_before (held-append left after ∙ ap₂ ◌++◌ gone none_after)
            ∙ sym empty;
        few = omega (arith, ap length empty);
        running = omega (
          arith,
          ap (λ x. x.running) done,
          runs,
          inv.running,
          counted-split before after t,
          counted-append before (left ++ after),
          counted-append left after,
          same,
        );
      }

  -- A goroutine that holds no entry ends.
  drop-Inv :
      Inv (record { app = a; tasks = before ++ t ∷ after })
      → held_by t.phase t.attempt_id t.context ≡ []
      → b.executions ≡ a.executions
      → b.running + counts t.phase ≡ a.running
      → Inv (record { app = b; tasks = before ++ after })
  drop-Inv inv gone books sum = record {
    entries =
        held-append before after
        ∙ ap (λ x. held before ++ (x ++ held after)) (sym gone)
        ∙ sym (held-split before after t)
        ∙ inv.entries
        ∙ sym books;
    few = omega (arith, inv.few, ap length books);
    running =
        omega (arith, sum, inv.running, counted-split before after t, counted-append before after);
  }

-- What a goroutine that has not called `executionWG.Done` takes from the counter was there.
done-running :
    (a : App) (before after : List Task) (t : Task)
    → a.running ≡ counted (before ++ t ∷ after)
    → counts t.phase ≡ 1
    → (wait_group_done a).running + 1 ≡ a.running
unfolding wait_group_done
done-running a before after t e one = omega (arith, e, one, counted-split before after t)

done-executions : (a : App) → (wait_group_done a).executions ≡ a.executions
unfolding wait_group_done
done-executions a = refl

stop-Inv :
    (a : App) (ts : List Task)
    → Inv (record { app = a; tasks = ts })
    → Inv (record { app = stop_executions a; tasks = ts })
unfolding stop_executions to_call
stop-Inv a ts inv = record { entries = inv.entries; few = inv.few; running = inv.running }

-- Every step keeps the invariant.
pub Step-Inv : {w v : World} → Inv w → Step w v → Inv v
Step-Inv {w} inv (Step.event e) = Taken-Inv w.tasks inv (handle_event-Taken w.app e)
Step-Inv {w} inv (Step.heartbeat ids) = SameBooks-Inv w.tasks inv (heartbeat-SameBooks ids w.app)
Step-Inv {w} inv Step.stop = stop-Inv w.app w.tasks inv
Step-Inv {w} inv (Step.call before after x at) =
    SameBooks-Inv {a = record w.app { pending = before ++ after }} w.tasks
      (record { entries = inv.entries; few = inv.few; running = inv.running })
      (make_call-SameBooks (record w.app { pending = before ++ after }) x)
Step-Inv {w} inv (Step.accepted before after t at phase) =
    stay-Inv before after t w.app w.app executing (at_list inv at) (rw phase) refl (rw phase)
Step-Inv {w} inv (Step.not_accepted before after t at phase) =
    stay-Inv before after t w.app (wait_group_done w.app) refused (at_list inv at) (rw phase)
      (done-executions w.app)
      (omega (
        arith,
        ap counts phase,
        done-running w.app before after t (at_list inv at).running (ap counts phase),
      ))
Step-Inv {w} inv (Step.give_up before after t at phase) =
    release-Inv before after t w.app (finish w.app t.attempt_id) [] (at_list inv at) (rw phase) refl
      (sym (ap counts phase)) refl
Step-Inv {w} inv (Step.complete before after t at phase) =
    release-Inv before after t w.app (finish w.app t.attempt_id) (moved t finished ∷ [])
      (at_list inv at) (rw phase) refl (sym (ap counts phase)) refl
Step-Inv {w} inv (Step.leave before after t at phase) =
    drop-Inv before after t w.app (wait_group_done w.app) (at_list inv at) (rw phase)
      (done-executions w.app)
      (omega (
        arith,
        ap counts phase,
        done-running w.app before after t (at_list inv at).running (ap counts phase),
      ))

pub Reach-Inv : {w : World} → Reach w → Inv w
Reach-Inv Reach.here = Inv-start
Reach-Inv (Reach.next r s) = Step-Inv (Reach-Inv r) s

holding : (p : Phase) (id : Bytes) (ctx : ℕ) → p ≢ finished → In (id, ctx) (held_by p id ctx)
holding finished id ctx h = absurd (h refl)
holding _ id ctx h = inl refl

-- A goroutine that has not finished its job has its entry in the map.
pub working-stored :
    {w : World} (before after : List Task) (t : Task)
    → Reach w
    → w.tasks ≡ before ++ t ∷ after
    → t.phase ≢ finished
    → In (t.attempt_id, t.context) w.app.executions
working-stored {w} before after t r at working =
    let e : Bytes × ℕ = (t.attempt_id, t.context) in
    let listed : In e (held (before ++ t ∷ after)) = rw (held-append before (t ∷ after)) (
      In-append_right e (held before) _ (
        In-append_left e (held_by t.phase t.attempt_id t.context) _
          (holding t.phase t.attempt_id t.context working))) in
    subst (In e) (ap held (sym at) ∙ (Reach-Inv r).entries) listed
