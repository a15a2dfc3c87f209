-- ===== src/Executor/LogWriter/Records.antt =====
-- What the log writer keeps: any property of the executor's state that calls of the
-- environment and log events keep.
use robine_ci.Prelude.{ℕ, zero, suc, Option, none, some, List, [], ◌∷◌}
use robine_ci.Prelude.Bytes.{Bytes}
use robine_ci.Run.{Run, Preserves, Preserves-pure, Preserves-if, Preserves-bind}
use robine_ci.Executor.{Env, State}
use robine_ci.Executor.Keeping.{Admits, Preserves-option}
use robine_ci.Executor.LogWriter.{
  LogWriter, send_chunk, deliver_chunks, deliver, write, write_unless, write_all, finish, stop_on,
}

module _ {env : Env} {P : State env → Type 0} (admits : Admits P) where
  open admits use {calls, logs}

  send_chunk-Preserves :
      (w : LogWriter) (chunk : Bytes) → Preserves P (send_chunk {env = env} w chunk)
  unfolding send_chunk
  send_chunk-Preserves w chunk = Preserves-bind _ _ (calls _) (λ d. logs _ _ _ _ _ _ _)

  deliver_chunks-Preserves :
      (f : ℕ) (w : LogWriter) (output : Bytes) → Preserves P (deliver_chunks {env = env} f w output)
  unfolding deliver_chunks
  deliver_chunks-Preserves zero w output = Preserves-pure w
  deliver_chunks-Preserves (suc f) w [] = Preserves-pure w
  deliver_chunks-Preserves (suc f) w (c ∷ output) =
      Preserves-bind _ _ (send_chunk-Preserves w _) (λ reply.
        Preserves-option reply _ _ (λ e. Preserves-pure _) (deliver_chunks-Preserves f _ _))

  deliver-Preserves : (w : LogWriter) (output : Bytes) → Preserves P (deliver {env = env} w output)
  unfolding deliver
  deliver-Preserves w output =
      Preserves-if _ _ _ (Preserves-pure w) (deliver_chunks-Preserves _ w _)

  write_unless-Preserves :
      (e : Option Bytes) (w : LogWriter) (input : Bytes)
      → Preserves P (write_unless {env = env} e w input)
  unfolding write_unless
  write_unless-Preserves (some e) w input = Preserves-pure w
  write_unless-Preserves none w input = deliver-Preserves _ _

  pub write_all-Preserves :
      (inputs : List Bytes) (w : LogWriter) → Preserves P (write_all {env = env} w inputs)
  unfolding write_all write
  write_all-Preserves [] w = Preserves-pure w
  write_all-Preserves (input ∷ inputs) w =
      Preserves-bind _ _ (write_unless-Preserves w.delivery_error w input) (λ w'.
        stop_on-Preserves w'.delivery_error _ _ (Preserves-pure w') (write_all-Preserves inputs w'))
    where
      stop_on-Preserves :
          (e : Option Bytes) (m n : Run (State env) LogWriter)
          → Preserves P m
          → Preserves P n
          → Preserves P (stop_on e m n)
      stop_on-Preserves (some e) m n km kn = km
      stop_on-Preserves none m n km kn = kn

  pub finish-Preserves : (w : LogWriter) → Preserves P (finish {env = env} w)
  unfolding finish
  finish-Preserves w = deliver-Preserves _ _
