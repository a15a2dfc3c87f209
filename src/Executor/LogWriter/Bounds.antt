-- ===== src/Executor/LogWriter/Bounds.antt =====
-- How much output the log events of a step's writer carry, with requests that fail.
use robine_ci.Prelude.{
  ℕ, zero, suc, ◌+◌, ◌-◌, ◌≤◌, ◌≡◌, ap, none, length-append, List, [], ◌∷◌, arith, leb, length,
  take, drop, Option-cases, inl, inr, Bool-cases, length-take, length-drop, All, All-append,
}
use robine_ci.Prelude.Bytes.{Bytes}
use robine_ci.Run.{pure, ◌>>=◌}
use robine_ci.Executor.{
  Env, State, Request, log_event, attempt_event, StepLog, send_log, send, next_sequence, outside,
}
use robine_ci.Executor.LogWriter.{
  LogWriter, new_log_writer, max_output_bytes, max_chunk_bytes, send_chunk, deliver_chunks, deliver,
  write, write_all, finish,
}
use robine_ci.Executor.LogWriter.Contents.{
  contents, contents-send_chunk, some_ne_none, deliver_chunks_ok, deliver_chunks_error, one_more,
  sending,
}
use robine_ci.Executor.LogWriter.Output.{log_output}
use robine_ci.Redactor.{new_redactor}
use robine_ci.Redactor.Stream.{stream}

-- The size of the output in a request is at most one chunk.
abbrev pub IsSmall : Request → Type 0
IsSmall (log_event e) = length e.content ≤ max_chunk_bytes
IsSmall (attempt_event e) = Unit

-- The bounds on what the log events hold, where they held `before` bytes of output at the start. A chunk
-- whose request fails is in a log event that was sent, and the writer does not count it.
pub record IsBounded {env : Env} (before : ℕ) (x : LogWriter × State env) : Type 0 where
  pub counted : x.0.written ≤ max_output_bytes
  pub sent : length (contents x.1.sent) ≤ before + (max_output_bytes + max_chunk_bytes)
  pub whole : x.0.delivery_error ≡ none → length (contents x.1.sent) ≤ before + max_output_bytes
  pub small : All IsSmall x.1.sent

-- The state between two deliveries: all output after `n` bytes is counted.
record IsCounted {env : Env} (n : ℕ) (w : LogWriter) (s : State env) : Type 0 where
  pub total : w.written ≤ max_output_bytes
  pub spent : length (contents s.sent) ≤ n + w.written
  pub small : All IsSmall s.sent

-- After a delivery at most one chunk is sent and not counted, and only where its request failed.
record IsDelivered {env : Env} (n : ℕ) (x : LogWriter × State env) : Type 0 where
  pub total : x.0.written ≤ max_output_bytes
  pub at_most : length (contents x.1.sent) ≤ n + max_output_bytes
  pub nearly : length (contents x.1.sent) ≤ n + (x.0.written + max_chunk_bytes)
  pub exact : x.0.delivery_error ≡ none → length (contents x.1.sent) ≤ n + x.0.written
  pub small : All IsSmall x.1.sent

module _ {env : Env} where
  send_chunk-IsSmall :
      (w : LogWriter) (chunk : Bytes) (s : State env)
      → length chunk ≤ max_chunk_bytes
      → All IsSmall s.sent
      → All IsSmall (send_chunk w chunk s).1.sent
  unfolding send_chunk send_log send next_sequence outside ◌>>=◌
  send_chunk-IsSmall w chunk s h small = All-append IsSmall s.sent _ small (h, tt)

  nothing_more : (n : ℕ) (w : LogWriter) (s : State env) → IsCounted n w s → IsDelivered n (w, s)
  nothing_more n w s c = record {
    total = c.total;
    at_most = omega (arith, c.total, c.spent);
    nearly = omega (arith, c.spent);
    exact = λ e. c.spent;
    small = c.small;
  }

  deliver_chunks-IsDelivered :
      (n f : ℕ) (w : LogWriter) (output : Bytes) (s : State env)
      → w.written + length output ≤ max_output_bytes
      → IsCounted n w s
      → IsDelivered n (deliver_chunks f w output s)
  deliver_chunks-IsDelivered n zero w output s room c =
      unfold deliver_chunks pure in nothing_more n w s c
  deliver_chunks-IsDelivered n (suc f) w [] s room c =
      unfold deliver_chunks pure in nothing_more n w s c
  deliver_chunks-IsDelivered n (suc f) w (b ∷ output) s room c =
      let chunk = take max_chunk_bytes (b ∷ output) in
      let sized = length-take max_chunk_bytes (b ∷ output) in
      let small' = send_chunk-IsSmall w chunk s (omega (arith, sized)) c.small in
      let grown = ap length (contents-send_chunk w chunk s) in
      let sum = length-append (contents s.sent) chunk in
      elim (Option-cases (send_chunk w chunk s).0) [
        | inr (error, e) ↦ rw (deliver_chunks_error f w b output s error e) (record {
          total = c.total;
          at_most = omega (arith, c.spent, grown, sum, sized);
          nearly = omega (arith, c.spent, grown, sum, sized);
          exact = λ none_left. absurd (some_ne_none none_left);
          small = small';
        })
        | inl e ↦ rw (deliver_chunks_ok f w b output s e) (
            deliver_chunks-IsDelivered n f (one_more f w b output s)
              (drop max_chunk_bytes (b ∷ output)) (sending f w b output s).1
              (omega (arith, sized, length-drop max_chunk_bytes (b ∷ output)))
              (record {
                total = omega (arith, sized);
                spent = omega (arith, c.spent, grown, sum);
                small = small';
              }))
      ]

  deliver-IsDelivered :
      (n : ℕ) (w : LogWriter) (output : Bytes) (s : State env)
      → IsCounted n w s
      → IsDelivered n (deliver w output s)
  unfolding deliver pure
  deliver-IsDelivered n w output s c = elim (Bool-cases (leb max_output_bytes w.written)) [
    | inl full ↦ rw full (nothing_more n w s c)
    | inr open_ ↦ rw open_ (
        deliver_chunks-IsDelivered n (length (take (max_output_bytes - w.written) output)) w
          (take (max_output_bytes - w.written) output) s
          (omega (arith, c.total, length-take (max_output_bytes - w.written) output)) c)
  ]

  write-IsDelivered :
      (n : ℕ) (w : LogWriter) (input : Bytes) (s : State env)
      → IsCounted n w s
      → IsDelivered n (write w input s)
  unfolding write pure
  write-IsDelivered n w input s c = elim (Option-cases w.delivery_error) [
    | inr (error, e) ↦ simp e (nothing_more n w s c)
    | inl e ↦
        simp e (
          deliver-IsDelivered n _ _ s
            (record { total = c.total; spent = c.spent; small = c.small }))
  ]

  write_all-IsDelivered :
      (n : ℕ) (inputs : List Bytes) (w : LogWriter) (s : State env)
      → IsCounted n w s
      → IsDelivered n (write_all w inputs s)
  unfolding write_all pure ◌>>=◌
  write_all-IsDelivered n [] w s c = nothing_more n w s c
  write_all-IsDelivered n (input ∷ inputs) w s c =
      let d = write-IsDelivered n w input s c in
      elim (Option-cases (write w input s).0.delivery_error) [
        | inr (error, e) ↦ rw e d
        | inl e ↦ rw e (
            write_all-IsDelivered n inputs (write w input s).0 (write w input s).1
              (record { total = d.total; spent = d.exact e; small = d.small }))
      ]

  -- Whatever a step writes and whichever requests fail: the output in the log events that its writer
  -- sends is at most the limit where none of its requests fails, and at most the limit and one chunk
  -- otherwise; and no log event holds more than one chunk if none did before.
  pub log_bounds :
      (step : StepLog) (secrets : List (Bytes × Bytes)) (inputs : List Bytes) (s : State env)
      → All IsSmall s.sent
      → IsBounded
          (length (contents s.sent))
          ((write_all (new_log_writer step secrets) inputs >>= finish) s)
  unfolding ◌>>=◌ finish new_log_writer
  log_bounds step secrets inputs s small =
      let n = length (contents s.sent) in
      let w = new_log_writer step secrets in
      let d =
        write_all-IsDelivered n inputs w s
          (record { total = omega arith; spent = omega arith; small = small }) in
      let last =
        deliver-IsDelivered (n + max_chunk_bytes) _ _ _
          (record { total = d.total; spent = omega (arith, d.nearly); small = d.small }) in
      let text = stream (new_redactor secrets) inputs in
      record {
        counted = last.total;
        sent = omega (arith, last.at_most);
        whole = λ e. omega (
          arith,
          ap length (log_output step secrets inputs s e),
          length-append (contents s.sent) (take max_output_bytes text),
          length-take max_output_bytes text,
        );
        small = last.small;
      }
