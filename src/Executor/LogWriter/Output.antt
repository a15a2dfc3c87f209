-- ===== src/Executor/LogWriter/Output.antt =====
-- The log events of a step spell out its redacted output, up to the limit.
use robine_ci.Prelude.{
  ℕ, zero, suc, ◌-◌, ◌≡◌, refl, sym, ap, ap₂, ◌∙◌, Option, none, some, List, [], ◌∷◌, ◌++◌, arith,
  leb, length, take, drop, min, Option-cases, inl, inr, Bool-cases, append_assoc, append-nil,
  length-append, length-take, take-append,
}
use robine_ci.Prelude.Bytes.{Bytes}
use robine_ci.Redactor
use robine_ci.Redactor.{Redactor, new_redactor}
use robine_ci.Redactor.Stream.{stream}
use robine_ci.Run.{pure, ◌>>=◌}
use robine_ci.Executor.{Env, State, StepLog}
use robine_ci.Executor.LogWriter.{
  LogWriter, new_log_writer, max_output_bytes, max_chunk_bytes, send_chunk, deliver_chunks, deliver,
  write_unless, write, stop_on, write_all, finish,
}
use robine_ci.Executor.LogWriter.Contents.{
  contents, Sent, deliver_chunks-Sent, deliver_chunks_ok, deliver_chunks_error, Sent-nothing,
  some_ne_none, one_more, sending,
}

take_nil : (n : ℕ) → take {A = ℕ} n [] ≡ []
take_nil zero = refl
take_nil (suc n) = refl

-- Behind `base`, the log events spell out `total` as far as the limit allows.
pub record Spells {env : Env} (base total : Bytes) (w : LogWriter) (s : State env) : Type 0 where
  pub spelled : contents s.sent ≡ base ++ take max_output_bytes total
  pub counted : w.written ≡ min max_output_bytes (length total)

module _ {env : Env} where
  deliver-Sent :
      (w : LogWriter) (output : Bytes) (s : State env)
      → (deliver w output s).0.delivery_error ≡ none
      → Sent w s
          (take (max_output_bytes - w.written) output)
          (deliver w output s).0
          (deliver w output s).1
  unfolding deliver pure
  deliver-Sent w output s h = elim (Bool-cases (leb max_output_bytes w.written)) [
    | inl full ↦
        let room : max_output_bytes - w.written ≡ 0 = ground arith in
        rw (full, room) (Sent-nothing w s)
    | inr open_ ↦ rw open_ (
        deliver_chunks-Sent (length (take (max_output_bytes - w.written) output)) w _ s
          (omega arith) (rw open_ at h))
  ]

  deliver-Spells :
      (base total : Bytes) (w : LogWriter) (output : Bytes) (s : State env)
      → Spells base total w s
      → (deliver w output s).0.delivery_error ≡ none
      → Spells base (total ++ output) (deliver w output s).0 (deliver w output s).1
  deliver-Spells base total w output s sp h =
      let sent = deliver-Sent w output s h in
      let room : max_output_bytes - w.written ≡ max_output_bytes - length total =
        omega (arith, sp.counted) in
      record {
        spelled =
            sent.spelled
            ∙ ap₂ ◌++◌ sp.spelled (ap (λ n. take n output) room)
            ∙ append_assoc base (take max_output_bytes total) _
            ∙ ap (λ t. base ++ t) (sym (take-append max_output_bytes total output));
        counted = omega (
          arith,
          sent.written,
          sp.counted,
          length-append total output,
          length-take (max_output_bytes - w.written) output,
        );
      }

  deliver_chunks_sticky :
      (f : ℕ) (w : LogWriter) (output : Bytes) (s : State env)
      → (deliver_chunks f w output s).0.delivery_error ≡ none
      → w.delivery_error ≡ none
  deliver_chunks_sticky zero w output s h = unfold deliver_chunks pure in h
  deliver_chunks_sticky (suc f) w [] s h = unfold deliver_chunks pure in h
  deliver_chunks_sticky (suc f) w (c ∷ output) s h =
      elim (Option-cases (send_chunk w (take max_chunk_bytes (c ∷ output)) s).0) [
        | inr (error, e) ↦ absurd (
            some_ne_none (
              sym (ap (λ x. x.0.delivery_error) (deliver_chunks_error f w c output s error e)) ∙ h))
        | inl e ↦
            deliver_chunks_sticky f (one_more f w c output s) (drop max_chunk_bytes (c ∷ output))
              (sending f w c output s).1
              (sym (ap (λ x. x.0.delivery_error) (deliver_chunks_ok f w c output s e)) ∙ h)
      ]

  pub deliver_sticky :
      (w : LogWriter) (output : Bytes) (s : State env)
      → (deliver w output s).0.delivery_error ≡ none
      → w.delivery_error ≡ none
  unfolding deliver pure
  deliver_sticky w output s h = elim (Bool-cases (leb max_output_bytes w.written)) [
    | inl full ↦ rw full at h
    | inr open_ ↦ deliver_chunks_sticky _ w _ s (rw open_ at h)
  ]

  deliver-redactor :
      (w : LogWriter) (output : Bytes) (s : State env)
      → (deliver w output s).0.delivery_error ≡ none
      → (deliver w output s).0.redactor ≡ w.redactor
  deliver-redactor w output s h = (deliver-Sent w output s h).redactor

  -- One `Write` that meets no error.
  write-none :
      (w : LogWriter) (input : Bytes) (s : State env)
      → w.delivery_error ≡ none
      → write w input s
        ≡ deliver
            (record w { redactor = (Redactor.push w.redactor input).1 })
            (Redactor.push w.redactor input).0
            s
  unfolding write
  write-none w input s e = ap (λ t. write_unless t w input s) e

  write_all_cons :
      (w : LogWriter) (input : Bytes) (inputs : List Bytes) (s : State env) (found : Option Bytes)
      → (write w input s).0.delivery_error ≡ found
      → (write_all w (input ∷ inputs) >>= finish) s
        ≡ (stop_on found (pure (write w input s).0) (write_all (write w input s).0 inputs)
              >>= finish)
            (write w input s).1
  unfolding write_all ◌>>=◌
  write_all_cons w input inputs s found e =
      ap
        (λ t.
          (stop_on t (pure (write w input s).0) (write_all (write w input s).0 inputs) >>= finish)
            (write w input s).1)
        e

  finish_sticky :
      (w : LogWriter) (s : State env)
      → (finish w s).0.delivery_error ≡ none
      → w.delivery_error ≡ none
  unfolding finish
  finish_sticky w s h =
      deliver_sticky (record w { redactor = (Redactor.finish w.redactor).1 })
        (Redactor.finish w.redactor).0 s h

  write_all-Spells :
      (inputs : List Bytes) (base total : Bytes) (w : LogWriter) (s : State env)
      → w.delivery_error ≡ none
      → Spells base total w s
      → let r = (write_all w inputs >>= finish) s in
        r.0.delivery_error ≡ none
        → contents r.1.sent ≡ base ++ take max_output_bytes (total ++ stream w.redactor inputs)
  unfolding stream finish ◌>>=◌ write pure write_all
  write_all-Spells [] base total w s e sp h =
      (deliver-Spells base total (record w { redactor = (Redactor.finish w.redactor).1 })
        (Redactor.finish w.redactor).0 s (record { spelled = sp.spelled; counted = sp.counted })
        h).spelled
  write_all-Spells (input ∷ inputs) base total w s e sp h =
      elim (Option-cases (write w input s).0.delivery_error) [
        | inr (error, bad) ↦
            let e' = write_all_cons w input inputs s (some error) bad in
            let late = sym (ap (λ x. x.0.delivery_error) e') ∙ h in
            absurd
              (some_ne_none (sym bad ∙ finish_sticky (write w input s).0 (write w input s).1 late))
        | inl good ↦
            let e' = write_all_cons w input inputs s none good in
            let pushed = Redactor.push w.redactor input in
            let w1 = record w { redactor = pushed.1 } in
            let same = write-none w input s e in
            let good' = sym (ap (λ x. x.0.delivery_error) same) ∙ good in
            let next =
              deliver-Spells base total w1 pushed.0 s
                (record { spelled = sp.spelled; counted = sp.counted }) good' in
            let next' : Spells base (total ++ pushed.0) (write w input s).0 (write w input s).1 =
              rw same next in
            let redactor = ap (λ x. x.0.redactor) same ∙ deliver-redactor w1 pushed.0 s good' in
            let ih =
              write_all-Spells inputs base (total ++ pushed.0) (write w input s).0
                (write w input s).1 good next' (sym (ap (λ x. x.0.delivery_error) e') ∙ h) in
            ap (λ x. contents x.1.sent) e'
            ∙ ih
            ∙ ap (λ r. base ++ take max_output_bytes ((total ++ pushed.0) ++ stream r inputs))
                redactor
            ∙ ap (λ t. base ++ take max_output_bytes t)
                (append_assoc total pushed.0 (stream pushed.1 inputs))
      ]

-- Whatever the pieces in which a step's output comes, if the writer is left without a delivery error
-- then the contents of the log events it sent, in order, are the redacted output, cut off at the
-- limit.
pub log_output :
    {env : Env} (step : StepLog) (secrets : List (Bytes × Bytes)) (inputs : List Bytes)
    (s : State env)
    → ((write_all (new_log_writer step secrets) inputs >>= finish) s).0.delivery_error ≡ none
    → contents ((write_all (new_log_writer step secrets) inputs >>= finish) s).1.sent
      ≡ contents s.sent ++ take max_output_bytes (stream (new_redactor secrets) inputs)
unfolding new_log_writer
log_output step secrets inputs s h =
    write_all-Spells inputs (contents s.sent) [] (new_log_writer step secrets) s refl
      (record {
        spelled =
            sym (append-nil _) ∙ ap (λ t. contents s.sent ++ t) (sym (take_nil max_output_bytes));
        counted = omega arith;
      })
      h
