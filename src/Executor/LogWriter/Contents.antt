-- ===== src/Executor/LogWriter/Contents.antt =====
-- What the log events of a step spell out, one after the other.
use robine_ci.Prelude.{
  ℕ, zero, suc, ◌+◌, ◌≤◌, ◌<◌, ◌≡◌, refl, sym, ap, ◌∙◌, Option, none, some, List, [], ◌∷◌, ◌++◌,
  arith, length, take, drop, Option-cases, inl, inr, append_assoc, append-nil, length-take,
  length-drop, take-append-drop, if◌then◌else◌,
}
use robine_ci.Prelude.Bytes.{Bytes, codes, bytes_eq}
use robine_ci.Run.{bind_result, pure, ◌>>=◌}
use robine_ci.Executor.{
  Env, State, Request, log_event, attempt_event, outside, send, next_sequence, send_log,
}
use robine_ci.Executor.LogWriter.{LogWriter, max_chunk_bytes, send_chunk, deliver_chunks}

-- The output in the log events: the content of those of the stream "combined".
abbrev pub contents : List Request → Bytes
contents [] = []
contents (log_event e ∷ rs) =
    (if bytes_eq e.stream (codes "combined") then e.content else []) ++ contents rs
contents (attempt_event e ∷ rs) = contents rs

pub contents-append : (rs qs : List Request) → contents (rs ++ qs) ≡ contents rs ++ contents qs
contents-append [] qs = refl
contents-append (log_event e ∷ rs) qs =
    ap (λ t. (if bytes_eq e.stream (codes "combined") then e.content else []) ++ t)
      (contents-append rs qs)
    ∙ sym (append_assoc _ (contents rs) (contents qs))
contents-append (attempt_event e ∷ rs) qs = contents-append rs qs

-- `w'` has sent `output` after what `w` sent, in the same step and with the same redactor.
pub record Sent {env : Env} (w : LogWriter) (s : State env) (output : Bytes) (w' : LogWriter)
    (s' : State env) : Type 0 where
  pub spelled : contents s'.sent ≡ contents s.sent ++ output
  pub written : w'.written ≡ w.written + length output
  pub redactor : w'.redactor ≡ w.redactor

pub some_ne_none : {A : Type 0} {a : A} → some a ≡ none → ⊥
some_ne_none e = cc

max_chunk_pos : 0 < max_chunk_bytes
unfolding max_chunk_bytes
max_chunk_pos = omega arith

module _ {env : Env} where
  pub Sent-nothing : (w : LogWriter) (s : State env) → Sent w s [] w s
  Sent-nothing w s = record { spelled = sym (append-nil _); written = omega arith; redactor = refl }

  pub contents-send_chunk :
      (w : LogWriter) (chunk : Bytes) (s : State env)
      → contents (send_chunk w chunk s).1.sent ≡ contents s.sent ++ chunk
  unfolding send_chunk send_log send next_sequence outside ◌>>=◌ bytes_eq
  contents-send_chunk w chunk s =
      contents-append s.sent _ ∙ ap (λ t. contents s.sent ++ t) (append-nil chunk)

  module _ (f : ℕ) (w : LogWriter) (c : ℕ) (output : Bytes) (s : State env) where
    abbrev pub sending : Option Bytes × State env
    sending = send_chunk w (take max_chunk_bytes (c ∷ output)) s

    abbrev pub one_more : LogWriter
    one_more = record w { written = w.written + length (take max_chunk_bytes (c ∷ output)) }

    pub deliver_chunks_ok :
        sending.0 ≡ none
        → deliver_chunks (suc f) w (c ∷ output) s
          ≡ deliver_chunks f one_more (drop max_chunk_bytes (c ∷ output)) sending.1
    unfolding deliver_chunks
    deliver_chunks_ok e = bind_result (send_chunk w (take max_chunk_bytes (c ∷ output))) _ s none e

    pub deliver_chunks_error :
        (error : Bytes)
        → sending.0 ≡ some error
        → deliver_chunks (suc f) w (c ∷ output) s
          ≡ (record w { delivery_error = some error }, sending.1)
    unfolding deliver_chunks pure
    deliver_chunks_error error e =
        bind_result (send_chunk w (take max_chunk_bytes (c ∷ output))) _ s (some error) e

  pub deliver_chunks-Sent :
      (f : ℕ) (w : LogWriter) (output : Bytes) (s : State env)
      → length output ≤ f
      → (deliver_chunks f w output s).0.delivery_error ≡ none
      → Sent w s output (deliver_chunks f w output s).0 (deliver_chunks f w output s).1
  deliver_chunks-Sent zero w [] s fits h = unfold deliver_chunks pure in Sent-nothing w s
  deliver_chunks-Sent zero w (c ∷ output) s fits h = absurd (omega arith)
  deliver_chunks-Sent (suc f) w [] s fits h = unfold deliver_chunks pure in Sent-nothing w s
  deliver_chunks-Sent (suc f) w (c ∷ output) s fits h =
      elim (Option-cases (send_chunk w (take max_chunk_bytes (c ∷ output)) s).0) [
        | inr (error, e) ↦
            let e' = deliver_chunks_error f w c output s error e in
            absurd (some_ne_none (sym (ap (λ x. x.0.delivery_error) e') ∙ h))
        | inl e ↦
            let e' = deliver_chunks_ok f w c output s e in
            let chunk = take max_chunk_bytes (c ∷ output) in
            let rest = drop max_chunk_bytes (c ∷ output) in
            let ih =
              deliver_chunks-Sent f (one_more f w c output s) rest (sending f w c output s).1
                (omega (arith, length-drop max_chunk_bytes (c ∷ output), max_chunk_pos))
                (sym (ap (λ x. x.0.delivery_error) e') ∙ h) in
            rw e' (record {
              spelled =
                  ih.spelled
                  ∙ ap (λ t. t ++ rest) (contents-send_chunk w chunk s)
                  ∙ append_assoc (contents s.sent) chunk rest
                  ∙ ap (λ t. contents s.sent ++ t) (take-append-drop max_chunk_bytes (c ∷ output));
              written = omega (
                arith,
                ih.written,
                length-drop max_chunk_bytes (c ∷ output),
                length-take max_chunk_bytes (c ∷ output),
              );
              redactor = ih.redactor;
            })
      ]
