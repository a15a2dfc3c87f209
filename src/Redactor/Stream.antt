-- ===== src/Redactor/Stream.antt =====
-- Pushing the chunks of a text one by one.
use robine_ci.Prelude.{
  ◌≡◌, refl, sym, ap, ◌∙◌, List, [], ◌∷◌, ◌++◌, arith, length, append_assoc, append-nil, concat,
}
use robine_ci.Prelude.Bytes.{Bytes}
use robine_ci.Redactor.{Redactor, push, finish, consume}
use robine_ci.Redactor.Rounds.{PrefixFree}
use robine_ci.Redactor.Loop.{NoneEmpty, redacted, redacted-resume, Extends-of_free}

-- All that is written when the chunks are pushed in turn and the redactor is finished.
unfoldable pub stream : Redactor → List Bytes → Bytes
stream r [] = (finish r).0
stream r (chunk ∷ chunks) = let (output, r') = push r chunk in output ++ stream r' chunks

pub secrets-push : (r : Redactor) (chunk : Bytes) → (push r chunk).1.secrets ≡ r.secrets
unfolding push consume
secrets-push r chunk = refl

push_resume :
    (r : Redactor) (chunk x : Bytes)
    → NoneEmpty r.secrets
    → PrefixFree r.secrets
    → redacted r.secrets ((r.pending ++ chunk) ++ x)
      ≡ (push r chunk).0 ++ redacted r.secrets ((push r chunk).1.pending ++ x)
unfolding push consume
push_resume r chunk x full free =
    redacted-resume (length (r.pending ++ chunk)) r.secrets (r.pending ++ chunk) x full
      (Extends-of_free r.secrets x free) (omega arith)

pub stream-redacted :
    (r : Redactor) (chunks : List Bytes)
    → NoneEmpty r.secrets
    → PrefixFree r.secrets
    → stream r chunks ≡ redacted r.secrets (r.pending ++ concat chunks)
unfolding stream
stream-redacted r [] full free = unfold finish consume in rw append-nil
stream-redacted r (chunk ∷ chunks) full free =
    let ih =
      stream-redacted (push r chunk).1 chunks (rw (secrets-push r chunk) full)
        (rw (secrets-push r chunk) free) in
    let o = (push r chunk).0 in
    ap (λ t. o ++ t) ih
    ∙ ap (λ ss. o ++ redacted ss ((push r chunk).1.pending ++ concat chunks)) (secrets-push r chunk)
    ∙ sym (push_resume r chunk (concat chunks) full free)
    ∙ ap (redacted r.secrets) (append_assoc r.pending chunk (concat chunks))
