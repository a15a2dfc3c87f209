-- ===== src/Transfer/Whole.antt =====
-- transferClient.get and put of http.go: what is transferred is whole, within the limit, and what its
-- digest says.
use robine_ci.Prelude.{
  ℕ, ◌+◌, ◌≤◌, ◌≡◌, refl, sym, Bool, true, false, not, ◌&&◌, Option, none, some, [], ◌∷◌, take,
  length, length-take, take_of_le, ltb, ◌==◌, if◌then◌else◌, ◌⊎◌, inl, inr, arith, Bool-cases,
}
use mathlib.Core.Path.{subst}
use robine_ci.Prelude.Bytes.{Bytes}
use robine_ci.Prelude.Checks.{denied}
use robine_ci.Offer.{is_empty}
use robine_ci.Run.{pure, ◌>>=◌}
use robine_ci.Transfer.{
  Http, Response, Client, Download, Failure, equal_fold, get_request, get_transfer,
  checked_download, downloaded,
}

-- The digest, if one is given for a download with the status 200, is that of the body.
abbrev pub IsAuthentic : Http → Download → Type 0
IsAuthentic http d =
    (d.status == 200 ≡ false)
    ⊎ (d.content_digest ≡ [])
    ⊎ (equal_fold d.content_digest (http.digest d.body) ≡ true)

-- The download is the whole body of a response, within the limit.
abbrev pub IsWhole : Http → Client → Option Response → Download ⊎ Failure → Type 0
IsWhole http c none (inl d) = ⊥
IsWhole http c (some response) (inl d) =
    (d.body ≡ response.body)
    × (d.status ≡ response.status)
    × (length d.body ≤ c.max_archive_bytes)
    × IsAuthentic http d
IsWhole http c response (inr failure) = Unit

whole :
    (limit : ℕ) (body : Bytes)
    → ltb limit (length (take (limit + 1) body)) ≡ false
    → (take (limit + 1) body ≡ body) × (length body ≤ limit)
whole limit body fits =
    let short : length body ≤ limit = ground (arith, fits, length-take (limit + 1) body) in
    (take_of_le (limit + 1) body (omega (arith, short)), short)

authentic :
    (ok : Bool) (given : Bytes) (same : Bool)
    → ok && not (is_empty given) && not same ≡ false
    → (ok ≡ false) ⊎ (given ≡ []) ⊎ (same ≡ true)
authentic false given same h = inl refl
authentic true [] same h = inr (inl refl)
authentic true (c ∷ given) same h = inr (inr (denied same h))

module _ (http : Http) (c : Client) where
  checked_download-IsWhole :
      (response : Response) (b : Bool)
      → IsWhole http c (some response) (
          checked_download http c response
            (if b then some (take (c.max_archive_bytes + 1) response.body) else none))
  unfolding checked_download
  checked_download-IsWhole response false = tt
  checked_download-IsWhole response true =
      elim (Bool-cases
        (ltb c.max_archive_bytes (length (take (c.max_archive_bytes + 1) response.body)))) [
          | inl e ↦ rw e tt
          | inr e ↦
              let (same, short) = whole c.max_archive_bytes response.body e in
              let body = take (c.max_archive_bytes + 1) response.body in
              let digested = equal_fold response.content_digest (http.digest body) in
              elim (Bool-cases (
                response.status == 200 && not (is_empty response.content_digest) && not digested)) [
                  | inl f ↦ rw (e, f) tt
                  | inr f ↦
                      let sized : length body ≤ c.max_archive_bytes =
                        subst (λ b. length b ≤ c.max_archive_bytes) (sym same) short in
                      rw (e, f)
                        (
                          same,
                          refl,
                          sized,
                          authentic (response.status == 200) response.content_digest digested f,
                        )
                ]
        ]

  downloaded-IsWhole :
      (response : Option Response) → IsWhole http c response (downloaded http c response)
  unfolding downloaded
  downloaded-IsWhole none = tt
  downloaded-IsWhole (some response) = checked_download-IsWhole response response.complete

  -- What get returns is the whole body of the server's response, never a cut one, is within the
  -- client's limit, and has the digest that the response gives, if it is a response with the status
  -- 200 that gives one.
  pub get_transfer-IsWhole :
      (endpoint accept : Bytes) (w : http.World)
      → IsWhole http c
          (http.call (get_request c endpoint accept) w).0
          (get_transfer http c endpoint accept w).0
  unfolding get_transfer ◌>>=◌ pure
  get_transfer-IsWhole endpoint accept w =
      downloaded-IsWhole (http.call (get_request c endpoint accept) w).0

  -- A download's digest is the one that the response gives.
  abbrev pub HasDigest : Option Response → Download ⊎ Failure → Type 0
  HasDigest (some response) (inl d) = d.content_digest ≡ response.content_digest
  HasDigest none (inl d) = ⊥
  HasDigest response (inr failure) = Unit

  checked_download-HasDigest :
      (response : Response) (body : Option Bytes)
      → HasDigest (some response) (checked_download http c response body)
  unfolding checked_download
  checked_download-HasDigest response none = tt
  checked_download-HasDigest response (some body) =
      elim (Bool-cases (ltb c.max_archive_bytes (length body))) [
        | inl e ↦ rw e tt
        | inr e ↦
            let bad =
              response.status == 200
              && not (is_empty response.content_digest)
              && not (equal_fold response.content_digest (http.digest body)) in
            elim (Bool-cases bad) [ inl f ↦ rw (e, f) tt | inr f ↦ rw (e, f) refl ]
      ]

  downloaded-HasDigest :
      (response : Option Response) → HasDigest response (downloaded http c response)
  unfolding downloaded
  downloaded-HasDigest none = tt
  downloaded-HasDigest (some response) = checked_download-HasDigest response _

  pub get_transfer-HasDigest :
      (endpoint accept : Bytes) (w : http.World)
      → HasDigest
          (http.call (get_request c endpoint accept) w).0
          (get_transfer http c endpoint accept w).0
  unfolding get_transfer ◌>>=◌ pure
  get_transfer-HasDigest endpoint accept w =
      downloaded-HasDigest (http.call (get_request c endpoint accept) w).0
