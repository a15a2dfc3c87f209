-- ===== src/Offer.antt =====
-- runner-go/internal/runner/types.go: a job offer, and validOffer of runner.go. A Go map is the list
-- of its entries; a JSON document that the code hands on undecoded is `Json`, and a number in it is
-- an integer or one that is none.
use robine_ci.Prelude.{Bool, true, false, not, ◌&&◌, Option, List, [], ◌∷◌, ltb, length}
use robine_ci.Prelude.Int.{ℤ}
use robine_ci.Prelude.Bytes.{Bytes, bytes_eq}

mutual
  pub data Json : Type 0 where
    null : Json
    boolean : Bool → Json
    integer : ℤ → Json
    fraction : Json
    text : Bytes → Json
    array : Items → Json
    object : Fields → Json

  pub data Items : Type 0 where
    nil : Items
    cons : Json → Items → Items

  pub data Fields : Type 0 where
    end : Fields
    field : Bytes → Json → Fields → Fields

pub record JobStep : Type 0 where
  pub name : Bytes
  pub kind : Bytes
  pub value : Bytes
  pub condition : Bytes
  pub options : List (Bytes × Json)

pub record Execution : Type 0 where
  pub attempt_id : Bytes
  pub idempotency_token : Bytes
  pub image : Bytes
  pub shell : Bytes
  pub timeout_ms : ℤ
  pub env : List (Bytes × Bytes)
  pub build_env : List (Bytes × Bytes)
  pub secret_names : List Bytes
  pub services : List (Bytes × Json)
  pub steps : List JobStep

pub record Offer : Type 0 where
  pub attempt_id : Bytes
  pub idempotency_token : Bytes
  pub source_url : Option Bytes
  pub secrets_url : Bytes
  pub builtins_url : Bytes
  pub execution : Execution

-- `s == ""`
abbrev pub is_empty {ℓ} : {A : Type ℓ} → List A → Bool
is_empty [] = true
is_empty (x ∷ xs) = false

unfoldable pub valid_offer : Offer → Bool
valid_offer offer =
    not (is_empty offer.attempt_id)
    && not (is_empty offer.idempotency_token)
    && bytes_eq offer.execution.attempt_id offer.attempt_id
    && not (is_empty offer.secrets_url)
    && not (is_empty offer.builtins_url)
    && ltb 0 (length offer.execution.steps)
