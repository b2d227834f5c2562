-- ===== src/Service/Typed.antt =====
-- `typedHandler.Call` and `Client.CallTyped` of service.go. The messages and their codecs are generated code: a
-- parameter.
use go_ipc.Prelude.{ℕ, Bool, Option, none, some, List, ◌==◌, if◌then◌else◌}
use go_ipc.Errors.{Err, Result, ok, err}
use go_ipc.Service.{Answer, reply, failed}
use go_ipc.Service.Client.{Outcome, replied, call_error, refused}

-- `Message`, as operations: `known` is where the generated `NewMessage` gives a message.
pub record Codec (M : Type 0) : Type 0 where
  pub type_id : M → ℕ
  pub marshal : M → Result (List ℕ)
  pub unmarshal : ℕ → List ℕ → Result M
  pub known : ℕ → Bool

-- The texts of the errors: of Go's errors, and the two that the handler makes.
pub record Texts : Type 0 where
  pub of_error : Err → List ℕ
  pub no_message : ℕ → List ℕ
  pub no_reply : List ℕ

-- What `CallTyped` returns.
pub data Typed (M : Type 0) : Type 0 where
  decoded : M → Typed M
  told_text : (text : List ℕ) → Typed M
  refused_typed : Err → Typed M
  wrong_type : (got want : ℕ) → Typed M

module _ {M : Type 0} (codec : Codec M) where
  -- `typedHandler.Call`; a handler that gives no reply is a `none`.
  unfoldable pub typed_handler : Texts → (M → Result (Option M)) → ℕ → List ℕ → Answer
  typed_handler texts handler typ payload =
      if codec.known typ
      then elim (codec.unmarshal typ payload) [
        | err e ↦ failed (texts.of_error e)
        | ok req ↦ elim (handler req) [
          | err e ↦ failed (texts.of_error e)
          | ok answer ↦ elim answer [
            | none ↦ failed (texts.no_reply)
            | some m ↦ elim (codec.marshal m) [
              | err e ↦ failed (texts.of_error e)
              | ok b ↦ reply (codec.type_id m) b
            ]
          ]
        ]
      ]
      else failed (texts.no_message typ)

  -- `CallTyped`, over `Call`, with the type of the message that the reply is decoded into.
  unfoldable pub call_typed : (ℕ → List ℕ → Outcome) → M → ℕ → Typed M
  call_typed call req want = elim (codec.marshal req) [
    | err e ↦ refused_typed e
    | ok payload ↦ elim (call (codec.type_id req) payload) [
      | refused e ↦ refused_typed e
      | call_error text ↦ told_text text
      | replied typ msg ↦
          if typ == want
          then elim (codec.unmarshal want msg) [ ok m ↦ decoded m | err e ↦ refused_typed e ]
          else wrong_type typ want
    ]
  ]
