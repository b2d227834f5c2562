-- ===== src/Errors.antt =====
-- The errors of ipc.go, and Go's (value, error) pair as a value.
use go_ipc.Prelude.{ℕ}

pub data Err : Type 0 where
  closed full empty message_too_large reserved_type invalid_name invalid_capacity : Err
  too_small bad_layout corrupt unaligned peer_gone in_use not_consumer too_many_claims : Err
  -- An error of a context, of the kernel or of a library, by a number of its own.
  other : ℕ → Err

pub data Result {ℓ} (A : Type ℓ) : Type ℓ where
  ok : A → Result A
  err : Err → Result A
