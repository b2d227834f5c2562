-- ===== src/Ring/Handles.antt =====
-- `takeSlot` and `putSlot` of queue_peer.go: a handle keeps the claim slots it took from the ring and hands
-- them to its claims, one each. The map of the answers of `isDead` within one call is left out: `dead` is
-- asked again and answers the same.
pub mod Held
mod Tests
use go_ipc.Prelude.{ℕ, Bool, List, [], ◌∷◌}
use go_ipc.Errors.{Result, ok, err}
use go_ipc.Ring.{Ring}
use go_ipc.Ring.Recovery.{acquire_slot}

-- `Queue.idle`, the last one first, and `Queue.owned`.
pub record Handle : Type 0 where
  pub idle : List ℕ
  pub owned : List ℕ

abbrev pub acquired : Handle → Ring × Result ℕ → Handle × Ring × Result ℕ
acquired h (r, ok slot) = (record h { owned = slot ∷ h.owned }, r, ok slot)
acquired h (r, err e) = (h, r, err e)

unfoldable pub take_slot : ℕ → (ℕ → Bool) → Handle → Ring → Handle × Ring × Result ℕ
take_slot self dead h r =
    let fresh = acquired h (acquire_slot self dead r) in
    elim h.idle [ slot ∷ rest ↦ (record h { idle = rest }, r, ok slot) | [] ↦ fresh ]

unfoldable pub put_slot : ℕ → Handle → Handle
put_slot slot h = record h { idle = slot ∷ h.idle }
