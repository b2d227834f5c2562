-- ===== src/EventSock/Tests.antt =====
-- Tests of the event server.
use go_ipc.Prelude.{ℕ, ◌+◌, ◌≡◌, Bool, true, [], ◌∷◌, ◌++◌, inl, refl}
use go_ipc.EventSock.{Server, new_server, wait, signal, client, hand_out}
use go_ipc.EventSock.Tokens.{
  IsSettled, balance, Run, at_rest, and_then, by_client, tokens_lem, hand_out-order,
}

abbrev all_alive : ℕ → Bool
all_alive c = true

-- A client waits, and another signals twice at once.
abbrev signaled : Server
signaled = client all_alive 4 (signal 2) (client all_alive 3 wait new_server)

signaled-Run : Run new_server (0 + 0 + 2) signaled
signaled-Run =
    and_then _ _ _ _ _
      (and_then _ _ _ _ _ (at_rest new_server) (by_client all_alive 3 wait new_server))
      (by_client all_alive 4 (signal 2) (client all_alive 3 wait new_server))

tokens_lem_example : (balance signaled ≡ balance new_server + (0 + 0 + 2)) × IsSettled signaled
tokens_lem_example = tokens_lem signaled-Run (inl refl)

abbrev two_wait : Server
two_wait = record new_server { tokens = 1; waiting = 3 ∷ 4 ∷ [] }

hand_out-order_example :
    (hand_out all_alive two_wait).given ++ (hand_out all_alive two_wait).waiting ≡ 3 ∷ 4 ∷ []
hand_out-order_example = hand_out-order all_alive two_wait (λ c. refl)
