-- ===== src/Channel/Tests.antt =====
-- Tests of the channel model: its theorem at a channel of 4096 bytes in each direction.
use go_ipc.Prelude.{ℕ, ◌≡◌, Bool, true, false, none, some, [], refl, arith}
use go_ipc.Errors.{peer_gone}
use go_ipc.Ring.{fresh_ring}
use go_ipc.Ring.Layout.Sizes.{fresh_ring-IsRing}
use go_ipc.Queue.{Queue, Outside}
use go_ipc.Queue.View.{IsView}
use go_ipc.Channel.{Channel, close, recv}
use go_ipc.Channel.Closed.{first_of, rest_of, recv-close}

abbrev end_of_queue : (self consumer : ℕ) → Bool → Queue
end_of_queue self consumer reader = record {
  ring = fresh_ring 4096 consumer;
  handle = record { idle = []; owned = [] };
  self = self;
  reader = reader;
  closing = false;
  watch = record { id = 0; gone = false; failed = none; armed = false };
  producers = record { watched = []; stopped = false; failed = none };
  not_empty = 0;
  not_full = 0;
  told = 0;
}

abbrev peer : Channel
peer = record { tx = end_of_queue 5 6 false; rx = end_of_queue 5 5 true; owner = true }

abbrev mine : Channel
mine = record {
  tx = record (end_of_queue 6 5 false) { ring = (close [] [] peer).0.rx.ring };
  rx = end_of_queue 6 6 true;
  owner = false;
}

abbrev alive : Outside
alive = record { is_dead = λ id. false; on_exit = λ id. none; receiver_unlinked = false }

mine-IsView : IsView mine.rx []
mine-IsView = record {
  records = [];
  valid = fresh_ring-IsRing 4096 6 (omega arith) refl (omega arith);
  closed = tt;
  shows = refl;
  small = omega arith;
}

recv-close_example :
    (c : Channel) × (recv 1 alive mine ≡ some (c, first_of peer_gone [])) × IsView c.rx (rest_of [])
recv-close_example = recv-close [] [] peer mine alive 0 [] refl refl refl refl mine-IsView refl refl
