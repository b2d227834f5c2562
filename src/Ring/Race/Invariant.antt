-- ===== src/Ring/Race/Invariant.antt =====
-- The invariant of producers and reader on one ring, before the steps that keep it.
use go_ipc.Prelude.{ℕ, ◌+◌, ◌-◌, ◌%◌, ◌^◌, ◌≤◌, ◌<◌, ◌≡◌, ◌⊎◌, List, [], ◌∷◌, ◌++◌}
use go_ipc.Ring.{Ring, type_padding}
use go_ipc.Ring.Bounds.{round8}
use go_ipc.Ring.Reader.{Msg}
use go_ipc.Ring.Records.{Record, blank, claimed, filled, IsRing}
use go_ipc.Ring.Race.{
  Phase, idle, wants, loaded, short, caching, roomy, crossed, taken, owns, written, Reader, resting,
  reading, broken, Stamped, World, record_len, rest_of_lap, need_of,
}
use go_ipc.Ring.Race.Sits.{Sits, Bounds, stamped}
use mathlib.Core.List.{Perm}

-- How far the reader came in the loop that it is in. The records behind are those of a ring whose
-- head is there; the head that producers load is still that of the last `Read`.
abbrev pub consumed_of : Reader → ℕ
consumed_of resting = 0
consumed_of (reading limit available consumed count) = consumed
consumed_of broken = 0

abbrev pub front : World → ℕ
front w = w.ring.head + consumed_of w.reader

-- The ring as the reader sees it.
abbrev pub ahead : Ring → ℕ → Ring
ahead r h = record r { head = h }

-- A message that `tryClaim` lets pass.
abbrev pub IsSound : Msg → Type 0
IsSound m = (record_len m + 7 < 2 ^ 31) × (m.0 < type_padding)

-- What a producer relies on: what it loaded is a bound of what is there.
abbrev pub Relies : Ring → Phase → Type 0
Relies r idle = Unit
Relies r (wants m) = IsSound m
Relies r (loaded m tail) = IsSound m × (tail ≤ r.tail)
Relies r (short m tail) = IsSound m × (tail ≤ r.tail)
Relies r (caching m tail head) =
    IsSound m
    × (tail ≤ r.tail)
    × (head ≤ r.head)
    × (tail + need_of r.capacity tail m ≤ head + r.capacity)
Relies r (roomy m tail) =
    IsSound m × (tail ≤ r.tail) × (tail + need_of r.capacity tail m ≤ r.head + r.capacity)
Relies r (crossed m tail) =
    IsSound m
    × ((tail + rest_of_lap r.capacity tail) % r.capacity ≡ 0)
    × (0 < rest_of_lap r.capacity tail)
Relies r (taken m at index) = IsSound m × (index ≡ at % r.capacity)
Relies r (owns m at index) = IsSound m × (index ≡ at % r.capacity)
Relies r (written m at index) = IsSound m × (index ≡ at % r.capacity)

-- The records that a producer has to itself, by their cursors.
abbrev pub Holding : ℕ → Phase → ℕ → Record → Type 0
Holding cap idle c x = ⊥
Holding cap (wants m) c x = ⊥
Holding cap (loaded m tail) c x = ⊥
Holding cap (short m tail) c x = ⊥
Holding cap (caching m tail head) c x = ⊥
Holding cap (roomy m tail) c x = ⊥
Holding cap (crossed m tail) c x =
    ((c ≡ tail) × (x ≡ blank (rest_of_lap cap tail)))
    ⊎ ((c ≡ tail + rest_of_lap cap tail) × (x ≡ blank (round8 (record_len m))))
Holding cap (taken m at index) c x = (c ≡ at) × (x ≡ blank (round8 (record_len m)))
Holding cap (owns m at index) c x = (c ≡ at) × (x ≡ claimed (record_len m) m.0)
Holding cap (written m at index) c x = (c ≡ at) × (x ≡ filled m.0 m.1)

-- What is delivered came in the order of its cursors, and lies behind `h`.
abbrev pub Ordered : ℕ → List Stamped → Type 0
Ordered h [] = Unit
Ordered h (s ∷ out) = (s.0 < h) × Ordered s.0 out

-- What the reader relies on: the tail it loaded is where a record ends.
abbrev pub Follows : Ring → List Record → Reader → Type 0
Follows r xs resting = Unit
Follows r xs (reading limit available consumed count) =
    Bounds (r.head + consumed) xs (r.head + available)
Follows r xs broken = ⊥

-- The producers, over a ring that starts at `h` and holds `xs`. No record has two owners.
pub record Apart (r : Ring) (h : ℕ) (xs : List Record) (phases : ℕ → Phase) (owner : ℕ → ℕ)
    : Type 0 where
  pub relies : (i : ℕ) → Relies r (phases i)
  pub sits : (i c : ℕ) (x : Record) → Holding r.capacity (phases i) c x → Sits h xs c x
  pub owned : (i c : ℕ) (x : Record) → Holding r.capacity (phases i) c x → owner c ≡ i

pub record Inv (w : World) (xs : List Record) (owner : ℕ → ℕ) : Type 0 where
  pub ring : IsRing (ahead w.ring (front w)) xs
  pub limited : w.ring.capacity < 2 ^ 32 - 8
  pub apart : Apart w.ring (front w) xs w.phases owner
  pub cached : w.ring.head_cache ≤ w.ring.head
  pub follows : Follows w.ring xs w.reader
  pub kept : Perm (w.delivered ++ stamped (front w) xs) w.sent
  pub ordered : Ordered (front w) w.delivered
