-- ===== src/Ring/Records.antt =====
-- What a ring holds, as a list of records from `head` to `tail`, and where their bytes lie.
use go_ipc.Prelude.{
  ℕ, ◌+◌, ◌%◌, ◌^◌, ◌≤◌, ◌<◌, ◌≡◌, ◌≢◌, List, [], ◌∷◌, ◌++◌, refl, sym, ◌∙◌, subst, arith, length,
}
use go_ipc.Words.{i32_neg}
use go_ipc.Memory.{Bytes, load32, slice}
use go_ipc.Memory.Laws.{tape, Agree, load32-Agree, slice-Agree}
use go_ipc.Ring.{Ring, type_padding, min_capacity}
use go_ipc.Ring.Bounds.{round8}

-- A range that a producer took and wrote no header in yet; a record claimed and not committed; one whose
-- payload is there; a
-- committed record; and a padding record, of the wrap point or of an abort.
pub data Record : Type 0 where
  blank : (size : ℕ) → Record
  claimed : (len typ : ℕ) → Record
  filled : (typ : ℕ) (payload : List ℕ) → Record
  message : (typ : ℕ) (payload : List ℕ) → Record
  padding : (len : ℕ) → Record

abbrev pub span : Record → ℕ
span (blank size) = size
span (claimed len typ) = round8 len
span (filled typ payload) = round8 (8 + length payload)
span (message typ payload) = round8 (8 + length payload)
span (padding len) = round8 len

-- The bytes of a record at cursor `c` of a tape. A length is `len`, `-len` or 0, by its state.
abbrev pub Holds : Bytes → ℕ → Record → Type 0
Holds w c (blank size) = (load32 w c ≡ 0) × (8 ≤ size) × (size % 8 ≡ 0) × (size < 2 ^ 31)
Holds w c (claimed len typ) =
    (load32 w c ≡ i32_neg len)
    × (load32 w (c + 4) ≡ typ)
    × (8 ≤ len)
    × (len + 7 < 2 ^ 31)
    × (typ ≢ type_padding)
Holds w c (filled typ payload) =
    (load32 w c ≡ i32_neg (8 + length payload))
    × (load32 w (c + 4) ≡ typ)
    × (slice w (c + 8) (length payload) ≡ payload)
    × (8 + length payload + 7 < 2 ^ 31)
    × (typ ≢ type_padding)
Holds w c (message typ payload) =
    (load32 w c ≡ 8 + length payload)
    × (load32 w (c + 4) ≡ typ)
    × (slice w (c + 8) (length payload) ≡ payload)
    × (8 + length payload + 7 < 2 ^ 31)
    × (typ ≢ type_padding)
Holds w c (padding len) =
    (load32 w c ≡ len) × (load32 w (c + 4) ≡ type_padding) × (8 ≤ len) × (len + 7 < 2 ^ 31)

pub Holds-span : (w : Bytes) (c : ℕ) (x : Record) → Holds w c x → (8 ≤ span x) × (span x % 8 ≡ 0)
Holds-span w c (blank size) h = omega arith
Holds-span w c (claimed len typ) h = omega arith
Holds-span w c (filled typ payload) h = omega arith
Holds-span w c (message typ payload) h = omega arith
Holds-span w c (padding len) h = omega arith

module _ (w w' : Bytes) (c : ℕ) where
  header-Agree :
      (n : ℕ)
      → 8 ≤ n
      → Agree w w' c (c + n)
      → (load32 w' c ≡ load32 w c) × (load32 w' (c + 4) ≡ load32 w (c + 4))
  header-Agree n h a = (
    load32-Agree w w' c (c + n) c a (omega arith) (omega arith),
    load32-Agree w w' c (c + n) (c + 4) a (omega arith) (omega arith),
  )

  pub Holds-Agree : (x : Record) → Agree w w' c (c + span x) → Holds w c x → Holds w' c x
  Holds-Agree (blank size) a h = let (l, t) = header-Agree size h.1 a in (l ∙ h.0, h.1, h.2, h.3)
  Holds-Agree (claimed len typ) a h =
      let (l, t) = header-Agree (round8 len) (omega arith) a in (l ∙ h.0, t ∙ h.1, h.2, h.3, h.4)
  Holds-Agree (message typ payload) a h =
      let (l, t) = header-Agree (round8 (8 + length payload)) (omega arith) a in
      let n = length payload in
      (
        l ∙ h.0,
        t ∙ h.1,
        slice-Agree n w w' (c + 8) (c + 8) (λ k hk. a (c + 8 + k) (omega arith) (omega arith))
            ∙ h.2,
        h.3,
        h.4,
      )
  Holds-Agree (filled typ payload) a h =
      let (l, t) = header-Agree (round8 (8 + length payload)) (omega arith) a in
      let n = length payload in
      (
        l ∙ h.0,
        t ∙ h.1,
        slice-Agree n w w' (c + 8) (c + 8) (λ k hk. a (c + 8 + k) (omega arith) (omega arith))
            ∙ h.2,
        h.3,
        h.4,
      )
  Holds-Agree (padding len) a h =
      let (l, t) = header-Agree (round8 len) (omega arith) a in (l ∙ h.0, t ∙ h.1, h.2, h.3)

-- The records lie one behind the other from cursor `c` to cursor `e`, none across the wrap point.
abbrev pub Chain : ℕ → Bytes → ℕ → List Record → ℕ → Type 0
Chain cap w c [] e = c ≡ e
Chain cap w c (x ∷ xs) e = Holds w c x × (c % cap + span x ≤ cap) × Chain cap w (c + span x) xs e

module _ (cap : ℕ) where
  pub Chain-le : (w : Bytes) (c e : ℕ) (xs : List Record) → Chain cap w c xs e → c ≤ e
  Chain-le w c e [] h = omega arith
  Chain-le w c e (x ∷ xs) h = omega (arith, Chain-le w (c + span x) e xs h.2)

  pub Chain-mod :
      (w : Bytes) (c e : ℕ) (xs : List Record) → Chain cap w c xs e → c % 8 ≡ 0 → e % 8 ≡ 0
  Chain-mod w c e [] h z = omega arith
  Chain-mod w c e (x ∷ xs) h z =
      Chain-mod w (c + span x) e xs h.2 (omega (arith, Holds-span w c x h.0))

  pub Chain-mod_back :
      (w : Bytes) (c e : ℕ) (xs : List Record) → Chain cap w c xs e → e % 8 ≡ 0 → c % 8 ≡ 0
  Chain-mod_back w c e [] h z = omega arith
  Chain-mod_back w c e (x ∷ xs) h z =
      omega (arith, Chain-mod_back w (c + span x) e xs h.2 z, Holds-span w c x h.0)

  pub Chain-Agree :
      (w w' : Bytes) (c e : ℕ) (xs : List Record)
      → Agree w w' c e
      → Chain cap w c xs e
      → Chain cap w' c xs e
  Chain-Agree w w' c e [] a h = h
  Chain-Agree w w' c e (x ∷ xs) a h =
      let le : c + span x ≤ e = Chain-le w (c + span x) e xs h.2 in
      (
        Holds-Agree w w' c x (λ d p q. a d p (omega arith)) h.0,
        h.1,
        Chain-Agree w w' (c + span x) e xs (λ d p q. a d (omega arith) q) h.2,
      )

  pub Chain-append :
      (w : Bytes) (c d e : ℕ) (xs ys : List Record)
      → Chain cap w c xs d
      → Chain cap w d ys e
      → Chain cap w c (xs ++ ys) e
  Chain-append w c d e [] ys h k = subst (λ a. Chain cap w a ys e) (sym h) k
  Chain-append w c d e (x ∷ xs) ys h k = (h.0, h.1, Chain-append w (c + span x) d e xs ys h.2 k)

  pub Chain-split :
      (w : Bytes) (c e : ℕ) (xs ys : List Record)
      → Chain cap w c (xs ++ ys) e
      → (d : ℕ) × Chain cap w c xs d × Chain cap w d ys e
  Chain-split w c e [] ys h = (c, refl, h)
  Chain-split w c e (x ∷ xs) ys h =
      let (d, p, q) = Chain-split w (c + span x) e xs ys h.2 in (d, (h.0, h.1, p), q)

-- A ring that holds the records `xs`: the invariant that every operation keeps. Whatever lies
-- between `tail` and a lap past `head` is zero, so that a claim finds no stale header there.
pub record IsRing (r : Ring) (xs : List Record) : Type 0 where
  pub large : min_capacity ≤ r.capacity
  pub whole : r.capacity % 8 ≡ 0
  pub small : r.capacity ≤ 2 ^ 62
  pub head_aligned : r.head % 8 ≡ 0
  pub chain : Chain r.capacity (tape r.capacity r.bytes) r.head xs r.tail
  pub room : r.tail ≤ r.head + r.capacity
  pub cached : r.head_cache ≤ r.head
  pub fits : r.tail < 2 ^ 64
  pub clean : (c : ℕ) → r.tail ≤ c → c < r.head + r.capacity → r.bytes (c % r.capacity) ≡ 0
