-- ===== src/Service/Frame.antt =====
-- `frame` of service.go and the reading of what it made.
use go_ipc.Prelude.{
  ℕ, zero, suc, ◌+◌, ◌/◌, ◌^◌, ◌<◌, ◌≡◌, List, ◌++◌, length, drop, length-append, refl, ap, ◌∙◌,
  arith,
}
use go_ipc.Service.{put_uint, get_uint, frame, service_seq_size}

pub length-put_uint : (n x : ℕ) → length (put_uint n x) ≡ n
unfolding put_uint
length-put_uint zero x = refl
length-put_uint (suc n) x = ap suc (length-put_uint n (x / 256))

pub get_uint-put_uint :
    (n x : ℕ) (rest : List ℕ) → x < 256 ^ n → get_uint n (put_uint n x ++ rest) ≡ x
unfolding get_uint put_uint
get_uint-put_uint zero x rest h = omega arith
get_uint-put_uint (suc n) x rest h =
    let ih = get_uint-put_uint n (x / 256) rest (omega arith) in rw ih (omega arith)

pub drop-put_uint : (n x : ℕ) (rest : List ℕ) → drop n (put_uint n x ++ rest) ≡ rest
unfolding put_uint
drop-put_uint zero x rest = refl
drop-put_uint (suc n) x rest = drop-put_uint n (x / 256) rest

-- A payload that was framed has 8 bytes more, and gives back its sequence number and itself, for a number of 64
-- bits.
pub frame_lem :
    (seq : ℕ) (payload : List ℕ)
    → seq < 2 ^ 64
    → (length (frame seq payload) ≡ 8 + length payload)
      × (get_uint service_seq_size (frame seq payload) ≡ seq)
      × (drop service_seq_size (frame seq payload) ≡ payload)
unfolding frame
frame_lem seq payload h = (
  length-append (put_uint 8 seq) payload ∙ ap (λ n. n + length payload) (length-put_uint 8 seq),
  get_uint-put_uint 8 seq payload (omega arith),
  drop-put_uint 8 seq payload,
)
