-- ===== src/Packet/Laws.antt =====
-- The base class' buffers: filling the data area, receiving a frame, the sum of bytes.
use test.Prelude.{
  ℕ, ◌+◌, ◌-◌, ◌%◌, ◌^◌, ◌/◌, ◌≤◌, ◌<◌, ◌≡◌, refl, List, [], ◌∷◌, some, arith, length, take-all,
  ◌≢◌,
}
use test.Prelude.Int.{pos}
use test.Memory.{Memory, copy_to, bytes, load16, store16, load32, store32, store}
use test.Memory.Block.{length-bytes, bytes-copy_to, copy_to-bytes, bytes_agree}
use test.Packet.{
  Packet, own, max_packet_length, copy_in, set_packet_buffer, set_data_area_buffer, data_bytes,
  sum_bytes, get_check_sum, head, set8, set16, set32,
}

-- A packet after `reset`, with a header of `h` bytes: it works on its own buffer.
pub record IsOwn (h : ℕ) (p : Packet) : Type 0 where
  pub at_own : p.header ≡ own
  pub head_len : p.len_header ≡ h
  pub area : p.data_off ≡ h

-- A frame `q` copied into the buffer of `p`.
abbrev pub received : Packet → ℕ → Packet → Packet
received q n p = record p { mem = copy_to p.mem 0 (bytes q.mem 0 n); len_packet = pos n }

pub copy_in-ok :
    (m : Memory) (off : ℕ) (buf : List ℕ)
    → off + length buf ≤ max_packet_length
    → copy_in m off buf (length buf) ≡ some (copy_to m off buf)
unfolding copy_in
copy_in-ok m off buf h = ground (arith, take-all (length buf) buf (omega arith))

-- `set_packet_buffer` with the bytes of a frame that fits.
pub set_packet_buffer-received :
    (q : Packet) (n : ℕ) (p : Packet)
    → n ≤ max_packet_length
    → set_packet_buffer (some (bytes q.mem 0 n)) (pos n) p ≡ some (received q n p)
unfolding set_packet_buffer
set_packet_buffer-received q n p h =
    let e = length-bytes n q.mem 0 in
    let c = copy_in-ok p.mem 0 (bytes q.mem 0 n) (omega (arith, e)) in ground (arith, rw e at c)

-- Every byte of the frame is where it was.
pub mem-received :
    (q : Packet) (n : ℕ) (p : Packet) (j : ℕ) → j < n → (received q n p).mem j ≡ q.mem j
mem-received q n p j h = copy_to-bytes n p.mem q.mem 0 j (omega arith) (omega arith)

pub load16-received :
    (q : Packet) (n : ℕ) (p : Packet) (off : ℕ)
    → off + 2 ≤ n
    → load16 (received q n p).mem off ≡ load16 q.mem off
unfolding load16
load16-received q n p off h =
    let a = mem-received q n p off (omega arith) in
    let b = mem-received q n p (off + 1) (omega arith) in ground (arith, a, b)

pub bytes-received :
    (q : Packet) (n : ℕ) (p : Packet) (off k : ℕ)
    → off + k ≤ n
    → bytes (received q n p).mem off k ≡ bytes q.mem off k
bytes-received q n p off k h =
    bytes_agree k (received q n p).mem q.mem off (λ j lo hi. mem-received q n p j (omega arith))

-- `set_data_area_buffer` after `reset` accepts exactly the payloads that fit behind the header: a
-- payload of at most `1536 - h` bytes becomes the data area, and a longer one is ignored.
pub set_data_area_buffer_lem :
    (h : ℕ) (payload : List ℕ) (p : Packet)
    → IsOwn h p
    → h ≤ max_packet_length
    → (length payload ≤ max_packet_length - h
        → (q : Packet) × (set_data_area_buffer (some payload) (pos (length payload)) p ≡ some q)
          × (data_bytes q ≡ payload)
          × (q.len_data_area ≡ pos (length payload))
          × IsOwn h q)
      × (max_packet_length - h < length payload
          → set_data_area_buffer (some payload) (pos (length payload)) p ≡ some p)
unfolding set_data_area_buffer
set_data_area_buffer_lem h payload p v small = (
  λ fits. (
    record p { mem = copy_to p.mem p.data_off payload; len_data_area = pos (length payload) },
    ground (arith, copy_in-ok p.mem p.data_off payload (omega arith)),
    bytes-copy_to payload p.mem p.data_off,
    refl,
    record { at_own = v.at_own; head_len = v.head_len; area = v.area },
  ),
  λ large. ground arith,
)

pub sum_list : List ℕ → ℕ
sum_list [] = 0
sum_list (b ∷ bs) = b + sum_list bs

sum_bytes-sum_list : (bs : List ℕ) (s : ℕ) → s < 256 → sum_bytes s bs ≡ (s + sum_list bs) % 256
unfolding sum_bytes sum_list
sum_bytes-sum_list [] s h = omega arith
sum_bytes-sum_list (b ∷ bs) s h = omega (arith, sum_bytes-sum_list bs ((s + b) % 256) (omega arith))

-- The check sum of `n` bytes is their sum modulo 256.
pub get_check_sum_lem :
    (m : Memory) (off n : ℕ) → get_check_sum (some m) off (pos n) ≡ sum_list (bytes m off n) % 256
unfolding get_check_sum
get_check_sum_lem m off n = omega (arith, sum_bytes-sum_list (bytes m off n) 0 (omega arith))

-- A field written through `frame_header_` is read back, wherever the pointer leads, and the other
-- fields keep their values.
pub load16-set16 : (off v : ℕ) (p : Packet) → v < 2 ^ 16 → load16 (head (set16 off v p)) off ≡ v
unfolding set16 load16 store16
load16-set16 off v p h = ground arith

pub load16-set16_apart :
    (off at v : ℕ) (p : Packet)
    → off ≢ at
    → off ≢ at + 1
    → off + 1 ≢ at
    → load16 (head (set16 off v p)) at ≡ load16 (head p) at
unfolding set16 load16 store16
load16-set16_apart off at v p a b c = ground arith

pub kind-set16 : (off v : ℕ) (p : Packet) → (set16 off v p).kind ≡ p.kind
unfolding set16
kind-set16 off v p = ground arith

pub head-set8 : (off v : ℕ) (p : Packet) → head (set8 off v p) off ≡ v
unfolding set8 store
head-set8 off v p = ground arith

pub head-set8_apart : (off at v : ℕ) (p : Packet) → off ≢ at → head (set8 off v p) at ≡ head p at
unfolding set8 store
head-set8_apart off at v p h = ground arith

pub kind-set8 : (off v : ℕ) (p : Packet) → (set8 off v p).kind ≡ p.kind
unfolding set8
kind-set8 off v p = ground arith

pub head-set32 :
    (off v : ℕ) (p : Packet)
    → (head (set32 off v p) off ≡ v % 256)
      × (head (set32 off v p) (off + 1) ≡ v / 256 % 256)
      × (head (set32 off v p) (off + 2) ≡ v / 65536 % 256)
      × (head (set32 off v p) (off + 3) ≡ v / 16777216 % 256)
unfolding set32 store32
head-set32 off v p = (ground arith, ground arith, ground arith, ground arith)

pub load32-set32 : (off v : ℕ) (p : Packet) → v < 2 ^ 32 → load32 (head (set32 off v p)) off ≡ v
unfolding set32 load32 store32
load32-set32 off v p h = ground arith

pub kind-set32 : (off v : ℕ) (p : Packet) → (set32 off v p).kind ≡ p.kind
unfolding set32
kind-set32 off v p = ground arith
