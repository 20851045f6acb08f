-- ===== src/Packet/In/Fields.antt =====
-- The fields of the internal header: each setter leaves the other fields alone.
use test.Prelude.{ℕ, ◌+◌, ◌*◌, ◌/◌, ◌%◌, ◌^◌, ◌<◌, ◌≡◌, refl, arith}
use test.Memory.{Memory, load16, store16, load32, store32, store}
use test.Memory.Word.{swap16, swap32, swap16-swap16, swap32-swap32, swap16-lt, swap32-lt}
use test.Packet.{Packet, head, set8, set16, set32}
use test.Packet.In.{
  get_frame_seq, get_sender_id, set_sender_id, get_sender_type, set_sender_type, get_protocol_type,
  set_protocol_type, set_frame_seq, get_event_type, set_event_type, get_event_sub_type,
  set_event_sub_type, get_transfer_id, set_transfer_id, get_transfer_type, set_transfer_type,
  get_receiver_id, set_receiver_id, get_receiver_type, set_receiver_type,
}

head-set8_whole : (off v : ℕ) (p : Packet) → head (set8 off v p) ≡ store (head p) off v
unfolding set8
head-set8_whole off v p = ground arith

head-set16_whole : (off v : ℕ) (p : Packet) → head (set16 off v p) ≡ store16 (head p) off v
unfolding set16
head-set16_whole off v p = ground arith

head-set32_whole : (off v : ℕ) (p : Packet) → head (set32 off v p) ≡ store32 (head p) off v
unfolding set32
head-set32_whole off v p = ground arith

-- The values of the ten fields, in the order of the header.
pub record Fields : Type 0 where
  pub sender_id : ℕ
  pub sender_type : ℕ
  pub protocol_type : ℕ
  pub frame_seq : ℕ
  pub event_type : ℕ
  pub event_sub_type : ℕ
  pub transfer_id : ℕ
  pub transfer_type : ℕ
  pub receiver_id : ℕ
  pub receiver_type : ℕ

-- Every field set, and every field read.
pub set_fields : Fields → Packet → Packet
set_fields f p =
    let p1 =
      set_protocol_type f.protocol_type
        (set_sender_type f.sender_type (set_sender_id f.sender_id p)) in
    let p2 =
      set_event_sub_type f.event_sub_type
        (set_event_type f.event_type (set_frame_seq f.frame_seq p1)) in
    let p3 = set_transfer_type f.transfer_type (set_transfer_id f.transfer_id p2) in
    set_receiver_type f.receiver_type (set_receiver_id f.receiver_id p3)

pub get_fields : Packet → Fields
get_fields p = record {
  sender_id = get_sender_id p;
  sender_type = get_sender_type p;
  protocol_type = get_protocol_type p;
  frame_seq = get_frame_seq p;
  event_type = get_event_type p;
  event_sub_type = get_event_sub_type p;
  transfer_id = get_transfer_id p;
  transfer_type = get_transfer_type p;
  receiver_id = get_receiver_id p;
  receiver_type = get_receiver_type p;
}

-- The memory that the setters leave.
fields_in : Fields → Memory → Memory
fields_in f m =
    let m1 = store (store (store32 m 1 (swap32 f.sender_id)) 5 f.sender_type) 6 f.protocol_type in
    let m2 = store16 (store (store m1 7 f.frame_seq) 8 f.event_type) 9 (swap16 f.event_sub_type) in
    let m3 = store (store32 m2 11 (swap32 f.transfer_id)) 15 f.transfer_type in
    store (store32 m3 16 (swap32 f.receiver_id)) 20 f.receiver_type

head-set_fields : (f : Fields) (p : Packet) → head (set_fields f p) ≡ fields_in f (head p)
unfolding set_fields fields_in set_sender_id set_sender_type set_protocol_type set_frame_seq
    set_event_type set_event_sub_type set_transfer_id set_transfer_type set_receiver_id
    set_receiver_type
head-set_fields f p = simp (head-set8_whole, head-set16_whole, head-set32_whole)

-- A word of four bytes in memory, with the bytes of each read back.
word32 :
    (v : ℕ)
    → v < 2 ^ 32
    → swap32 (
        swap32 v % 65536 % 256
        + 256 * (swap32 v % 65536 / 256 % 256)
        + 65536 * (swap32 v / 65536 % 256 + 256 * (swap32 v / 65536 / 256 % 256)))
      ≡ v
word32 v h =
    let w = swap32 v in
    let lt = swap32-lt v in
    let e : w % 65536 % 256
          + 256 * (w % 65536 / 256 % 256)
          + 65536 * (w / 65536 % 256 + 256 * (w / 65536 / 256 % 256))
        ≡ w =
      omega arith in
    rw e (swap32-swap32 v h)

word16 : (v : ℕ) → v < 2 ^ 16 → swap16 (swap16 v % 256 + 256 * (swap16 v / 256 % 256)) ≡ v
word16 v h =
    let w = swap16 v in
    let lt = swap16-lt v in
    let e : w % 256 + 256 * (w / 256 % 256) ≡ w = omega arith in rw e (swap16-swap16 v h)

-- The words of a header fit their fields.
pub record IsSized (f : Fields) : Type 0 where
  pub sender_fits : f.sender_id < 2 ^ 32
  pub event_fits : f.event_sub_type < 2 ^ 16
  pub transfer_fits : f.transfer_id < 2 ^ 32
  pub receiver_fits : f.receiver_id < 2 ^ 32

-- Ten fields that fit are set one after the other and all read back, in the packet's own buffer as in
-- the caller's, and the marks and the data length keep their bytes.
pub get_fields-set_fields :
    (f : Fields) (p : Packet)
    → IsSized f
    → (get_fields (set_fields f p) ≡ f)
      × (head (set_fields f p) 0 ≡ head p 0)
      × (load16 (head (set_fields f p)) 21 ≡ load16 (head p) 21)
      × (head (set_fields f p) 23 ≡ head p 23)
unfolding get_fields get_sender_id get_sender_type get_protocol_type get_frame_seq get_event_type
    get_event_sub_type get_transfer_id get_transfer_type get_receiver_id get_receiver_type fields_in
    load16 load32 store16 store32 store
get_fields-set_fields f p v =
    let e = head-set_fields f p in
    rw e (
      rw
          (
            word32 f.sender_id v.sender_fits,
            word16 f.event_sub_type v.event_fits,
            word32 f.transfer_id v.transfer_fits,
            word32 f.receiver_id v.receiver_fits,
          )
          refl,
      refl,
      refl,
      refl,
    )
