-- ===== src/Packet/Dlms47/Ports.antt =====
-- The two ends of a wrapper frame: the address of the device and the identity of the host.
use test.Prelude.{ℕ, ◌^◌, ◌<◌, ◌≡◌, arith}
use test.Memory.Word.{swap16, swap16-swap16, swap16-lt}
use test.Packet.{Packet, set16}
use test.Packet.Laws.{load16-set16, load16-set16_apart, kind-set16}
use test.Packet.Dlms47.{get_device_addr, set_device_addr, get_host_id, set_host_id}

module _ (p : Packet) where
  -- In a frame of either direction, an address that is set is read back, and so is the host of one
  -- byte that is set after it; the later setting leaves the address alone.
  pub ends_read_back :
      (addr id : ℕ)
      → addr < 2 ^ 16
      → id < 2 ^ 8
      → let q = set_host_id id (set_device_addr addr p) in
        (get_device_addr q ≡ addr) × (get_host_id q ≡ id)
  unfolding get_device_addr set_device_addr get_host_id set_host_id
  ends_read_back addr id ha hi = ground (
    arith,
    swap16-swap16 addr ha,
    swap16-swap16 id (omega arith),
    swap16-lt addr,
    swap16-lt id,
    load16-set16 4 (swap16 addr) p,
    load16-set16 2 (swap16 addr) p,
    load16-set16 2 (swap16 id) (set16 4 (swap16 addr) p),
    load16-set16 4 (swap16 id) (set16 2 (swap16 addr) p),
    load16-set16_apart 2 4 (swap16 id) (set16 4 (swap16 addr) p),
    load16-set16_apart 4 2 (swap16 id) (set16 2 (swap16 addr) p),
    kind-set16 2 (swap16 addr) p,
    kind-set16 4 (swap16 addr) p,
    kind-set16 2 (swap16 id) (set16 4 (swap16 addr) p),
    kind-set16 4 (swap16 id) (set16 2 (swap16 addr) p),
  )
