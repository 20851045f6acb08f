-- ===== src/Meter/Apdu/Profile.antt =====
-- simulator_meter/common/ptcl_codec/ptcl_module_dlms47.cpp: the responses with the rows of a load
-- profile. `localtime` is that of the C library.
use test.Prelude.{
  ℕ, ◌+◌, ◌/◌, ◌%◌, ◌^◌, List, [], ◌∷◌, ◌++◌, Option, ltb, ◌!=◌, if◌then◌else◌, length,
}
use test.Packet.{Packet}
use test.Packet.Dlms47.{set_dst_port, set_host_id}
use test.Meter.Apdu.{DataResult, result_bytes, finish}

-- `struct tm`, of which each field is what the code prints of it: the year in full, and the month from
-- 1 on.
pub record Tm : Type 0 where
  pub year : ℕ
  pub mon : ℕ
  pub mday : ℕ
  pub wday : ℕ
  pub hour : ℕ
  pub min : ℕ
  pub sec : ℕ

pub record ProfileUnit : Type 0 where
  pub dt : ℕ
  pub values : List DataResult

-- The text of two digits for each byte is read back as these bytes.
unfoldable pub format_date_time : Tm → List ℕ
format_date_time t =
    t.year / 2 ^ 8
    ∷ t.year % 2 ^ 8
    ∷ t.mon
    ∷ t.mday
    ∷ t.wday
    ∷ t.hour
    ∷ t.min
    ∷ t.sec
    ∷ 0
    ∷ 0x80
    ∷ 0
    ∷ 0
    ∷ []

unfoldable pub values_bytes : List DataResult → List ℕ
values_bytes [] = []
values_bytes (r ∷ rs) = result_bytes r ++ values_bytes rs

module _ (localtime : ℕ → Tm) where
  -- One row, with its time where it has one.
  unfoldable pub unit_bytes : ProfileUnit → List ℕ
  unit_bytes u =
      let n = length u.values in
      let front : List ℕ =
        if u.dt != 0
        then (n + 1) % 2 ^ 8 ∷ 0x09 ∷ 0x0c ∷ format_date_time (localtime u.dt)
        else n % 2 ^ 8 ∷ [] in
      0x02 ∷ (front ++ values_bytes u.values)

  units_bytes : List ProfileUnit → List ℕ
  units_bytes [] = []
  units_bytes (u ∷ us) = unit_bytes u ++ units_bytes us

  unfoldable pub format_packet_get_response_units :
      ℕ → ℕ → List ProfileUnit → ℕ → Packet → Option Packet
  unfolding units_bytes
  format_packet_get_response_units host_id client_id units invoke_id p =
      finish
        (0xc4 ∷ 0x01 ∷ invoke_id % 2 ^ 8 ∷ 0x00 ∷ 0x01 ∷ length units % 2 ^ 8 ∷ units_bytes units)
        (set_dst_port (client_id % 2 ^ 16) (set_host_id host_id p))

  -- No row is begun behind the byte 1000 of the message.
  rows_from : ℕ → List ProfileUnit → List ℕ
  rows_from pos [] = []
  rows_from pos (u ∷ us) =
      let row = unit_bytes u in
      let rest = rows_from (pos + length row) us in if ltb 1000 pos then [] else row ++ rest

  profiles_from : ℕ → List (List ProfileUnit) → List ℕ
  unfolding rows_from
  profiles_from pos [] = []
  profiles_from pos (us ∷ rest) =
      let one = 0x00 ∷ 0x01 ∷ length us % 2 ^ 8 ∷ rows_from (pos + 3) us in
      one ++ profiles_from (pos + length one) rest

  unfoldable pub format_packet_get_response_with_profiles :
      ℕ → ℕ → List (List ProfileUnit) → ℕ → Packet → Option Packet
  unfolding profiles_from
  format_packet_get_response_with_profiles host_id client_id profiles invoke_id p =
      finish (0xc4 ∷ 0x03 ∷ invoke_id % 2 ^ 8 ∷ length profiles % 2 ^ 8 ∷ profiles_from 4 profiles)
        (set_dst_port (client_id % 2 ^ 16) (set_host_id host_id p))
