-- ===== src/Client/Request.antt =====
-- simulator_meter/common/ptcl_codec/ptcl_module_dlms47.cpp: the get, set and action requests of a client.
-- `scan` is sscanf with "%02X" as in Meter.Apdu, `localtime` that of the C library.
use test.Prelude.{
  ℕ, ◌/◌, ◌%◌, ◌^◌, List, [], ◌∷◌, ◌++◌, Option, none, some, ◌==◌, if◌then◌else◌, length, replicate,
}
use test.Packet.{Packet}
use test.Packet.Dlms47.{set_host_id}
use test.Asn.{
  format_context_area_short, format_context_area_int, format_struct_data, format_unsigned,
  format_unsigned_double_long,
}
use test.AsnParser.{text}
use test.Meter.Apdu.{finish, with_octets}
use test.Meter.Apdu.Profile.{Tm, format_date_time}

-- `class_id`
abbrev ci_profile : ℕ
ci_profile = 7

abbrev ci_clock : ℕ
ci_clock = 8

unfoldable pub fill_packet_cosem_next : ℕ → Packet → Option Packet
fill_packet_cosem_next block_no p = finish (0xc0 ∷ 0x02 ∷ 0xff ∷ format_context_area_int block_no) p

module _ (scan : ℕ → ℕ → Option ℕ) where
  -- A pair that is not converted leaves the value of the pair before it, 0 for the first.
  obis_loop : ℕ → List ℕ → List ℕ
  obis_loop tmp (x ∷ y ∷ rest) = elim (scan x y) [
    | none ↦ tmp % 2 ^ 8 ∷ obis_loop tmp rest
    | some b ↦ b % 2 ^ 8 ∷ obis_loop b rest
  ]
  obis_loop tmp _ = []

  unfoldable pub format_context_area_obis : List ℕ → List ℕ
  unfolding obis_loop
  format_context_area_obis obis = obis_loop 0 obis

  -- The tag, an invoke id to be filled in, and the attribute or method.
  unfoldable pub attribute_bytes : ℕ → ℕ → List ℕ → ℕ → List ℕ → List ℕ
  unfolding format_context_area_obis
  attribute_bytes tag class obis attr_id rest =
      tag
      ∷ 0x01
      ∷ 0xff
      ∷ (format_context_area_short class ++ (format_context_area_obis obis ++ (attr_id ∷ rest)))

  unfoldable pub fill_packet_cosem_get : ℕ → List ℕ → ℕ → Packet → Option Packet
  unfolding attribute_bytes
  fill_packet_cosem_get class obis attr_id p =
      finish (attribute_bytes 0xc0 class obis attr_id (0x00 ∷ [])) p

  -- The range of a profile; `front` stands before each time.
  range_bytes : (ℕ → Tm) → List ℕ → ℕ → ℕ → List ℕ
  unfolding format_context_area_obis
  range_bytes localtime front start end =
      0x01
      ∷ 0x01
      ∷ 0x02
      ∷ 0x04
      ∷ 0x02
      ∷ 0x04
      ∷ 0x12
      ∷ (format_context_area_short ci_clock
          ++ (0x09
              ∷ 0x06
              ∷ (format_context_area_obis (text "0000010000ff")
                  ++ (0x0f
                      ∷ 0x02
                      ∷ 0x12
                      ∷ 0x00
                      ∷ 0x00
                      ∷ (front
                          ++ (format_date_time (localtime start)
                              ++ (front
                                  ++ (format_date_time (localtime end) ++ (0x01 ∷ 0x00 ∷ [])))))))))

  unfoldable pub fill_packet_cosem_get_range : (ℕ → Tm) → List ℕ → ℕ → ℕ → Packet → Option Packet
  unfolding attribute_bytes range_bytes
  fill_packet_cosem_get_range localtime obis start end p =
      finish
        (attribute_bytes 0xc0 ci_profile obis 0x02
          (range_bytes localtime (0x09 ∷ 0x0c ∷ []) start end))
        p

  -- By the type the times are dates, or strings of bytes.
  unfoldable pub fill_packet_cosem_get_typed :
      (ℕ → Tm) → List ℕ → ℕ → ℕ → ℕ → Packet → Option Packet
  unfolding attribute_bytes range_bytes
  fill_packet_cosem_get_typed localtime obis start end kind p =
      finish
        (attribute_bytes 0xc0 ci_profile obis 0x02
          (range_bytes localtime (if kind == 0 then 0x19 ∷ [] else 0x09 ∷ 0x0c ∷ []) start end))
        p

  unfoldable pub fill_packet_cosem_set_typed : ℕ → List ℕ → ℕ → List ℕ → ℕ → Packet → Option Packet
  unfolding attribute_bytes
  fill_packet_cosem_set_typed class obis attr_id content data_type p =
      finish
        (attribute_bytes 0xc1 class obis attr_id
          (0x00 ∷ data_type % 2 ^ 8 ∷ length content % 2 ^ 8 ∷ content))
        p

  unfoldable pub fill_packet_cosem_set : ℕ → List ℕ → ℕ → List ℕ → Packet → Option Packet
  unfolding attribute_bytes
  fill_packet_cosem_set class obis attr_id content p =
      finish (attribute_bytes 0xc1 class obis attr_id (0x00 ∷ content)) p

  -- The data are `none` where the pointer is NULL.
  unfoldable pub fill_packet_cosem_action :
      ℕ → List ℕ → ℕ → Option (List ℕ) → Packet → Option Packet
  unfolding attribute_bytes
  fill_packet_cosem_action class obis method_id none p =
      finish (attribute_bytes 0xc3 class obis method_id (0 ∷ [])) p
  fill_packet_cosem_action class obis method_id (some content) p =
      finish
        (attribute_bytes 0xc3 class obis method_id
          (if length content == 0 then 0 ∷ [] else 1 ∷ content))
        p

  unfoldable pub format_packet_action_request : ℕ → List ℕ → Packet → Option Packet
  format_packet_action_request host str_data p =
      with_octets scan
        (0xc3
          ∷ 0x01
          ∷ 0xff
          ∷ 0x00
          ∷ 0x0f
          ∷ 0x00
          ∷ 0x00
          ∷ 0x28
          ∷ 0x00
          ∷ 0x00
          ∷ 0xff
          ∷ 0x01
          ∷ 0x01
          ∷ 0x09
          ∷ length str_data / 2 % 2 ^ 8
          ∷ [])
        str_data (set_host_id host p)

  -- A time of 0 leaves its twelve bytes as the array has them, which are 0.
  unfoldable pub format_date_time_extra : (ℕ → Tm) → ℕ → List ℕ
  format_date_time_extra localtime dt =
      0x09 ∷ 0x0c ∷ (if dt == 0 then replicate 12 0 else format_date_time (localtime dt))

  -- The name is `none` where the pointer is NULL.
  unfoldable pub fill_packet_cosem_set_filter :
      (ℕ → Tm) → ℕ → ℕ → ℕ → ℕ → Option (List ℕ) → ℕ → Packet → Option Packet
  unfolding fill_packet_cosem_set format_date_time_extra
  fill_packet_cosem_set_filter localtime start_time end_time amount bitfield none mode p = some p
  fill_packet_cosem_set_filter localtime start_time end_time amount bitfield (some obis) mode p =
      fill_packet_cosem_set 1 obis 2
        (format_struct_data 5
          ++ (format_unsigned mode
              ++ (format_date_time_extra localtime start_time
                  ++ (format_date_time_extra localtime end_time
                      ++ (format_unsigned_double_long amount
                          ++ format_unsigned_double_long bitfield)))))
        p
