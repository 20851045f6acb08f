-- ===== src/Meter/Transfer/Served.antt =====
-- simulator_meter/fee/meter_simulator/object_transfer.cpp: which objects are served, and the state of the
-- image transfer.
use test.Prelude.{ℕ, ◌%◌, ◌^◌, ◌≡◌, ◌≢◌, ◌↔◌, refl, arith, [], ◌∷◌, none, false, ◌⊎◌, inl, inr}
use test.Packet.{Packet}
use test.Security.{same_text}
use test.AsnParser.{text}
use test.AsnParser.Items.{Calendar}
use test.Meter.Apdu.Profile.{Tm}
use test.Meter.Handler.Data.{Attribute, value, unset, get_answer, Objects}
use test.Meter.Transfer.{Ambience}
use test.Meter.Transfer.Config.{Config, get_data_type}
use test.Meter.Transfer.Types.{get_obis_type, get_ci_type, ot_register, ot_firmware}
use test.Meter.Transfer.Rows.{value_of}
use test.Meter.Transfer.Response.{
  format_get_normal_response, format_action_normal_response, format_register_attr_2,
  format_image_transfer_attr, format_image_transfer_method, objects,
}

register_of :
    (c : Config) (d : Attribute)
    → (d.class_id ≡ 1) ⊎ (d.class_id ≡ 3)
    → same_text d.obis (text "0000600B00FF") ≡ false
    → get_obis_type c d.class_id d.obis ≡ ot_register
unfolding get_obis_type
register_of c d (inl k) n = rw (k, n) refl
register_of c d (inr k) n = rw (k, n) refl

string_of :
    (a : Ambience) (c : Config) (d : Attribute)
    → (d.class_id ≡ 1) ⊎ (d.class_id ≡ 3)
    → get_ci_type (get_data_type c d.class_id d.obis d.attr_id) ≡ 9
    → format_register_attr_2 a c d.obis d.class_id d.attr_id ≡ unset
unfolding format_register_attr_2
string_of a c d k t = rw (t) (ground arith)

string_unset :
    (a : Ambience) (c : Config) (d : Attribute) (its : ℕ)
    → (d.class_id ≡ 1) ⊎ (d.class_id ≡ 3)
    → same_text d.obis (text "0000600B00FF") ≡ false
    → get_ci_type (get_data_type c d.class_id d.obis d.attr_id) ≡ 9
    → format_get_normal_response a c d its ≡ unset
unfolding format_get_normal_response
string_unset a c d its k n t =
    rw (register_of c d k n, format_get_normal_response) (string_of a c d k t)

unset_unanswered :
    (o : Objects) (fuel : ℕ) (mktime : Calendar → ℕ) (localtime : ℕ → Tm) (host its : ℕ)
    (p : Packet) (d : Attribute)
    → o.find d its ≡ unset
    → get_answer o fuel mktime localtime host p its d ≡ none
unfolding get_answer
unset_unanswered o fuel mktime localtime host its p d h = rw (h, get_answer) refl

-- Data or a register, but for the event code, that the configuration has as an OctetString, is answered
-- with a result that nobody sets: no answer is defined for it.
pub string_never_answered :
    (ambience : Attribute → Ambience) (c : Config) (d : Attribute) (fuel : ℕ)
    (mktime : Calendar → ℕ) (localtime : ℕ → Tm) (host its : ℕ) (p : Packet)
    → (d.class_id ≡ 1) ⊎ (d.class_id ≡ 3)
    → same_text d.obis (text "0000600B00FF") ≡ false
    → get_ci_type (get_data_type c d.class_id d.obis d.attr_id) ≡ 9
    → get_answer (objects ambience c) fuel mktime localtime host p its d ≡ none
unfolding objects
string_never_answered ambience c d fuel mktime localtime host its p k n t =
    unset_unanswered (objects ambience c) fuel mktime localtime host its p d
      (string_unset (ambience d) c d its k n t)

-- The states of the image transfer.
abbrev pub IsImageState : ℕ → Type 0
IsImageState s = (s ≡ 1) ⊎ ((s ≡ 3) ⊎ (s ≡ 6))

firmware_of :
    (c : Config) (d : Attribute) → d.class_id ≡ 18 → get_obis_type c d.class_id d.obis ≡ ot_firmware
unfolding get_obis_type
firmware_of c d k = rw (k) refl

image_action :
    (c : Config) (d : Attribute) (its : ℕ)
    → d.class_id ≡ 18
    → format_action_normal_response c d its ≡ format_image_transfer_method d.attr_id its
unfolding format_action_normal_response
image_action c d its k = rw (firmware_of c d k, format_action_normal_response) refl

image_status :
    (a : Ambience) (c : Config) (e : Attribute) (its : ℕ)
    → e.class_id ≡ 18
    → e.attr_id ≡ 6
    → IsImageState its
    → format_get_normal_response a c e its ≡ value (value_of 22 (its ∷ []))
unfolding format_get_normal_response format_image_transfer_attr
image_status a c e its k six h =
    let small : its % 2 ^ 8 ≡ its = elim h [
      | inl x ↦ omega arith
      | inr (inl x) ↦ omega arith
      | inr (inr x) ↦ omega arith
    ] in
    rw (firmware_of c e k, six, small, format_get_normal_response) refl

image_method :
    (attr its : ℕ)
    → IsImageState its
    → IsImageState (format_image_transfer_method attr its).1
      × ((format_image_transfer_method attr its).0 ≡ false
          → (format_image_transfer_method attr its).1 ≡ its)
      × ((format_image_transfer_method attr its).0 ≡ false ↔ (attr ≢ 1) × (attr ≢ 3) × (attr ≢ 4))
unfolding format_image_transfer_method
image_method attr its h = (
  ground (arith, h),
  ground arith,
  (
    λ r. (ground (arith, r), ground (arith, r), ground (arith, r)),
    λ n. ground (arith, n.0, n.1, n.2),
  ),
)

-- Whatever method of the image transfer is asked for, the state behind it is 1, 3 or 6 where the one
-- before it was, and it is the value of the attribute 6 that is read next; where the method is refused,
-- which are all but 1, 3 and 4, the state is the one before.
pub status_shown :
    (a : Ambience) (c : Config) (d e : Attribute) (its : ℕ)
    → d.class_id ≡ 18
    → e.class_id ≡ 18
    → e.attr_id ≡ 6
    → IsImageState its
    → IsImageState (format_action_normal_response c d its).1
      × (format_get_normal_response a c e (format_action_normal_response c d its).1
          ≡ value (value_of 22 ((format_action_normal_response c d its).1 ∷ [])))
      × ((format_action_normal_response c d its).0 ≡ false
          → (format_action_normal_response c d its).1 ≡ its)
      × ((format_action_normal_response c d its).0 ≡ false
          ↔ (d.attr_id ≢ 1) × (d.attr_id ≢ 3) × (d.attr_id ≢ 4))
status_shown a c d e its kd ke six h =
    let (state, kept, refused) = image_method d.attr_id its h in
    rw (image_action c d its kd) (
      state,
      image_status a c e (format_image_transfer_method d.attr_id its).1 ke six state,
      kept,
      refused,
    )
