-- ===== src/Meter.antt =====
-- The session of a meter with one client: the state of the classes meter_handler and access_security
-- of simulator_meter/fee/meter_simulator, which refer to each other, in one record, and the small
-- methods of meter_handler. The child modules are the protection of messages (call_encrypt and
-- call_decrypt), the answers (ptcl_module_dlms47), access_security, and the dispatch of meter_handler.
pub mod Protect
pub mod Apdu
pub mod Association
pub mod Handler
pub mod Transfer
use test.Prelude.{
  ℕ, ◌+◌, ◌-◌, ◌%◌, ◌^◌, List, [], ◌∷◌, ◌++◌, Option, none, some, Bool, true, false, leb, ltb, ◌==◌,
  ◌!=◌, if◌then◌else◌, replicate,
}
use test.Security.{DataSecurity}

-- `meter_handler_state`
pub data HandlerState : Type 0 where
  mhs_null mhs_cosem_connect mhs_data mhs_disc mhs_over : HandlerState

-- `access_security::State`
pub data AccessState : Type 0 where
  init pre_aarq pre_aare pre_request_ic pre_response_ic pre_rlrq pre_rlre : AccessState
  pass_1 pass_2 pass_3 pass_4 lls_aarq lls_aare rlrq rlre : AccessState

-- The texts are lists of their bytes.
pub record Access : Type 0 where
  pub state : AccessState
  pub cipher_flag : Bool
  pub authen_mech_id : ℕ
  pub sc : ℕ
  pub ic : ℕ
  pub association_result : Bool
  pub challenge_stoc : List ℕ
  pub challenge_ctos : List ℕ
  pub fctos : List ℕ
  pub client_id : ℕ
  pub invoke_id : ℕ

-- `sent` is what was put to the channel, the last message first; `released` counts the calls of
-- `release_session`.
pub record Meter : Type 0 where
  pub access : Access
  pub security : DataSecurity
  pub handler_state : HandlerState
  pub invokeid : ℕ
  pub client_systitle : List ℕ
  pub server_systitle : List ℕ
  pub client_cur_use_ic : ℕ
  pub server_last_use_ic : ℕ
  pub client_host_id : ℕ
  pub is_cipher : Bool
  pub its_state : ℕ
  pub removed : ℕ
  pub map_seq_hid : List (ℕ × ℕ)
  pub sent : List (List ℕ)
  pub released : ℕ

-- The constructors of both classes; `ic_`, `server_last_use_ic_` and `client_host_id_`, which the
-- source leaves open, start with 0.
unfoldable pub new : List ℕ → DataSecurity → Meter
new systitle security = record {
  access = record {
    state = init;
    cipher_flag = false;
    authen_mech_id = 0;
    sc = 0;
    ic = 0;
    association_result = true;
    challenge_stoc = [];
    challenge_ctos = [];
    fctos = [];
    client_id = 1;
    invoke_id = 0xff;
  };
  security = security;
  handler_state = mhs_null;
  invokeid = 0;
  client_systitle = replicate 8 0;
  server_systitle = systitle;
  client_cur_use_ic = 0;
  server_last_use_ic = 0;
  client_host_id = 0;
  is_cipher = false;
  its_state = 1;
  removed = 0;
  map_seq_hid = [];
  sent = [];
  released = 0;
}

abbrev pub reset_handler_state : HandlerState → Meter → Meter
reset_handler_state st m = record m { handler_state = st }

-- `access_security::reset_state`
abbrev pub reset_state : AccessState → Meter → Meter
reset_state st m = record m { access = record m.access { state = st } }

abbrev pub get_state : Meter → AccessState
get_state m = m.access.state

unfoldable pub get_hostid : ℕ → Meter → ℕ
get_hostid seq m = go m.map_seq_hid
  where
    go : List (ℕ × ℕ) → ℕ
    go [] = 0
    go ((k, v) ∷ rest) = let found = go rest in if k == seq then v else found

unfoldable pub stop : Meter → Meter
stop m = if m.removed == 0 then record m { removed = 1; released = m.released + 1 } else m

abbrev pub set_client_systitle : List ℕ → Meter → Meter
set_client_systitle systitle m = record m { client_systitle = systitle }

abbrev pub set_server_systitle : List ℕ → Meter → Meter
set_server_systitle systitle m = record m { server_systitle = systitle }

abbrev pub set_client_cur_ic : ℕ → Meter → Meter
set_client_cur_ic ic m = record m { client_cur_use_ic = ic }

abbrev pub set_server_last_ic : ℕ → Meter → Meter
set_server_last_ic ic m = record m { server_last_use_ic = ic }

-- `2^32 - 1` is the last counter: it ends the session.
unfoldable pub check_ic_is_validate : ℕ → ℕ → Meter → Bool × Meter
check_ic_is_validate ic last_use_ic m =
    if leb (2 ^ 32 - 1) ic
    then (false, record m { handler_state = mhs_disc })
    else if leb ic last_use_ic
    then (false, m)
    else (true, m)

-- `++client_cur_use_ic_`, of 32 bits.
unfoldable pub request_next_client_ic : Meter → ℕ × Meter
request_next_client_ic m =
    let ic = (m.client_cur_use_ic + 1) % 2 ^ 32 in (ic, record m { client_cur_use_ic = ic })
