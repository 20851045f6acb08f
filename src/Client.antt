-- ===== src/Client.antt =====
-- simulator_meter/common/ptcl_codec/ptcl_module_dlms47.cpp: the messages of a client, the opening and the
-- release of an association in the child Association, the requests in Request. As in Meter.Apdu each is
-- built in an array, and `none` is a message that is larger than an array that it is built in.
pub mod Association
pub mod Request
pub mod RoundTrip
pub mod Exchange
pub mod Components
pub mod Opening
mod Tests
