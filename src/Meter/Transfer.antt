-- ===== src/Meter/Transfer.antt =====
-- simulator_meter/fee/meter_simulator/object_transfer.cpp: the values of the objects of the meter, with
-- the tables of the configuration in Config, the kinds of objects in Types, and the rows of profiles in
-- Rows. The record Ambience is what the code takes from the C library,
-- boost and Crypto++.
pub mod Config
pub mod Types
pub mod Rows
pub mod Response
pub mod Span
pub mod Laws
pub mod Served
mod Tests
use test.Prelude.{ℕ, List}
use test.Meter.Apdu.Profile.{Tm}

-- `rand` are the numbers that `rand()` gives while one attribute is asked for, in their order; `now` is
-- the time, `midnight` that of the beginning of this day, and `next_day` the beginning of the day behind
-- the one of a time; `hex_decode` is HexDecoder of Crypto++.
pub record Ambience : Type 0 where
  pub rand : ℕ → ℕ
  pub now : ℕ
  pub midnight : ℕ
  pub next_day : ℕ → ℕ
  pub localtime : ℕ → Tm
  pub hex_decode : List ℕ → List ℕ

-- The bytes at `d`, as many as `d_len` says: all that the decoder has.
unfoldable pub hex_to_bytes : Ambience → List ℕ → List ℕ
hex_to_bytes a encoded = a.hex_decode encoded
