-- ===== src/Frame.antt =====
-- lib/frame.c and lib/frame.h: a DALI frame. Every field is a byte; a frame is a value here, so
-- its release has no counterpart.
use daliserver.Common.{ℕ}

pub record DaliFrame : Type 0 where
  pub ecommand : ℕ
  pub address : ℕ
  pub command : ℕ

abbrev pub daliframe_new : ℕ → ℕ → DaliFrame
daliframe_new address command = record { ecommand = 0; address = address; command = command }

abbrev pub daliframe_enew : ℕ → ℕ → ℕ → DaliFrame
daliframe_enew ecommand address command = record {
  ecommand = ecommand;
  address = address;
  command = command;
}
