-- ===== src/Log.antt =====
-- src/log.rs: what is handed to the logger of the firmware.
--
-- The arguments of a macro are given as their formatted text; `format!` into a text of 64 bytes is an
-- operation of the crate heapless.
pub mod Reads
use derusting.Prelude.{Option, none, some, [], ◌∷◌, ◌++◌, Bytes, codes}
use derusting.Heapless.Texts.{Texts}

pub data Severity : Type 0 where
  debug info warning error critical : Severity

-- A call of `derusting_log_event`: the severity, and the bytes from the pointer on.
pub record Event : Type 0 where
  pub severity : Severity
  pub msg : Bytes

abbrev pub too_long : Bytes
too_long = codes "Message too long..." ++ 0 ∷ []

module _ (texts : Texts) where
  unfoldable pub log : Severity → Bytes → Event
  log severity args = elim (texts.write 64 [] (args ++ 0 ∷ [])) [
    | none ↦ record { severity = severity; msg = too_long }
    | some msg ↦ record { severity = severity; msg = msg }
  ]

  -- The macros.
  unfoldable pub log_info : Bytes → Event
  log_info args = log info args

  unfoldable pub log_debug : Bytes → Event
  log_debug args = log debug args

  unfoldable pub log_error : Bytes → Event
  log_error args = log error args

  unfoldable pub log_warning : Bytes → Event
  log_warning args = log warning args

  unfoldable pub log_critical : Bytes → Event
  log_critical args = log critical args
