-- ===== src/Marlin.antt =====
-- src/marlin.rs: commands to the printer.
--
-- The firmware is outside of the repository: in `print` and `home`, `idle` is what `derusting_is_idle` answers, and
-- `accepts cmd` is what `derusting_gcode_cmd` answers, during one call. A call returns its result
-- with the commands that it submitted, in order.
pub mod Laws
use derusting.Prelude.{
  ℕ, suc, Bool, true, false, Option, none, some, List, [], ◌∷◌, ◌++◌, Bytes, codes,
}
use derusting.Prelude.Result.{Result, ok, err, ◌>>=◌}
use derusting.Heapless.Texts.{Texts}

-- `Error`
pub data Error : Type 0 where
  marlin_returned_false extend_error busy : Error

-- `#[from] ExtendError`
abbrev pub or_extend_error : Option Bytes → Result Bytes Error
or_extend_error none = err extend_error
or_extend_error (some text) = ok text

-- The command line that `print` builds: "M32 " and the path.
unfoldable pub print_command : Texts → Bytes → Result Bytes Error
print_command texts path = do
  cmd ← or_extend_error (texts.extend 64 [] (codes "M32 "))
  or_extend_error (texts.extend 64 cmd path)

-- The answer to the last command of `print` and of `home`.
abbrev pub as_result : Bool → Result (Unit {0}) Error
as_result true = ok tt
as_result false = err marlin_returned_false

-- `M111 S8` switches the printer to dry runs.
abbrev pub dry_run : Bytes
dry_run = codes "M111 S8"

-- The firmware's side: whether the printer idles, the flag that a technician sets, and how often its
-- screen was refreshed.
pub record Firmware : Type 0 where
  pub idle : Bool
  pub ready_flag : Bool
  pub refreshed : ℕ

unfoldable pub is_idle : Firmware → Bool
is_idle firmware = firmware.idle

unfoldable pub is_ready : Firmware → Bool
is_ready firmware = firmware.ready_flag

unfoldable pub set_offline : Firmware → Firmware
set_offline firmware = record firmware { ready_flag = false; refreshed = suc firmware.refreshed }

module _ (accepts : Bytes → Bool) where
  -- The two commands of `print`, the first only for a dry run.
  unfoldable pub submit : Bool → Bytes → Result (Unit {0}) Error × List Bytes
  submit false cmd = (as_result (accepts cmd), cmd ∷ [])
  submit true cmd = elim (accepts dry_run) [
    | true ↦ (as_result (accepts cmd), dry_run ∷ cmd ∷ [])
    | false ↦ (err marlin_returned_false, dry_run ∷ [])
  ]

  unfoldable pub print : Texts → Bool → Bytes → Bool → Result (Unit {0}) Error × List Bytes
  print texts idle path dry = elim idle [
    | false ↦ (err busy, [])
    | true ↦ elim (print_command texts path) [ err e ↦ (err e, []) | ok cmd ↦ submit dry cmd ]
  ]

  unfoldable pub home : Bool → Result (Unit {0}) Error × List Bytes
  home false = (err busy, [])
  home true = (as_result (accepts (codes "G28")), codes "G28" ∷ [])
