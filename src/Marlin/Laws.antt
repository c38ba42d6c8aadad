-- ===== src/Marlin/Laws.antt =====
-- What `print` of src/marlin.rs submits and answers.
use derusting.Prelude.{
  ◌≤◌, ◌≡◌, ◌⊎◌, ◌↔◌, refl, Bool, true, false, [], ◌∷◌, ◌++◌, length, elem, arith, Bytes, codes,
}
use derusting.Prelude.Result.{ok}
use derusting.Heapless.Texts.{Texts}
use derusting.Marlin.{print_command, dry_run, submit, print}

-- A path that leaves room for "M32 " and the closing nul byte.
pub record IsShort (path : Bytes) : Type 0 where
  pub size : length path ≤ 59
  pub no_nul : elem 0 path ≡ false

abbrev pub print_file : Bytes → Bytes
print_file path = codes "M32 " ++ path

no_nul-M32 : elem 0 (codes "M32 ") ≡ false
unfolding elem
no_nul-M32 = refl

print_command-ok :
    (texts : Texts) (path : Bytes) → IsShort path → print_command texts path ≡ ok (print_file path)
unfolding print_command
print_command-ok texts path h =
    rw (texts.extend_fits 64 [] (codes "M32 ") no_nul-M32 (omega arith))
      (rw (texts.extend_fits 64 (codes "M32 ") path h.no_nul (omega (arith, h.size))))

module _ (accepts : Bytes → Bool) (texts : Texts) (idle : Bool) (path : Bytes) where
  -- Whatever the path, a dry request submits nothing, or only the switch to dry runs, or one command
  -- more after the printer has accepted the switch.
  dry_run_first :
      let cmds = (print accepts texts idle path true).1 in
      (cmds ≡ [])
      ⊎ (cmds ≡ dry_run ∷ [])
      ⊎ ((accepts dry_run ≡ true) × ((cmd : Bytes) × (cmds ≡ dry_run ∷ cmd ∷ [])))
  unfolding print submit
  dry_run_first = ground arith

  -- A dry print of a short path succeeds exactly if the printer is idle and accepts both commands.
  pub dry_print-ok_iff :
      IsShort path
      → ((print accepts texts idle path true).0 ≡ ok tt)
        ↔ ((idle ≡ true) × (accepts dry_run ≡ true) × (accepts (print_file path) ≡ true))
  unfolding print submit
  dry_print-ok_iff h = ground (arith, print_command-ok texts path h)

  -- A dry print that succeeds has submitted the two commands, in this order.
  pub dry_print-ok :
      IsShort path
      → (print accepts texts idle path true).0 ≡ ok tt
      → (print accepts texts idle path true).1 ≡ dry_run ∷ print_file path ∷ []
  unfolding print submit
  dry_print-ok h e = ground (arith, print_command-ok texts path h)
