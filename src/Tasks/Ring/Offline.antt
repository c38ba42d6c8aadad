-- ===== src/Tasks/Ring/Offline.antt =====
-- How many jobs a printer takes: the task's turns over the firmware's ready flag.
use derusting.Prelude.{
  ℕ, suc, ◌+◌, ◌≤◌, ◌≡◌, refl, Bool, true, false, Option, none, some, List, [], ◌∷◌, arith, Bytes,
}
use derusting.Kinds.{Uuid, LedgerState}
use derusting.Heapless.LinearMap.{LinearMap}
use derusting.Heapless.IndexSet.{IndexSet}
use derusting.Heapless.Texts.{Texts}
use derusting.Marlin
use derusting.Marlin.{Firmware, is_idle, is_ready}
use derusting.Tasks.Ring.{Env, Effect, sends, commands, set_offline, Manager, manage_round}
use derusting.Tasks.Ring.Prints.{one_if, taken, offlines, IsBoundedTurn, manage_round-IsBoundedTurn}

-- A turn of the task, with the address book and the ledger as the other tasks have left them; or the
-- technician sets the flag.
pub data Event (M S : Type 0) : Type 0 where
  turns : Env → M → Option (LedgerState S) → Event M S
  readies : Event M S

-- The firmware, what the task remembers, and how many jobs were accepted so far.
pub record Plant : Type 0 where
  pub firmware : Firmware
  pub observed : Bool
  pub accepted : ℕ

-- What effects do to the firmware's flag.
abbrev pub on_firmware : {S : Type 0} → List (Effect S) → Firmware → Firmware
on_firmware [] firmware = firmware
on_firmware (set_offline ∷ es) firmware = on_firmware es (Marlin.set_offline firmware)
on_firmware (e ∷ es) firmware = on_firmware es firmware

-- How often the technician has set the flag.
abbrev pub presses : {M S : Type 0} → List (Event M S) → ℕ
presses [] = 0
presses (readies ∷ l) = suc (presses l)
presses (turns env addresses jobs ∷ l) = presses l

module _ {S : Type 0} where
  on_firmware-shut :
      (es : List (Effect S)) (firmware : Firmware)
      → firmware.ready_flag ≡ false
      → (on_firmware es firmware).ready_flag ≡ false
  unfolding Marlin.set_offline
  on_firmware-shut [] firmware h = h
  on_firmware-shut (set_offline ∷ es) firmware h =
      on_firmware-shut es (Marlin.set_offline firmware) refl
  on_firmware-shut (sends p ∷ es) firmware h = on_firmware-shut es firmware h
  on_firmware-shut (commands cmds ∷ es) firmware h = on_firmware-shut es firmware h

  -- A job that is taken shuts the flag, and nothing else changes it.
  on_firmware_lem :
      (es : List (Effect S)) (firmware : Firmware)
      → offlines es ≤ one_if firmware.ready_flag
      → offlines es + one_if (on_firmware es firmware).ready_flag ≤ one_if firmware.ready_flag
  unfolding Marlin.set_offline
  on_firmware_lem [] firmware h = omega arith
  on_firmware_lem (set_offline ∷ es) firmware h =
      let shut = on_firmware-shut es (Marlin.set_offline firmware) refl in rw shut (omega arith)
  on_firmware_lem (sends p ∷ es) firmware h = on_firmware_lem es firmware h
  on_firmware_lem (commands cmds ∷ es) firmware h = on_firmware_lem es firmware h

module _ {M S : Type 0} (book : LinearMap ℕ M) (jobs : IndexSet S) (texts : Texts)
    (show : Uuid → Bytes) where
  abbrev pub after_turn : Env → Plant → Option (Manager S × List (Effect S)) → Plant
  after_turn env p none = p
  after_turn env p (some (m, es)) = record {
    firmware = on_firmware es p.firmware;
    observed = m.observed_ownership;
    accepted = p.accepted + taken env.accepts es;
  }

  -- What the turn reads, with the firmware's answer on the flag.
  abbrev pub reading : Env → Plant → Env
  reading env p = record env { ready = is_ready p.firmware }

  -- A turn asks the firmware whether it is ready.
  abbrev pub step : Event M S → Plant → Plant
  step readies p = record p { firmware = record p.firmware { ready_flag = true } }
  step (turns env addresses held) p = after_turn (reading env p) p (
      manage_round book jobs texts show (reading env p) addresses
        (record { jobs = held; observed_ownership = p.observed }))

  abbrev pub run : List (Event M S) → Plant → Plant
  run [] p = p
  run (ev ∷ l) p = run l (step ev p)

  -- The jobs accepted, and the one that may be.
  abbrev score : Plant → ℕ
  score p = p.accepted + one_if p.firmware.ready_flag

  after_turn-score :
      (env : Env) (p : Plant) (r : Option (Manager S × List (Effect S)))
      → env.ready ≡ p.firmware.ready_flag
      → IsBoundedTurn book jobs texts show env r
      → score (after_turn env p r) ≤ score p
  after_turn-score env p none same h = omega arith
  after_turn-score env p (some (m, es)) same (few, fewer) =
      let least : offlines es ≤ one_if p.firmware.ready_flag = rw⁻¹ same fewer in
      let most = on_firmware_lem es p.firmware least in omega arith

  step-score :
      (env : Env) (addresses : M) (held : Option (LedgerState S)) (p : Plant)
      → score (step (turns env addresses held) p) ≤ score p
  unfolding is_ready
  step-score env addresses held p =
      let m : Manager S = record { jobs = held; observed_ownership = p.observed } in
      after_turn-score (reading env p) p
        (manage_round book jobs texts show (reading env p) addresses m) refl
        (manage_round-IsBoundedTurn book jobs texts show (reading env p) addresses m)

  -- Over any turns of the task, whatever the other tasks do to the address book and the ledger between
  -- them: the printer takes no more jobs than the technician has set the ready flag, and one more where
  -- it was set at first.
  pub one_job_each_time :
      (l : List (Event M S)) (p : Plant)
      → (run l p).accepted ≤ p.accepted + one_if p.firmware.ready_flag + presses l
  one_job_each_time [] p = omega arith
  one_job_each_time (readies ∷ l) p = let rest = one_job_each_time l (step readies p) in omega arith
  one_job_each_time (turns env addresses held ∷ l) p =
      let rest = one_job_each_time l (step (turns env addresses held) p) in
      let less = step-score env addresses held p in omega arith
