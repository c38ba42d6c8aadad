-- ===== src/Start/Boot.antt =====
-- `embassy` of src/lib.rs, up to the executor: the stick is cleaned, and the printer is set offline.
--
-- The delay, the log of the size of a file and the check of the task's handle are left out.
use derusting.Prelude.{ℕ, ◌≤◌, ◌<◌, ◌≡◌, refl, false, Option, none, some, List, arith, Bytes, codes}
use derusting.Kinds.{Uuid}
use derusting.Heapless.LinearMap.{LinearMap}
use derusting.Heapless.IndexSet.{IndexSet}
use derusting.Heapless.Texts.{Texts}
use derusting.Fs.Clean.{Drive, returned, again, panicked, clean_usb, Orderly, clean_usb_returns}
use derusting.Marlin.{Firmware, set_offline}
use derusting.Tasks.Ring.Offline.{Event, Plant, presses, run, one_job_each_time}

-- What stands when the executor starts: the drive and the firmware; `none` while the cleaning goes on,
-- or where it has panicked.
unfoldable pub embassy :
    {D : Type 0} → Texts → Drive D → ℕ → ℕ → D → Firmware → Option (D × Firmware)
embassy texts drive fuel fuel' d firmware = elim (clean_usb texts drive fuel fuel' d) [
  | returned d' ↦ some (d', set_offline firmware)
  | again d' ↦ none
  | panicked ↦ none
]

-- The task `manage_ledger` begins without ownership.
abbrev pub begin : Firmware → Plant
begin firmware = record { firmware = firmware; observed = false; accepted = 0 }

module _ {D : Type 0} (texts : Texts) (drive : Drive D) where
  embassy_at :
      (fuel fuel' : ℕ) (d d' : D) (firmware : Firmware)
      → clean_usb texts drive fuel fuel' d ≡ returned d'
      → embassy texts drive fuel fuel' d firmware ≡ some (d', set_offline firmware)
  unfolding embassy
  embassy_at fuel fuel' d d' firmware e = rw (embassy, e) refl

  -- On a stick where all matching names fit, 58 bytes at most, and each successful unlinking leaves
  -- fewer files, the start gets through the cleaning; and from then on, over any turns of the task and
  -- whatever the other tasks do, the printer takes no more jobs than the technician has set the ready
  -- flag: none before the first time, although the flag may have been set before the start.
  pub start_needs_technician :
      {M S : Type 0} (book : LinearMap ℕ M) (jobs : IndexSet S) (show : Uuid → Bytes)
      (remaining : D → ℕ) (firmware : Firmware) (fuel : ℕ) (d : D) (l : List (Event M S))
      → Orderly texts drive (codes "*.gcode") remaining
      → Orderly texts drive (codes "*.partial") remaining
      → remaining d < fuel
      → (fuel' : ℕ) × ((d' : D) × ((firmware' : Firmware) × (embassy texts drive fuel fuel' d
                firmware
              ≡ some (d', firmware'))
            × ((run book jobs texts show l (begin firmware')).accepted ≤ presses l)))
  unfolding set_offline
  start_needs_technician book jobs show remaining firmware fuel d l o o' h =
      let (fuel', (d', e)) = clean_usb_returns texts drive remaining o o' fuel d h in
      let most = one_job_each_time book jobs texts show l (begin (set_offline firmware)) in
      (fuel', (d', (set_offline firmware, embassy_at fuel fuel' d d' firmware e, omega arith)))
