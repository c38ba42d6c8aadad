-- ===== src/Tests/Clock.antt =====
-- Examples for the clock, the random numbers and the paths.
use derusting.Prelude.{
  List, ◌≤◌, codes, ◌==◌, ◌++◌, Bytes, Bool, if◌then◌else◌, none, false, ℕ, ◌+◌, ◌-◌, ◌<◌, ◌≡◌, ◌⊎◌,
  refl, true, [], ◌∷◌, elem, arith, some,
}
use derusting.FreeRtos.TimeDriver.{
  u32_size, Queue, FreeRtosTimeDriver, wait_for_interrupt_or_timeout,
}
use derusting.FreeRtos.TimeDriver.Sync.{
  InSync, next, done, readings, readings_exact, tick_count, wait_exact,
}
use derusting.Heapless.TextModels.{list_texts}
use derusting.Fs.Path.{prefix, IsHyphenated}
use derusting.Prelude.Result.{ok}
use derusting.Marlin.{Firmware}
use derusting.Tasks.Ring.{Env}
use derusting.Tasks.Ring.Offline as offline
use derusting.Start.Boot.{embassy, begin, start_needs_technician}
use derusting.Fs.Clean.{Drive, Orderly, again, text_of, find_and_delete, long_name_loops}
use derusting.Std.Utf8.{from_utf8, decode_from, lead}
use derusting.Tests.Inputs.{Book, Jobs, book, jobs, show, held}

-- Read last just before the counter's overflow.
abbrev driver : FreeRtosTimeDriver ℕ
driver = record { timekeeper = 4_294_967_290; free_rtos_now = 4_294_967_290; queue = 0 }

driver-InSync : InSync 4_294_967_290 driver
driver-InSync = record { total = refl; counter = refl }

readings_exact_example :
    readings (4_294_967_300 ∷ 4_294_968_000 ∷ []) driver ≡ 4_294_967_300 ∷ 4_294_968_000 ∷ []
readings_exact_example =
    readings_exact 4_294_967_290 (4_294_967_300 ∷ 4_294_968_000 ∷ []) driver driver-InSync (
      next (omega arith) (omega arith) (omega arith)
        (next (omega arith) (omega arith) (omega arith) done))

-- A queue whose next timer is always due at the time 4 294 968 000.
abbrev queue : Queue ℕ ℕ
queue = record { schedule_wake = λ at waker q. q; next_expiration = λ time q. (4_294_968_000, q) }

wait_exact_example :
    let (ticks, d') =
      wait_for_interrupt_or_timeout queue
        (tick_count 4_294_967_300)
        (tick_count 4_294_967_301)
        (tick_count 4_294_967_302)
        driver in
    ((ticks ≡ 4_294_968_000 - 4_294_967_300)
      ⊎ ((ticks ≡ u32_size - 1) × (4_294_967_300 + ticks < 4_294_968_000)))
    × InSync 4_294_967_302 d'
wait_exact_example =
    wait_exact queue 4_294_967_290 4_294_967_300 4_294_967_301 4_294_967_302 driver driver-InSync (
      next (omega arith) (omega arith) (omega arith) (
        next (omega arith) (omega arith) (omega arith)
          (next (omega arith) (omega arith) (omega arith) done)))

show-IsHyphenated : IsHyphenated (show 7)
unfolding elem
show-IsHyphenated = record { size = refl; no_nul = refl }

abbrev long_name : Bytes
long_name = codes "a-very-long-name-of-a-part-that-somebody-has-exported-twice.gcode"

-- A drive with one file, which `unlink` would remove.
abbrev drive : Drive Bool
drive = record {
  find_first = λ pattern d. ok (if d then some long_name else none);
  unlink = λ path d. (0, false);
}

long_name_loops_example : find_and_delete list_texts drive 5 (codes "*.gcode") true ≡ again true
unfolding text_of from_utf8 decode_from lead
long_name_loops_example =
    long_name_loops list_texts drive (codes "*.gcode") long_name true refl refl (omega arith) 5

-- A drive with some files of one short name.
abbrev tidy_drive : Drive ℕ
tidy_drive = record {
  find_first = λ pattern d. ok (if d == 0 then none else some (codes "a.gcode"));
  unlink = λ path d. (if d == 0 then 4 else 0, d - 1);
}

found_name :
    (pattern : Bytes) (d : ℕ) (name : Bytes)
    → tidy_drive.find_first pattern d ≡ ok (some name)
    → name ≡ codes "a.gcode"
found_name pattern d name h = ground arith

text_of_a : text_of (codes "a.gcode") ≡ codes "a.gcode"
unfolding text_of from_utf8 decode_from lead
text_of_a = refl

no_nul-a : elem 0 (prefix ++ codes "a.gcode") ≡ false
unfolding elem
no_nul-a = refl

tidy_drive-Orderly : (pattern : Bytes) → Orderly list_texts tidy_drive pattern (λ d. d)
tidy_drive-Orderly pattern = record {
  short = λ d name h. rw (found_name pattern d name h, text_of_a) (omega arith);
  no_nul = λ d name h. rw (found_name pattern d name h, text_of_a) no_nul-a;
  shrinks = λ path d h. ground arith;
}

abbrev env : Env
env = record {
  ipaddr = some 167_772_161;
  now = 1000;
  ready = true;
  idle = true;
  idle_in_print = true;
  fopen = λ path. true;
  accepts = λ cmd. true;
}

abbrev firmware : Firmware
firmware = record { idle = true; ready_flag = true; refreshed = 0 }

abbrev turns_of : List (offline.Event Book Jobs)
turns_of =
    offline.turns env [] (some held)
    ∷ offline.turns env [] (some held)
    ∷ offline.readies
    ∷ offline.turns env [] (some held)
    ∷ []

start_needs_technician_example :
    (fuel' : ℕ) × ((d' : ℕ) × ((firmware' : Firmware) × (embassy list_texts tidy_drive 3 fuel' 2
            firmware
          ≡ some (d', firmware'))
        × ((offline.run book jobs list_texts show turns_of (begin firmware')).accepted ≤ 1)))
start_needs_technician_example =
    start_needs_technician list_texts tidy_drive book jobs show (λ d. d) firmware 3 2 turns_of
      (tidy_drive-Orderly (codes "*.gcode")) (tidy_drive-Orderly (codes "*.partial")) (omega arith)
