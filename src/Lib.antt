-- ===== src/Lib.antt =====
-- Derusting: the part of a 3D printer's firmware that is written in Rust. The machines of a network
-- find one another by UDP broadcasts, take G-code files over HTTP, hand the files to one another and
-- pass one ledger of jobs around; the machine that owns the ledger may print a job of it.
--
-- The tasks run on one cooperative executor and share `DerustingState`: the address book, the ledger
-- and the channel of files to hand out. Each holds the locks that it needs while it reads and changes
-- a field, so the models take such a stretch as one step on an explicit state.
--
--   Prelude   lists, tests and results that all files use
--   Std       slices, UTF-8, `str` and decimal numbers of Rust's standard library
--   Heapless  the collections and the channel of the crates heapless and embassy-sync as records of
--             operations and documented laws, and list models of them for the examples
--   Kinds, State
--             src/kinds.rs and `DerustingState` of src/lib.rs; times are milliseconds, addresses and
--             identifiers are their values as numbers
--   Http      src/http.rs
--   Fs        src/fs.rs: `make_path`, `open`, `stat`, `clean_usb`, and File with the reader, the
--             writer and `seek` of an open file
--   Marlin    src/marlin.rs: `print` and `home`, and the firmware's ready flag
--   Tasks     src/tasks: Messages (messages.rs), Udp (`heartbeat`, `udp_receiver` and
--             `address_book_lifetime_check` of udp.rs), Ring (`manage_ledger` of udp.rs), Tcp (tcp.rs:
--             Request has the parsing, Upload the loops over the body, Handler `handle_conn` and
--             `append_to_ledger`, Worker `tcp_worker`), Distribute (`distribute_file` of tcp.rs), Rng
--             (rng.rs), Alerts and Agreement (a new job and a ledger from one machine over the network
--             to another), Locks (when each task takes and leaves the mutexes)
--   Log       src/log.rs
--   FreeRtos  src/free_rtos: TimeDriver (time_driver.rs), Task (task.rs), Executor (the loop and the
--             pender of executor.rs, with its own steps and what happens in between as events)
--   Lwip      src/lwip: Put (put.rs; Put/File has `put_file`), Tcp/Listener and Tcp/Connection (tcp.rs),
--             Udp (udp.rs), PacketBuffer (packet_buffer.rs), Access (mod.rs), IpAddr (ipaddr.rs),
--             and the error codes of bindings.rs. A callback is a function of the object that its
--             `arg` points to; what it does with control blocks and packets is a list of acts
--   Start     src/lib.rs: `embassy_main`, Boot with what `embassy` does before the executor runs, and
--             Launch with `derusting_main`, the logs and the executor's first task
--   Transfer  a file from the request of put.rs to the stored file of tasks/tcp.rs, or to its refusal,
--             and the responses of http.rs as a reader takes them apart
--   Tests     the examples
--
-- Code outside of the repository is a parameter: the firmware (which commands it accepts, which files
-- open), lwIP (the room of a connection, what `tcp_write` answers), the crates heapless, serde and
-- uuid. A loop that waits for the outside runs over the list of what the outside does: packets, turns,
-- answers of the random number generator; so no fuel bounds it. `find_and_delete` runs on fuel, one
-- unit a turn; one more than the number of matching files is enough. `Display` of a number has ten
-- steps of fuel, and a `u32` has at most ten digits.
--
-- A `drop` of a socket empties its channel on fuel, one unit a value; one more than the number of
-- values that wait is enough. The loop over a chain of packet buffers runs on fuel, one more than the
-- number of buffers. A `c_long` has 32 bits.
--
-- The executor stands on two interfaces, `Kernel` (the notifications of FreeRTOS) and `RunQueue` (the
-- queue of woken tasks of the crate embassy-executor); its loop runs over a list of events. A mutex is
-- free or has one holder; the tasks take and leave it in a step relation.
--
-- Not modelled: the panic handler, which only calls the firmware; the declarations of foreign
-- functions; the delays; the loop of the heartbeat around one turn; `test_file` of src/fs.rs, which
-- nothing calls; and the allocator of src/free_rtos/alloc.rs, which is not compiled.
pub mod Prelude
pub mod Std
pub mod Heapless
pub mod Kinds
pub mod State
pub mod Http
pub mod Fs
pub mod Marlin
pub mod FreeRtos
pub mod Log
pub mod Lwip
pub mod Tasks
pub mod Start
pub mod Transfer
pub mod Tests
