-- ===== src/Lwip/PacketBuffer.antt =====
-- src/lwip/packet_buffer.rs: chains of lwIP's buffers in memory, their iterator, and `alloc`.
--
-- A pointer that is not null is a number; a fault, `none`, is a read through a pointer to no buffer.
-- The payload of a buffer is the memory from its pointer on, of which its first `len` bytes are its own.
pub mod Chains
pub mod Fits
use derusting.Prelude.{
  ℕ, zero, suc, ◌+◌, ◌%◌, ◌≤◌, ◌≡◌, Bool, true, false, Option, none, some, List, [], ◌∷◌, length,
  take, ltb, if◌then◌else◌, Bytes,
}
use derusting.Prelude.Result.{Result, ok, err}

abbrev pub Ptr : Type 0
Ptr = ℕ

pub record Pbuf : Type 0 where
  pub next : Option Ptr
  pub payload : Bytes
  pub tot_len : ℕ
  pub len : ℕ

abbrev pub Memory : Type 0
Memory = Ptr → Option Pbuf

pub record PacketBuffer : Type 0 where
  pub inner : Ptr
  pub current : Ptr

pub record PacketBufferIterator : Type 0 where
  pub inner : PacketBuffer
  pub current : Option Ptr

unfoldable pub try_from : Option Ptr → Result PacketBuffer (Unit {0})
try_from none = err tt
try_from (some p) = ok (record { inner = p; current = p })

unfoldable pub total_len : Memory → PacketBuffer → Option ℕ
total_len mem packet = elim (mem packet.inner) [ none ↦ none | some b ↦ some b.tot_len ]

unfoldable pub into_iter : PacketBuffer → PacketBufferIterator
into_iter packet = record { inner = packet; current = some packet.current }

-- What the buffer at the pointer gives, and the iterator behind it.
abbrev pub step_to :
    PacketBufferIterator → Option Pbuf → Option (Option Bytes × PacketBufferIterator)
step_to it none = none
step_to it (some b) = some (some (take b.len b.payload), record it { current = b.next })

-- `next`
unfoldable pub next_chunk :
    Memory → PacketBufferIterator → Option (Option Bytes × PacketBufferIterator)
next_chunk mem it = elim it.current [ none ↦ some (none, it) | some p ↦ step_to it (mem p) ]

-- A `for` loop over the iterator, on fuel: the chunks that it gives, and whether it came to its end.
pub data Collected : Type 0 where
  ended : List Bytes → Collected
  fault out_of_fuel : Collected

abbrev pub onto : Bytes → Collected → Collected
onto chunk (ended l) = ended (chunk ∷ l)
onto chunk fault = fault
onto chunk out_of_fuel = out_of_fuel

unfoldable pub collect : ℕ → Memory → PacketBufferIterator → Collected
collect zero mem it = out_of_fuel
collect (suc fuel) mem it = elim (next_chunk mem it) [
  | none ↦ fault
  | some (none, it') ↦ ended []
  | some (some chunk, it') ↦ onto chunk (collect fuel mem it')
]

-- The crate postcard: the size that `serialize_with_flavor` counts, and `to_slice` into a buffer of
-- the given size.
pub record Postcard (T : Type 0) : Type 0 where
  pub size : T → Option ℕ
  pub to_slice : T → ℕ → Option Bytes
  -- The counted size is the size of what is written, where there is room for it.
  pub to_slice_size :
      (msg : T) (n room : ℕ) (bytes : Bytes)
      → size msg ≡ some n
      → to_slice msg room ≡ some bytes
      → length bytes ≡ n

-- How `alloc` ends: with no packet, where `freed` tells whether a buffer was given back; with a packet
-- at the pointer, of the payload; or with a slice that is longer than the buffer below it.
pub data Allocated : Type 0 where
  nothing : Bool → Allocated
  packet : Ptr → Bytes → Allocated
  overrun : ℕ → ℕ → Allocated

module _ {T : Type 0} (postcard : Postcard T) where
  -- From the slice of `size` bytes in a buffer of `have` bytes on.
  unfoldable pub fill : T → Ptr → ℕ → ℕ → Allocated
  fill msg p size have =
      if ltb have size
      then overrun size have
      else elim (postcard.to_slice msg size) [ none ↦ nothing true | some bytes ↦ packet p bytes ]

  -- `alloc`, where `pbuf_alloc` answers a pointer to a buffer of as many bytes as it is asked for.
  unfoldable pub alloc : (ℕ → Option Ptr) → T → Allocated
  alloc pbuf_alloc msg = elim (postcard.size msg) [
    | none ↦ nothing false
    | some size ↦ elim (pbuf_alloc (size % 65_536)) [
      | none ↦ nothing false
      | some p ↦ fill msg p size (size % 65_536)
    ]
  ]
