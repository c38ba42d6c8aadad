-- ===== src/Lwip/PacketBuffer/Fits.antt =====
-- When the buffer that `alloc` gets has room for the message.
use derusting.Prelude.{
  ℕ, ◌%◌, ◌≤◌, ◌<◌, ◌≡◌, ◌⊎◌, ◌∙◌, ap, inl, inr, refl, true, false, Option, some, length, ltb,
  arith, Bytes, Option-cases,
}
use derusting.Lwip.PacketBuffer.{Ptr, Postcard, nothing, packet, overrun, fill, alloc}

module _ {T : Type 0} (postcard : Postcard T) (pbuf_alloc : ℕ → Option Ptr) where
  alloc_at :
      (msg : T) (size : ℕ) (p : Ptr)
      → postcard.size msg ≡ some size
      → pbuf_alloc (size % 65_536) ≡ some p
      → alloc postcard pbuf_alloc msg ≡ fill postcard msg p size (size % 65_536)
  unfolding alloc
  alloc_at msg size p sized got = rw (sized, alloc, got) refl

  -- A message of less than 65 536 bytes that gets a buffer at all fills exactly this buffer, or, where
  -- it cannot be written, the buffer is given back.
  alloc_small :
      (msg : T) (size : ℕ) (p : Ptr)
      → postcard.size msg ≡ some size
      → size < 65_536
      → pbuf_alloc size ≡ some p
      → ((bytes : Bytes) × (alloc postcard pbuf_alloc msg ≡ packet p bytes) × (length bytes ≡ size))
        ⊎ (alloc postcard pbuf_alloc msg ≡ nothing true)
  unfolding fill
  alloc_small msg size p sized small got =
      let same : size % 65_536 ≡ size = omega arith in
      let filled : alloc postcard pbuf_alloc msg ≡ fill postcard msg p size size =
        alloc_at msg size p sized (ap pbuf_alloc same ∙ got) ∙ ap (fill postcard msg p size) same in
      let room : ltb size size ≡ false = ground arith in
      elim (Option-cases (postcard.to_slice msg size)) [
        | inl e ↦ inr (filled ∙ rw (fill, room, e) refl)
        | inr (bytes, e) ↦ inl (
          bytes,
          filled ∙ rw (fill, room, e) refl,
          postcard.to_slice_size msg size size bytes sized e,
        )
      ]

  -- A longer message that gets a buffer is written through a slice that is longer than the buffer.
  alloc_overrun :
      (msg : T) (size : ℕ) (p : Ptr)
      → postcard.size msg ≡ some size
      → 65_536 ≤ size
      → pbuf_alloc (size % 65_536) ≡ some p
      → (alloc postcard pbuf_alloc msg ≡ overrun size (size % 65_536)) × (size % 65_536 < size)
  unfolding fill
  alloc_overrun msg size p sized large got =
      let less : size % 65_536 < size = omega arith in
      let short : ltb (size % 65_536) size ≡ true = ground arith in
      (alloc_at msg size p sized got ∙ rw (fill, short) refl, less)
