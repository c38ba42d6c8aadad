-- ===== src/Lwip/PacketBuffer/Chains.antt =====
-- What an iterator reads of a chain that lwIP has built.
use derusting.Prelude.{
  concat, ℕ, zero, suc, ◌+◌, ◌<◌, ◌≡◌, ◌∙◌, sym, ap, refl, Option, none, some, List, [], ◌∷◌, ◌++◌,
  take, length, length-append, arith, Bytes,
}
use derusting.Lwip.PacketBuffer.{
  Ptr, Pbuf, Memory, PacketBuffer, total_len, into_iter, next_chunk, ended, onto, collect,
}

-- From the pointer on, the memory holds the chunks, each buffer with the total length from it on, as
-- lwIP documents its chains. Other bytes may lie beyond a buffer's own.
pub data Chain (mem : Memory) : Option Ptr → List Bytes → Type 0 where
  stop : Chain mem none []
  link :
      {next : Option Ptr} {chunks : List Bytes}
      → (p : Ptr) (payload beyond : Bytes)
      → mem p
        ≡ some (record {
          next = next;
          payload = payload ++ beyond;
          tot_len = length payload + length (concat chunks);
          len = length payload;
        })
      → Chain mem next chunks
      → Chain mem (some p) (payload ∷ chunks)

own : (payload beyond : Bytes) → take (length payload) (payload ++ beyond) ≡ payload
own [] beyond = refl
own (b ∷ payload) beyond = ap (◌∷◌ b) (own payload beyond)

collect-Chain :
    (mem : Memory) (packet : PacketBuffer) {p : Option Ptr} {chunks : List Bytes} (fuel : ℕ)
    → Chain mem p chunks
    → length chunks < fuel
    → collect fuel mem (record { inner = packet; current = p }) ≡ ended chunks
unfolding collect next_chunk
collect-Chain mem packet zero c h = absurd (omega arith)
collect-Chain mem packet (suc fuel) stop h = refl
collect-Chain mem packet (suc fuel) (link {chunks} p payload beyond e c) h =
    rw (e, collect, next_chunk, own payload beyond)
      (ap (onto payload) (collect-Chain mem packet fuel c (omega arith)))

Chain-total :
    (mem : Memory) {p : Option Ptr} {chunks : List Bytes}
    → Chain mem p chunks
    → (q : Ptr) → p ≡ some q
    → (b : Pbuf) × (mem q ≡ some b) × (b.tot_len ≡ length (concat chunks))
Chain-total mem stop q e = cc
Chain-total mem (link {next} {chunks} p payload beyond e c) q same =
    let at : q ≡ p = cc in
    (
      record {
        next = next;
        payload = payload ++ beyond;
        tot_len = length payload + length (concat chunks);
        len = length payload;
      },
      ap mem at ∙ e,
      sym (length-append payload (concat chunks)),
    )

-- Over a packet as `try_from` makes it of a chain that lwIP has built, a `for` loop gives the payloads of the chain's buffers, each once
-- and in order, and ends without a fault after one turn more than there are buffers; and the packet's
-- total length is the length of all that is read.
pub packet_lem :
    (mem : Memory) (packet : PacketBuffer) (chunks : List Bytes) (fuel : ℕ)
    → packet.current ≡ packet.inner
    → Chain mem (some packet.inner) chunks
    → length chunks < fuel
    → (collect fuel mem (into_iter packet) ≡ ended chunks)
      × (total_len mem packet ≡ some (length (concat chunks)))
unfolding into_iter total_len
packet_lem mem packet chunks fuel first c h = (
  ap (λ p. collect fuel mem (record { inner = packet; current = some p })) first
      ∙ collect-Chain mem packet fuel c h,
  (let (b, e, total) = Chain-total mem c packet.inner refl in rw (e, total_len) (ap some total)),
)
