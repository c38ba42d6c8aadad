-- ===== src/Tasks/Tcp/Upload.antt =====
-- The loops of `handle_conn` in src/tasks/tcp.rs that take the body of a PUT request to a file.
--
-- `content_length` counts the bytes still to come. A packet is the list of its chunks. The results of
-- the writes are dropped by the code, so a trace of what is handed to `f.write` is kept instead.
use derusting.Prelude.{
  concat, concat_all, concat-append, take-append, take-chunk, ℕ, zero, suc, ◌-◌, ◌≡◌, ◌∙◌, sym, ap,
  ap₂, inl, inr, refl, Bool, true, false, List, [], ◌∷◌, ◌++◌, append-nil, min, length, take,
  length-append, ◌==◌, ==_iff, leb, if◌then◌else◌, arith, Bytes, Bool-cases,
}

-- The rest of `content_length` and what was written.
abbrev pub Progress : Type 0
Progress = ℕ × List Bytes

-- `f.write(&chunk[..min(content_length, chunk.len())])` and the new `content_length`.
abbrev pub write_chunk : ℕ → Bytes → Progress
write_chunk content_length chunk =
    let to_write = min content_length (length chunk) in
    (content_length - to_write, take to_write chunk ∷ [])

-- `for chunk in iter`, which leaves by `break` once nothing is to come.
unfoldable pub write_chunks : ℕ → List Bytes → Progress
write_chunks content_length [] = (content_length, [])
write_chunks content_length (chunk ∷ chunks) =
    let (left, written) = write_chunk content_length chunk in
    let (left', more) = write_chunks left chunks in
    if left == 0 then (left, written) else (left', written ++ more)

-- Whether the loop over the first packet's chunks was left by `break`.
unfoldable pub broke_off : ℕ → List Bytes → Bool
broke_off content_length [] = false
broke_off content_length (chunk ∷ chunks) =
    let (left, written) = write_chunk content_length chunk in
    let later = broke_off left chunks in if left == 0 then true else later

-- How the upload ends: all is there, or the packets are used up before.
pub data End : Type 0 where
  complete reset : End

-- `while content_length > 0`, over the packets that arrive.
unfoldable pub write_packets : ℕ → List (List Bytes) → End × List Bytes
write_packets zero packets = (complete, [])
write_packets (suc n) [] = (reset, [])
write_packets (suc n) (packet ∷ packets) =
    let (left, written) = write_chunks (suc n) packet in
    let (end, more) = write_packets left packets in (end, written ++ more)

-- The body's first bytes, the other chunks of the first packet, and the packets after it.
unfoldable pub upload : ℕ → Bytes → List Bytes → List (List Bytes) → End × List Bytes
upload size body chunks packets =
    let (left, written) = write_chunk size body in
    let (left', more) = write_chunks left chunks in
    if broke_off left chunks
    then (complete, written ++ more)
    else let (end, rest) = write_packets left' packets in (end, written ++ (more ++ rest))

-- The loop takes exactly the first `n` bytes of the chunks, or all of them.
write_chunks_lem :
    (n : ℕ) (chunks : List Bytes)
    → (concat (write_chunks n chunks).1 ≡ take n (concat chunks))
      × ((write_chunks n chunks).0 ≡ n - length (concat chunks))
unfolding write_chunks
write_chunks_lem zero [] = (refl, omega arith)
write_chunks_lem (suc n) [] = (refl, omega arith)
write_chunks_lem n (chunk ∷ chunks) =
    let left : ℕ = n - min n (length chunk) in
    let ih = write_chunks_lem left chunks in
    elim (Bool-cases (left == 0)) [
      | inl e ↦ (
        rw e (
            ap (λ m. take (min n (length chunk)) chunk ++ take m (concat chunks))
              (sym ((==_iff left 0).0 e))
            ∙ take-chunk n chunk (concat chunks)),
        rw e (omega (arith, (==_iff left 0).0 e, length-append chunk (concat chunks))),
      )
      | inr e ↦ (
        rw e (
            ap (λ t. take (min n (length chunk)) chunk ++ t) ih.0
            ∙ take-chunk n chunk (concat chunks)),
        rw e (omega (arith, ih.1, length-append chunk (concat chunks))),
      )
    ]

-- The loop is left by `break` only when nothing is to come.
broke_off-left :
    (n : ℕ) (chunks : List Bytes) → broke_off n chunks ≡ true → (write_chunks n chunks).0 ≡ 0
unfolding broke_off write_chunks
broke_off-left n [] h = cc
broke_off-left n (chunk ∷ chunks) h =
    ground (arith, broke_off-left (n - min n (length chunk)) chunks)

-- How an upload of `n` bytes ends that gets `have` bytes.
abbrev pub end_of : ℕ → ℕ → End
end_of n have = if leb n have then complete else reset

end_of-sub :
    (n left : ℕ) (s t : Bytes)
    → left ≡ n - length s
    → end_of left (length t) ≡ end_of n (length (s ++ t))
end_of-sub n left s t e = ground (arith, length-append s t)

write_packets_lem :
    (n : ℕ) (packets : List (List Bytes))
    → (concat (write_packets n packets).1 ≡ take n (concat_all packets))
      × ((write_packets n packets).0 ≡ end_of n (length (concat_all packets)))
unfolding write_packets
write_packets_lem zero packets = (refl, ground arith)
write_packets_lem (suc n) [] = (refl, ground arith)
write_packets_lem (suc n) (packet ∷ packets) =
    let left : ℕ = (write_chunks (suc n) packet).0 in
    let (taken, rest) = write_chunks_lem (suc n) packet in
    let (more, end) = write_packets_lem left packets in
    (
      concat-append (write_chunks (suc n) packet).1 (write_packets left packets).1
          ∙ ap₂ ◌++◌ taken (more ∙ ap (λ m. take m (concat_all packets)) rest)
          ∙ sym (take-append (suc n) (concat packet) (concat_all packets)),
      end ∙ end_of-sub (suc n) left (concat packet) (concat_all packets) rest,
    )

-- From the first packet's chunks on, where they are enough.
chunks_only :
    (n : ℕ) (chunks : List Bytes) (packets : List (List Bytes))
    → (write_chunks n chunks).0 ≡ 0
    → (concat (write_chunks n chunks).1 ≡ take n (concat chunks ++ concat_all packets))
      × (complete ≡ end_of n (length (concat chunks ++ concat_all packets)))
chunks_only n chunks packets e =
    let (taken, left) = write_chunks_lem n chunks in
    let enough : 0 ≡ n - length (concat chunks) = sym e ∙ left in
    (
      taken
          ∙ sym (append-nil (take n (concat chunks)))
          ∙ ap (λ m. take n (concat chunks) ++ take m (concat_all packets)) enough
          ∙ sym (take-append n (concat chunks) (concat_all packets)),
      ground (arith, length-append (concat chunks) (concat_all packets)),
    )

-- From the first packet's chunks on, in any case.
chunks_and_packets :
    (n : ℕ) (chunks : List Bytes) (packets : List (List Bytes))
    → let (left, written) = write_chunks n chunks in
      (concat (written ++ (write_packets left packets).1)
        ≡ take n (concat chunks ++ concat_all packets))
      × ((write_packets left packets).0 ≡ end_of n (length (concat chunks ++ concat_all packets)))
chunks_and_packets n chunks packets =
    let left : ℕ = (write_chunks n chunks).0 in
    let (taken, rest) = write_chunks_lem n chunks in
    let (more, end) = write_packets_lem left packets in
    (
      concat-append (write_chunks n chunks).1 (write_packets left packets).1
          ∙ ap₂ ◌++◌ taken (more ∙ ap (λ m. take m (concat_all packets)) rest)
          ∙ sym (take-append n (concat chunks) (concat_all packets)),
      end ∙ end_of-sub n left (concat chunks) (concat_all packets) rest,
    )

-- The file gets the first `size` bytes of the stream that follows the headers, however it is cut into
-- chunks and packets, and all of it where no more comes; the upload is complete
-- exactly if there were `size` bytes.
pub upload_lem :
    (size : ℕ) (body : Bytes) (chunks : List Bytes) (packets : List (List Bytes))
    → let stream = body ++ (concat chunks ++ concat_all packets) in
      (concat (upload size body chunks packets).1 ≡ take size stream)
      × ((upload size body chunks packets).0 ≡ end_of size (length stream))
unfolding upload
upload_lem size body chunks packets =
    let left : ℕ = size - min size (length body) in
    let rest : Bytes = concat chunks ++ concat_all packets in
    let more = take-chunk size body rest in
    let end = end_of-sub size left body rest (omega arith) in
    elim (Bool-cases (broke_off left chunks)) [
      | inl e ↦
          let (taken, done) = chunks_only left chunks packets (broke_off-left left chunks e) in
          (rw e (ap (◌++◌ (take (min size (length body)) body)) taken ∙ more), rw e (done ∙ end))
      | inr e ↦
          let (taken, done) = chunks_and_packets left chunks packets in
          (rw e (ap (◌++◌ (take (min size (length body)) body)) taken ∙ more), rw e (done ∙ end))
    ]
