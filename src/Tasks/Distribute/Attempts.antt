-- ===== src/Tasks/Distribute/Attempts.antt =====
-- Which machines a file is sent to.
use derusting.Prelude.{
  ◌≤◌, ◌≡◌, ◌≢◌, ◌∙◌, ap, inl, inr, refl, Bool, true, false, Option, none, some, List, [], ◌∷◌,
  length, if◌then◌else◌, arith, Bytes, keys, Option-cases,
}
use derusting.Prelude.Result.{Result, ok, err, ◌>>=◌}
use derusting.Kinds.{Ipv4Addr, Uuid, Instant}
use derusting.State.{DerustingState}
use derusting.Heapless.Texts.{Texts}
use derusting.Heapless.LinearMap.{LinearMap}
use derusting.Heapless.Channel.{Channel}
use derusting.Fs.Path.{IsHyphenated, path_text, make_path_fits}
use derusting.Fs.Stat.{FilInfo, FResult, stat}
use derusting.Lwip.Bindings.{ErrT}
use derusting.Lwip.Put.{PutRequest, new_request, open_request, start, await}
use derusting.Lwip.Put.Life.{Event, run}
use derusting.Lwip.Access.{async_lwip}
use derusting.Lwip.Put.File.{
  Attempt, Sent, panics, waits, ended, wait, after_start, send, send_new, put_file,
}
use derusting.Tasks.Distribute.Lengths.{
  length-show_addr, length-show_err, length-put_text, length-sent_text, length-fail_text,
}
use derusting.Tasks.Distribute.{
  show_err, show_addr, put_text, sent_text, fail_text, Act, sends_log, puts, End, finished, waiting,
  told, after_put, send_to, distribute_file,
}

abbrev pub attempted : List Act → List Ipv4Addr
attempted [] = []
attempted (puts addr ∷ l) = addr ∷ attempted l
attempted (sends_log text ∷ l) = attempted l

abbrev pub is_waiting : Sent → Bool
is_waiting waits = true
is_waiting s = false

-- The addresses up to the first whose PUT is never answered, and how the turn ends.
abbrev pub reached : (Ipv4Addr → Sent) → List Ipv4Addr → List Ipv4Addr × End
reached put [] = ([], finished)
reached put (addr ∷ l) =
    let (addrs, end) = reached put l in
    if is_waiting (put addr) then (addr ∷ [], waiting) else (addr ∷ addrs, end)

-- Where every PUT ends, each address is reached, and the turn ends.
pub reached_all :
    (put : Ipv4Addr → Sent) (addrs : List Ipv4Addr)
    → ((addr : Ipv4Addr) → is_waiting (put addr) ≡ false)
    → reached put addrs ≡ (addrs, finished)
reached_all put [] h = refl
reached_all put (addr ∷ l) h = rw (h addr, reached_all put l h) refl

abbrev pub outcome : List Act × End → List Ipv4Addr × End
outcome (acts, end) = (attempted acts, end)

module _ (texts : Texts) (show : Uuid → Bytes) where
  told_fits :
      (text : Bytes) (r : List Act × End)
      → length text ≤ 128
      → outcome (told texts show text r) ≡ outcome r
  unfolding told
  told_fits text r h = rw (told, texts.write_fits 128 [] text (omega arith)) refl

  after_put_lem :
      (addr : Ipv4Addr) (s : Sent) (r : List Act × End)
      → s ≢ panics
      → outcome (after_put texts show addr s r)
        ≡ (if is_waiting s then ([], waiting) else outcome r)
  unfolding after_put
  after_put_lem addr panics r h = absurd (h refl)
  after_put_lem addr waits r h = refl
  after_put_lem addr (ended (ok u) pcb) r h =
      told_fits (sent_text (show_addr addr)) r
        (length-sent_text (show_addr addr) (length-show_addr addr))
  after_put_lem addr (ended (err e) pcb) r h =
      told_fits (fail_text (show_addr addr) (show_err e)) r
        (length-fail_text (show_addr addr) (show_err e) (length-show_addr addr) (length-show_err e))

  abbrev onto : Ipv4Addr → List Ipv4Addr × End → List Ipv4Addr × End
  onto addr (addrs, end) = (addr ∷ addrs, end)

  onto-if :
      (addr : Ipv4Addr) (b : Bool) (r : List Ipv4Addr × End)
      → onto addr (if b then ([], waiting) else r)
        ≡ (if b then (addr ∷ [], waiting) else (addr ∷ r.0, r.1))
  onto-if addr true r = refl
  onto-if addr false r = refl

  send_to_lem :
      (put : Ipv4Addr → Sent) (guid : Uuid) (addrs : List Ipv4Addr)
      → length (show guid) ≡ 36
      → ((addr : Ipv4Addr) → put addr ≢ panics)
      → outcome (send_to texts show put guid addrs) ≡ reached put addrs
  unfolding send_to
  send_to_lem put guid [] h no_panic = refl
  send_to_lem put guid (addr ∷ addrs) h no_panic =
      let rest = send_to texts show put guid addrs in
      let (acts, end) = after_put texts show addr (put addr) rest in
      told_fits (put_text (show guid) (show_addr addr)) (puts addr ∷ acts, end)
        (length-put_text (show guid) (show_addr addr) h (length-show_addr addr))
      ∙ ap (onto addr) (after_put_lem addr (put addr) rest (no_panic addr))
      ∙ onto-if addr (is_waiting (put addr)) (outcome rest)
      ∙ ap (λ r. if is_waiting (put addr) then (addr ∷ [], waiting) else (addr ∷ r.0, r.1))
          (send_to_lem put guid addrs h no_panic)

  wait-ne_panics : (p : Option PutRequest) → wait texts show p ≢ panics
  unfolding wait
  wait-ne_panics none = λ e. cc
  wait-ne_panics (some this) = elim (Option-cases (await this).0) [
    | inl e ↦ rw (wait, e) (λ h. cc)
    | inr (res, e) ↦ rw (wait, e) (λ h. cc)
  ]

  after_start-ne_panics :
      (events : List Event) (r : Result (Unit {0}) ErrT × PutRequest)
      → after_start texts show events r ≢ panics
  unfolding after_start
  after_start-ne_panics events (err e, this) = λ h. cc
  after_start-ne_panics events (ok u, this) = wait-ne_panics (run texts show events this)

  send_new-ne_panics :
      (lwip : Attempt) (r : Result PutRequest FResult) → send_new texts show lwip (some r) ≢ panics
  unfolding send_new send
  send_new-ne_panics lwip (err e) = λ h. cc
  send_new-ne_panics lwip (ok put) =
      after_start-ne_panics lwip.events (async_lwip lwip.enqueued (start lwip.new lwip.connect) put)

  module _ (f_stat : Bytes → Result FilInfo FResult) (fopen : Bytes → Bool)
      (content : Bytes → Bytes) where
    pub new_request_lem :
        (guid : Uuid)
        → IsHyphenated (show guid)
        → (r : Result PutRequest FResult) × (new_request texts show f_stat fopen content guid
            ≡ some r)
    unfolding new_request
    new_request_lem guid h =
        let path = path_text show guid false in
        (
          stat texts f_stat path >>= open_request fopen content guid path,
          rw (new_request, make_path_fits texts show guid false h) refl,
        )

    put_file-ne_panics :
        (lwip : Attempt) (guid : Uuid)
        → IsHyphenated (show guid)
        → put_file texts show f_stat fopen content lwip guid ≢ panics
    unfolding put_file
    put_file-ne_panics lwip guid h =
        let (r, e) = new_request_lem guid h in rw (put_file, e) (send_new-ne_panics lwip r)

    pub distribute_file_lem :
        {M S C : Type 0} (book : LinearMap Instant M) (channel : Channel Uuid C)
        (lwip : Ipv4Addr → Attempt) (state : DerustingState M S C) (guid : Uuid) (c : C)
        → channel.try_receive state.files_to_distribute ≡ some (guid, c)
        → IsHyphenated (show guid)
        → let put : Ipv4Addr → Sent =
            λ addr. put_file texts show f_stat fopen content (lwip addr) guid in
          (turn : List Act × End) × (distribute_file texts show book channel f_stat fopen content
              lwip state
            ≡ some (record state { files_to_distribute = c }, turn))
          × (outcome turn ≡ reached put (keys (book.iter state.addresses)))
    unfolding distribute_file
    distribute_file_lem book channel lwip state guid c e h =
        let put : Ipv4Addr → Sent =
          λ addr. put_file texts show f_stat fopen content (lwip addr) guid in
        (
          send_to texts show put guid (keys (book.iter state.addresses)),
          rw (distribute_file, e) refl,
          send_to_lem put guid (keys (book.iter state.addresses)) h.size
              (λ addr. put_file-ne_panics (lwip addr) guid h),
        )
