-- ===== src/Tasks/Distribute/Completion.antt =====
-- When every machine is tried.
use derusting.Prelude.{
  ◌≡◌, ◌∙◌, ap, refl, Bool, true, false, none, some, List, [], ◌++◌, Bytes, codes, keys,
}
use derusting.Prelude.Result.{Result, ok, err, ◌>>=◌}
use derusting.Kinds.{Ipv4Addr, Uuid, Instant}
use derusting.State.{DerustingState}
use derusting.Heapless.Texts.{Texts}
use derusting.Heapless.LinearMap.{LinearMap}
use derusting.Heapless.Channel.{Channel}
use derusting.Fs.Path.{IsHyphenated, path_text, extension, make_path_fits}
use derusting.Fs.Open.{open_ok}
use derusting.Fs.Stat.{FilInfo, FResult, stat-path_text}
use derusting.Lwip.Put.{PutRequest, open_request, new_request}
use derusting.Lwip.Put.Life.{any}
use derusting.Lwip.Put.Ends.{is_final, report_ends_put}
use derusting.Lwip.Put.File.{Attempt, Sent, send, send_new, put_file}
use derusting.Tasks.Distribute.{Act, End, finished, distribute_file}
use derusting.Tasks.Distribute.Attempts.{
  is_waiting, outcome, reached_all, new_request_lem, distribute_file_lem,
}

module _ (texts : Texts) (show : Uuid → Bytes) where
  send_new_ends :
      (lwip : Attempt) (r : Result PutRequest FResult)
      → any is_final lwip.events ≡ true
      → is_waiting (send_new texts show lwip (some r)) ≡ false
  unfolding send_new
  send_new_ends lwip (err e) h = refl
  send_new_ends lwip (ok put) h =
      let (res, (pcb, e)) = report_ends_put texts show lwip put h in ap is_waiting e

  module _ (f_stat : Bytes → Result FilInfo FResult) (fopen : Bytes → Bool)
      (content : Bytes → Bytes) where
    put_file_ends :
        (lwip : Attempt) (guid : Uuid)
        → IsHyphenated (show guid)
        → any is_final lwip.events ≡ true
        → is_waiting (put_file texts show f_stat fopen content lwip guid) ≡ false
    unfolding put_file
    put_file_ends lwip guid h final =
        let (r, e) = new_request_lem texts show f_stat fopen content guid h in
        rw (put_file, e) (send_new_ends lwip r final)

    -- The request for the file of an identifier, before anything of it is read.
    abbrev pub request_of : Uuid → FilInfo → PutRequest
    request_of guid info = record {
      guid = guid;
      fsize = info.fsize;
      fh = content (path_text show guid false);
      buf = [];
      pcb = none;
      signal = none;
    }

    new_request-stored :
        (guid : Uuid) (info : FilInfo)
        → IsHyphenated (show guid)
        → f_stat (codes "0:/" ++ (show guid ++ extension false)) ≡ ok info
        → open_ok fopen (path_text show guid false) ≡ true
        → new_request texts show f_stat fopen content guid ≡ some (ok (request_of guid info))
    unfolding new_request
    new_request-stored guid info h found opens =
        rw (new_request, make_path_fits texts show guid false h)
          (ap some (
            ap (λ r. r >>= open_request fopen content guid (path_text show guid false))
              (stat-path_text texts f_stat show guid false h ∙ found)
            ∙ rw opens refl))

    put_file-stored :
        (lwip : Attempt) (guid : Uuid) (info : FilInfo)
        → IsHyphenated (show guid)
        → f_stat (codes "0:/" ++ (show guid ++ extension false)) ≡ ok info
        → open_ok fopen (path_text show guid false) ≡ true
        → put_file texts show f_stat fopen content lwip guid
          ≡ send texts show lwip (request_of guid info)
    unfolding put_file send_new
    put_file-stored lwip guid info h found opens =
        ap (send_new texts show lwip) (new_request-stored guid info h found opens)

    -- A file that is to be distributed, with an identifier of 36 characters, which is on the stick and can
    -- be opened: one after another, in its order, every machine of the address book gets a PUT, each by `send` of
    -- a request that holds the whole file, and the task is ready for the next file, where for each
    -- machine lwIP reports a packet from it, its end of the connection or a failure: no machine that
    -- refuses, fails or cannot be reached keeps the task from trying another one.
    pub every_machine_is_tried :
        {M S C : Type 0} (book : LinearMap Instant M) (channel : Channel Uuid C)
        (lwip : Ipv4Addr → Attempt) (state : DerustingState M S C) (guid : Uuid) (c : C)
        (info : FilInfo)
        → channel.try_receive state.files_to_distribute ≡ some (guid, c)
        → IsHyphenated (show guid)
        → f_stat (codes "0:/" ++ (show guid ++ extension false)) ≡ ok info
        → open_ok fopen (path_text show guid false) ≡ true
        → ((addr : Ipv4Addr) → any is_final (lwip addr).events ≡ true)
        → (turn : List Act × End) × (distribute_file texts show book channel f_stat fopen content
              lwip state
            ≡ some (record state { files_to_distribute = c }, turn))
          × (outcome turn ≡ (keys (book.iter state.addresses), finished))
          × ((addr : Ipv4Addr)
              → put_file texts show f_stat fopen content (lwip addr) guid
                ≡ send texts show (lwip addr) (request_of guid info))
    every_machine_is_tried book channel lwip state guid c info e h found opens final =
        let (turn, same, out) =
          distribute_file_lem texts show f_stat fopen content book channel lwip state guid c e h in
        let put : Ipv4Addr → Sent =
          λ addr. put_file texts show f_stat fopen content (lwip addr) guid in
        (
          turn,
          same,
          out
              ∙ reached_all put (keys (book.iter state.addresses))
                  (λ addr. put_file_ends (lwip addr) guid h (final addr)),
          λ addr. put_file-stored (lwip addr) guid info h found opens,
        )
