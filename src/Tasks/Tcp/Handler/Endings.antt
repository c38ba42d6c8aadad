-- ===== src/Tasks/Tcp/Handler/Endings.antt =====
-- How the handling of a connection ends, as the client sees it.
use derusting.Prelude.{ℕ, suc, ◌+◌, List, [], ◌∷◌}
use derusting.Heapless.LinearMap.{LinearMap}
use derusting.Heapless.IndexSet.{IndexSet}
use derusting.Heapless.Channel.{Channel}
use derusting.Tasks.Tcp.Handler.{
  Act, send_log, respond, opened, wrote, closed, deleted, renamed, alert, waits,
}

-- The responses, and the deletions of a file that was not received whole; a wait for ever counts as
-- `w`.
abbrev pub endings : ℕ → List Act → ℕ
endings w [] = 0
endings w (respond r ∷ l) = suc (endings w l)
endings w (deleted path ∷ l) = suc (endings w l)
endings w (send_log text ∷ l) = endings w l
endings w (opened path ∷ l) = endings w l
endings w (wrote bytes ∷ l) = endings w l
endings w (closed ∷ l) = endings w l
endings w (renamed from to ∷ l) = endings w l
endings w (alert guid ∷ l) = endings w l
endings w (waits ∷ l) = w + endings w l
