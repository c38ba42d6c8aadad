-- ===== src/Tests/Inputs.antt =====
-- Concrete inputs: collections, identifiers, connections.
use derusting.Prelude.{true, none, some, List, [], ◌∷◌, Bytes, codes}
use derusting.Kinds.{Ipv4Addr, Uuid, Instant, LedgerState}
use derusting.State.{DerustingState}
use derusting.Heapless.LinearMap.{LinearMap}
use derusting.Heapless.IndexSet.{IndexSet}
use derusting.Heapless.Channel.{Channel}
use derusting.Heapless.Models.{list_map, list_set, list_channel}
use derusting.Tasks.Tcp.Request.{PutInfo}
use derusting.Tasks.Tcp.Handler.{Conn}

abbrev pub Book : Type 0
Book = List (Ipv4Addr × Instant)

abbrev pub Jobs : Type 0
Jobs = List Uuid

abbrev pub book : LinearMap Instant Book
book = list_map 16

abbrev pub jobs : IndexSet Jobs
jobs = list_set 8

abbrev pub channel : Channel Uuid (List Uuid)
channel = list_channel 8

-- The identifier 7 in the text form, and any other alike.
abbrev pub show : Uuid → Bytes
show guid = codes "00000000-0000-7000-8000-000000000007"

abbrev pub conn : Conn
conn = record {
  packets = [];
  closes = true;
  ipaddr = some 167_772_161;
  fresh = 7;
  fopen = λ path. true;
}

abbrev pub info : PutInfo
info = record { size = some 3; guid = none; is_gcode = true }

abbrev pub held : LedgerState Jobs
held = record { ledger = record { owner = 167_772_161; jobs = 5 ∷ [] }; received = 1000 }

abbrev pub state : DerustingState Book Jobs (List Uuid)
state = record { addresses = []; jobs = some held; files_to_distribute = [] }

abbrev pub lone_state : DerustingState Book Jobs (List Uuid)
lone_state = record { addresses = []; jobs = none; files_to_distribute = [] }
