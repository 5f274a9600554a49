-- ===== src/Raft/Node.antt =====
-- The state of a node, `Make` and `Start` (raft/raft.go), and raft/persist.go.
-- A Go `int` that the program never makes negative is a number; `votedFor` and the leader are ℤ.
use sisyphus_db.Prelude.{ℕ, ◌%◌, ◌^◌, ℤ, pos, minus_one, uint32, Bool, true, false, ltb, ◌==◌}
use sisyphus_db.Prelude.{List, [], ◌∷◌, ◌++◌, map, length, Option, none, some, if◌then◌else◌, Bytes}
use sisyphus_db.Prelude.{ok, err, panic}
use sisyphus_db.RaftWal.{Wal, WalEntry, HardState, Recovered, done, failed, stuck, record_type_log}
use sisyphus_db.RaftWal.{create_or_open, append_entries, persist_hard_state, recover_entries}

pub data State : Type 0 where
  follower candidate leader : State

pub record LogEntry : Type 0 where
  pub index : ℕ
  pub term : ℕ
  pub command : Bytes

-- The maps `nextIndex` and `matchIndex` are functions, 0 at a missing key. `peers` is the length of
-- the list of clients. `triggered` and `commit_signal` are the one-place channels.
pub record Raft : Type 0 where
  pub peers : ℕ
  pub me : ℕ
  pub leader_id : ℤ
  pub current_term : ℕ
  pub voted_for : ℤ
  pub log : List LogEntry
  pub wal : Wal
  pub commit_index : ℕ
  pub last_applied : ℕ
  pub next_index : ℕ → ℕ
  pub match_index : ℕ → ℕ
  pub state : State
  pub last_reset_time : ℕ
  pub triggered : Bool
  pub commit_signal : Bool

abbrev pub is_leader : State → Bool
is_leader follower = false
is_leader candidate = false
is_leader leader = true

-- `m[k] = v`
abbrev pub update : (ℕ → ℕ) → ℕ → ℕ → ℕ → ℕ
update m k v j = if j == k then v else m j

unfoldable pub to_wal_entry : LogEntry → WalEntry
to_wal_entry e = record {
  record_type = record_type_log;
  index = e.index % 2 ^ 32;
  term = e.term % 2 ^ 32;
  command = e.command;
}

unfoldable pub from_wal_entry : WalEntry → LogEntry
from_wal_entry e = record { index = e.index; term = e.term; command = e.command }

-- The error of `AppendEntries` is dropped.
unfoldable pub persist : Raft → Option Raft
persist rf =
    if ltb 0 (length rf.log)
    then elim (append_entries rf.wal (map to_wal_entry rf.log) 0) [
      | ok w ↦ some (record rf { wal = w })
      | err e ↦ some rf
      | panic ↦ none
    ]
    else some rf

abbrev pub hard_state : Raft → HardState
hard_state rf = record {
  term = rf.current_term % 2 ^ 32;
  vote = uint32 rf.voted_for;
  commit = rf.commit_index % 2 ^ 32;
}

unfoldable pub persist_state : Raft → Raft
persist_state rf = record rf { wal = persist_hard_state rf.wal (hard_state rf) }

unfoldable pub log_of_wal : List WalEntry → List LogEntry
log_of_wal [] = []
log_of_wal (e ∷ es) =
    let rest = log_of_wal es in
    if e.record_type == record_type_log then from_wal_entry e ∷ rest else rest

abbrev restore_log : List WalEntry → Raft → Raft
restore_log [] rf = rf
restore_log (e ∷ es) rf = record rf { log = log_of_wal (e ∷ es) }

abbrev restore_state : HardState → Raft → Raft
restore_state h rf =
    if ltb 0 h.term
    then record rf { current_term = h.term; voted_for = pos h.vote; commit_index = h.commit }
    else rf

-- The recovered log replaces the one in memory; after an error nothing is restored.
unfoldable pub restore : Recovered → Raft → Raft
restore (done es h) rf = restore_state h (restore_log es rf)
restore (failed es h e) rf = rf
restore stuck rf = rf

unfoldable pub read_persist : Raft → Raft
unfolding restore
read_persist rf = let (r, w) = recover_entries rf.wal in restore r (record rf { wal = w })

-- The entry that `Make` puts at index 0.
abbrev pub sentinel : LogEntry
sentinel = record { index = 0; term = 0; command = [] }

-- The node before `readPersist`, on a WAL file with the given contents.
unfoldable pub blank : ℕ → ℕ → Bytes → ℕ → Raft
blank peers me contents now = record {
  peers = peers;
  me = me;
  leader_id = minus_one;
  current_term = 0;
  voted_for = minus_one;
  log = sentinel ∷ [];
  wal = create_or_open contents;
  commit_index = 0;
  last_applied = 0;
  next_index = λ _. 0;
  match_index = λ _. 0;
  state = follower;
  last_reset_time = now;
  triggered = false;
  commit_signal = false;
}

unfoldable pub make : ℕ → ℕ → Bytes → ℕ → Raft
unfolding blank read_persist
make peers me contents now = read_persist (blank peers me contents now)

-- `GetLeader` and `getState`
unfoldable pub get_leader : Raft → ℤ
get_leader rf = rf.leader_id

unfoldable pub get_state : Raft → ℕ × Bool
get_state rf = (rf.current_term, is_leader rf.state)

-- `Start` on a byte slice: the index, the term, and whether this node is the leader.
unfoldable pub start : Bytes → Raft → (ℤ × ℕ × Bool) × Raft
start command rf =
    if is_leader rf.state
    then (
      (pos (length rf.log), rf.current_term, true),
      record rf {
        log =
            rf.log
            ++ (record { index = length rf.log; term = rf.current_term; command = command } ∷ []);
        triggered = true;
      },
    )
    else ((minus_one, rf.current_term, false), rf)
