-- ===== src/RaftWal.antt =====
-- raft/raft_wal.go: the log of Raft records on disk. The file is the list of its bytes. A write
-- reaches the file, since a failing disk is not modelled; `sync` moves bytes from the cache of the
-- operating system to the disk and changes none. The mutex makes each method one step.
pub mod RoundTrip
pub mod Append
mod Examples
use sisyphus_db.Prelude.{ℕ, zero, suc, ◌+◌, ◌-◌, ◌%◌, ◌^◌, ◌<◌, ◌≡◌, Bool, true, false, ◌||◌}
use sisyphus_db.Prelude.{List, [], ◌∷◌, ◌++◌, length, take, drop, ltb, leb, ◌==◌, if◌then◌else◌}
use sisyphus_db.Prelude.{Outcome, ok, err, panic, ◌>>=◌, Bytes, le_bytes, le_value, read_full}
use sisyphus_db.Prelude.{ReadError, eof}

abbrev pub record_type_log : ℕ
record_type_log = 0

abbrev pub record_type_hard_state : ℕ
record_type_hard_state = 1

pub record HardState : Type 0 where
  pub term : ℕ
  pub vote : ℕ
  pub commit : ℕ

pub record WalEntry : Type 0 where
  pub record_type : ℕ
  pub index : ℕ
  pub term : ℕ
  pub command : Bytes

-- `sync_requested` is the one-place channel `triggerCh` to the background syncer.
pub record Wal : Type 0 where
  pub file : Bytes
  pub last_persisted : ℕ
  pub sync_requested : Bool

-- `createOrOpenRaftWAL` on a file with the given contents.
unfoldable pub create_or_open : Bytes → Wal
create_or_open contents = record { file = contents; last_persisted = 0; sync_requested = false }

-- One log record: type(1), index(4), term(4), command length(4), command.
unfoldable pub encode_entry : WalEntry → Bytes
encode_entry e =
    record_type_log
    ∷ (le_bytes 4 e.index ++ (le_bytes 4 e.term ++ (le_bytes 4 (length e.command) ++ e.command)))

-- One round of the loop of `AppendEntries`, on the buffer and `highestIndex`.
abbrev append_round : ℕ → WalEntry → Bytes × ℕ → Bytes × ℕ
append_round last_persisted e (buf, highest) =
    if leb e.index last_persisted then (buf, highest) else (buf ++ encode_entry e, e.index)

unfoldable pub append_loop : ℕ → List WalEntry → Bytes × ℕ → Bytes × ℕ
append_loop last_persisted [] s = s
append_loop last_persisted (e ∷ es) s =
    append_loop last_persisted es (append_round last_persisted e s)

-- `if buf.Len() > 0 { ... }`
abbrev flush : Wal → Bytes × ℕ → Wal
flush w ([], highest) = w
flush w (b ∷ buf, highest) = record w {
  file = w.file ++ (b ∷ buf);
  last_persisted = highest;
  sync_requested = true;
}

-- The subtraction is that of `uint32`, and a slice from behind the end of `entries` is a panic.
unfoldable pub append_entries : Wal → List WalEntry → ℕ → Outcome ReadError Wal
append_entries w entries start =
    let last_log_idx = (start + length entries + 2 ^ 32 - 1) % 2 ^ 32 in
    let start_offset =
      if leb (start % 2 ^ 32) w.last_persisted
      then (w.last_persisted + 2 ^ 32 - start % 2 ^ 32 + 1) % 2 ^ 32
      else 0 in
    if leb last_log_idx w.last_persisted || length entries == 0
    then ok w
    else if ltb (length entries) start_offset
    then panic
    else ok
        (flush w (append_loop w.last_persisted (drop start_offset entries) ([], w.last_persisted)))

unfoldable pub encode_hard_state : HardState → Bytes
encode_hard_state h =
    record_type_hard_state ∷ (le_bytes 4 h.term ++ (le_bytes 4 h.vote ++ le_bytes 4 h.commit))

unfoldable pub persist_hard_state : Wal → HardState → Wal
persist_hard_state w h = record w { file = w.file ++ encode_hard_state h; sync_requested = true }

-- The case `RecordTypeLog` of `RecoverEntries`, behind the type byte.
unfoldable pub read_entry : Bytes → Outcome ReadError (WalEntry × Bytes)
read_entry bs = do
  (header, rest) ← read_full 12 bs
  (cmd, rest') ← read_full (le_value (take 4 (drop 8 header))) rest
  ok (
    record {
      record_type = record_type_log;
      index = le_value (take 4 header);
      term = le_value (take 4 (drop 4 header));
      command = cmd;
    },
    rest',
  )

-- The case `RecordTypeHardState`.
unfoldable pub read_hard_state : Bytes → Outcome ReadError (HardState × Bytes)
read_hard_state bs = do
  (header, rest) ← read_full 12 bs
  ok (
    record {
      term = le_value (take 4 header);
      vote = le_value (take 4 (drop 4 header));
      commit = le_value (take 4 (drop 8 header));
    },
    rest,
  )

-- What `RecoverEntries` returns. `stuck` is no value of the program: the fuel ran out.
pub data Recovered : Type 0 where
  done : List WalEntry → HardState → Recovered
  failed : List WalEntry → HardState → ReadError → Recovered
  stuck : Recovered

-- A type byte that is neither of the two is skipped.
unfoldable pub recover_loop : ℕ → Bytes → List WalEntry → HardState → Recovered
recover_loop zero bs entries state = stuck
recover_loop (suc fuel) [] entries state = done entries state
recover_loop (suc fuel) (t ∷ bs) entries state = elim (t == record_type_log) [
  | true ↦ elim (read_entry bs) [
    | ok (e, rest) ↦ recover_loop fuel rest (entries ++ (e ∷ [])) state
    | err x ↦ failed entries state x
    | panic ↦ stuck
  ]
  | false ↦ elim (t == record_type_hard_state) [
    | true ↦ elim (read_hard_state bs) [
      | ok (h, rest) ↦ recover_loop fuel rest entries h
      | err x ↦ failed entries state x
      | panic ↦ stuck
    ]
    | false ↦ recover_loop fuel bs entries state
  ]
]

abbrev pub no_state : HardState
no_state = record { term = 0; vote = 0; commit = 0 }

unfoldable pub last_index : ℕ → List WalEntry → ℕ
last_index i [] = i
last_index i (e ∷ es) = last_index e.index es

unfoldable pub finish : Wal → Recovered → Recovered × Wal
finish w (done es h) = (done es h, record w { last_persisted = last_index w.last_persisted es })
finish w r = (r, w)

-- Each round takes a byte at least, so the length of the file and one more is fuel enough.
unfoldable pub recover_entries : Wal → Recovered × Wal
unfolding finish
recover_entries w = finish w (recover_loop (length w.file + 1) w.file [] no_state)
