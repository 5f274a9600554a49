-- ===== src/Store/Examples.antt =====
-- The theorems on the store at concrete inputs.
use mathlib.Core.Path.{subst}
use sisyphus_db.Prelude.{ap₂, ◌++◌, take, drop, length, take-append, drop-append, pos}
use sisyphus_db.Raft.Node.{Raft, blank, sentinel, leader}
use sisyphus_db.Store.{propose, is_waiting, await, read_applied, apply_cmd}
use sisyphus_db.Store.Client.{propose-result, new_entry, cmd_of}
use sisyphus_db.Prelude.{◌≡◌, ◌⊎◌, refl, arith, false, Option, none, some, List, [], ◌∷◌, Bytes}
use sisyphus_db.Raft.Node.{LogEntry}
use sisyphus_db.StorageWal.{open_wal}
use sisyphus_db.Store.{
  Store, RaftCmd, new_mem_table, map_limit, get_memory, apply_internal, write_stall,
  read_applied_logs,
}
use sisyphus_db.Store.Apply.{Applied, Stalled, apply_internal_cases, new_mem_table-IsTable}
use sisyphus_db.Store.Memory.{Step, effects, FitsCmd, read_applied_logs-effects}

abbrev key_a : Bytes
key_a = 97 ∷ []

abbrev empty_store : Store
empty_store = record {
  active = new_mem_table map_limit (open_wal []) 0;
  frozen = none;
  wal_dir = λ n. [];
  wal_seq = 0;
  flush_requested = false;
  waiting = 2 ∷ [];
  tables = [];
}

apply_internal_cases_example :
    (Stalled key_a (1 ∷ []) empty_store
      × (apply_internal key_a (1 ∷ []) false empty_store ≡ (some write_stall, empty_store)))
    ⊎ ((s' : Store) × (apply_internal key_a (1 ∷ []) false empty_store ≡ (none, s'))
        × Applied key_a (1 ∷ []) false empty_store s')
apply_internal_cases_example =
    apply_internal_cases key_a (1 ∷ []) false empty_store (new_mem_table-IsTable (open_wal []) 0)
      (omega arith) (omega arith)

-- A decoder of commands of an operation, a key of one byte, and a value.
abbrev decode : Bytes → Option RaftCmd
decode (op ∷ k ∷ value) = some (record { op = op; key = k ∷ []; value = value })
decode _ = none

abbrev delivered : List LogEntry
delivered =
    record { index = 1; term = 1; command = 1 ∷ 97 ∷ 5 ∷ 6 ∷ [] }
    ∷ (record { index = 2; term = 1; command = 2 ∷ 97 ∷ [] }
        ∷ (record { index = 3; term = 1; command = [] } ∷ []))

abbrev put_cmd : RaftCmd
put_cmd = record { op = 1; key = key_a; value = 5 ∷ 6 ∷ [] }

abbrev delete_cmd : RaftCmd
delete_cmd = record { op = 2; key = key_a; value = [] }

fits_of : (o : RaftCmd) → FitsCmd o → (cmd : RaftCmd) → some o ≡ some cmd → FitsCmd cmd
fits_of o h cmd e = let eo : o ≡ cmd = cc in subst FitsCmd eo h

read_applied_logs-effects_example :
    Step
      (effects decode delivered empty_store (get_memory empty_store))
      (read_applied_logs decode delivered empty_store)
read_applied_logs-effects_example =
    read_applied_logs-effects decode delivered empty_store (get_memory empty_store)
      (new_mem_table-IsTable (open_wal []) 0)
      (
        fits_of put_cmd (omega arith, omega arith),
        (fits_of delete_cmd (omega arith, omega arith), ((λ cmd e. absurd (cc)), tt)),
      )
      (λ k. refl)

-- A coding of commands that decodes what it encodes.
abbrev encode_cmd : RaftCmd → Bytes
encode_cmd cmd = cmd.op ∷ (length cmd.key ∷ (cmd.key ++ cmd.value))

abbrev decode_cmd : Bytes → Option RaftCmd
decode_cmd (op ∷ n ∷ bs) = some (record { op = op; key = take n bs; value = drop n bs })
decode_cmd _ = none

decode-encode_cmd : (cmd : RaftCmd) → decode_cmd (encode_cmd cmd) ≡ some cmd
decode-encode_cmd cmd =
    ap₂ (λ k v. some (record { op = cmd.op; key = k; value = v }))
      (take-append (length cmd.key) cmd.key cmd.value refl)
      (drop-append (length cmd.key) cmd.key cmd.value refl)

abbrev leading_node : Raft
leading_node = record (blank 3 0 [] 0) { current_term = 1; log = sentinel ∷ []; state = leader }

nobody_waits : is_waiting 1 empty_store.waiting ≡ false
unfolding is_waiting
nobody_waits = refl

propose-result_example :
    (rf' : Raft) × (propose encode_cmd key_a (5 ∷ []) false leading_node ≡ (some (pos 1), rf'))
    × (rf'.log ≡ sentinel ∷ (new_entry encode_cmd key_a (5 ∷ []) false leading_node ∷ []))
    × ((read_applied decode_cmd
          (new_entry encode_cmd key_a (5 ∷ []) false leading_node)
          (await (pos 1) empty_store)).0
        ≡ some (record {
          value = 5 ∷ [];
          error = (apply_cmd (cmd_of key_a (5 ∷ []) false) (await (pos 1) empty_store)).0;
        }))
    × ((read_applied decode_cmd
          (new_entry encode_cmd key_a (5 ∷ []) false leading_node)
          empty_store).0
        ≡ none)
propose-result_example =
    propose-result encode_cmd decode_cmd key_a (5 ∷ []) false leading_node empty_store
      (decode-encode_cmd (cmd_of key_a (5 ∷ []) false)) refl nobody_waits
