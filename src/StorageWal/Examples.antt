-- ===== src/StorageWal/Examples.antt =====
-- The theorems on the write-ahead log of the store at concrete inputs.
use sisyphus_db.Prelude.{List, [], ◌∷◌, ◌++◌, ◌≡◌, arith, take, length}
use sisyphus_db.StorageWal.{recover, open_wal, done, failed, read_error, cmd_put, cmd_delete}
use sisyphus_db.Prelude.{unexpected_eof, ℕ}
use sisyphus_db.StorageWal.RoundTrip.{
  Call, write_calls, entries_of_calls, total_size, recover-write_calls,
}
use sisyphus_db.StorageWal.RoundTrip.{encode_calls, encode_call}
use sisyphus_db.StorageWal.Torn.{recover-torn}

-- `a` is put, `b` is put, and `a` is deleted.
abbrev put_a : Call
put_a = record { now = 1000; key = 97 ∷ []; val = 1 ∷ 2 ∷ []; cmd = cmd_put }

abbrev put_b : Call
put_b = record { now = 2000; key = 98 ∷ []; val = 3 ∷ []; cmd = cmd_put }

abbrev delete_a : Call
delete_a = record { now = 3000; key = 97 ∷ []; val = []; cmd = cmd_delete }

abbrev three_calls : List Call
three_calls = put_a ∷ put_b ∷ delete_a ∷ []

recover-write_calls_example : recover (open_wal (write_calls three_calls (open_wal [])).file) ≡ (
  done (entries_of_calls 0 three_calls) (total_size three_calls),
  write_calls three_calls (open_wal []),
)
recover-write_calls_example =
    recover-write_calls three_calls
      (
        (omega arith, omega arith, omega arith, omega arith),
        (
          (omega arith, omega arith, omega arith, omega arith),
          ((omega arith, omega arith, omega arith, omega arith), tt),
        ),
      )
      (omega arith)

abbrev torn_file : List ℕ
torn_file = encode_calls 0 (put_a ∷ []) ++ take 30 (encode_call (total_size (put_a ∷ [])) put_b)

recover-torn_example :
    (lsn : ℕ) × (recover (open_wal torn_file) ≡ (
      failed (read_error unexpected_eof) lsn [],
      record { file = torn_file; position = length torn_file; current_lsn = lsn },
    ))
recover-torn_example =
    recover-torn (put_a ∷ []) put_b 30 ((omega arith, omega arith, omega arith, omega arith), tt)
      (omega arith, omega arith, omega arith, omega arith) (omega arith) (omega arith) (omega arith)
