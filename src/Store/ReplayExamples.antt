-- ===== src/Store/ReplayExamples.antt =====
-- The theorems on the start of the store at concrete inputs.
use sisyphus_db.Prelude.{
  ℕ, ◌≡◌, refl, ap, arith, false, some, List, [], ◌∷◌, length, Bytes, ok, inl, inr, missing,
  replicate,
}
use sisyphus_db.Bloom.Bounds.{length-replicate}
use sisyphus_db.Arena.{arena_full, entry_size}
use sisyphus_db.StorageWal.{open_wal, recover, done, cmd_put, cmd_delete}
use sisyphus_db.StorageWal.RoundTrip.{
  Call, write_calls, entries_of_calls, total_size, recover-write_calls,
}
use sisyphus_db.Store.{Store, get_memory, apply_internal, put_failed}
use sisyphus_db.Store.Start.{new_kv_store}
use sisyphus_db.Store.Replay.{last_found, new_kv_store-last_found, new_kv_store-undercounts}

-- `a` is put, then deleted.
abbrev put_call : Call
put_call = record { now = 1000; key = 97 ∷ []; val = 1 ∷ 2 ∷ []; cmd = cmd_put }

abbrev delete_call : Call
delete_call = record { now = 2000; key = 97 ∷ []; val = []; cmd = cmd_delete }

abbrev written : List Call → ℕ → Bytes
written calls n = (write_calls calls (open_wal [])).file

abbrev two_calls : List Call
two_calls = put_call ∷ (delete_call ∷ [])

two_calls-recovered :
    (recover (open_wal (written two_calls 3))).0
    ≡ done (entries_of_calls 0 two_calls) (total_size two_calls)
two_calls-recovered =
    ap (λ p. p.0)
      (recover-write_calls two_calls
        (
          (omega arith, omega arith, omega arith, omega arith),
          ((omega arith, omega arith, omega arith, omega arith), tt),
        )
        (omega arith))

new_kv_store-last_found_example :
    (s : Store) × (new_kv_store (written two_calls) 3 [] ≡ ok s)
    × ((key : Bytes)
        → get_memory s key ≡ ok (last_found key (entries_of_calls 0 two_calls) missing))
unfolding entry_size
new_kv_store-last_found_example =
    new_kv_store-last_found (written two_calls) 3 (total_size two_calls) []
      (entries_of_calls 0 two_calls) two_calls-recovered
      ((inl refl, omega arith, omega arith), ((inr refl, omega arith, omega arith), tt))
      (omega arith) tt

-- A value that almost fills the arena.
big : Bytes
big = replicate 10485745 0

length-big : length big ≡ 10485745
unfolding big
length-big = length-replicate 10485745 0

abbrev big_call : Call
big_call = record { now = 1000; key = 97 ∷ []; val = big; cmd = cmd_put }

abbrev one_call : List Call
one_call = big_call ∷ []

one_call-recovered :
    (recover (open_wal (written one_call 0))).0
    ≡ done (entries_of_calls 0 one_call) (total_size one_call)
one_call-recovered =
    ap (λ p. p.0)
      (recover-write_calls one_call
        ((omega arith, omega arith, omega arith, omega (arith, length-big)), tt)
        (omega (arith, length-big)))

new_kv_store-undercounts_example :
    (s : Store) × (new_kv_store (written one_call) 0 [] ≡ ok s)
    × (apply_internal (98 ∷ []) [] false s ≡ (some (put_failed arena_full), s))
unfolding entry_size
new_kv_store-undercounts_example =
    new_kv_store-undercounts (written one_call) 0 (total_size one_call) []
      (entries_of_calls 0 one_call) one_call-recovered
      ((inl refl, omega arith, omega (arith, length-big)), tt) (omega (arith, length-big)) tt
      (98 ∷ []) [] false (omega (arith, length-big)) (omega (arith, length-big))
