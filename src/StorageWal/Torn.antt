-- ===== src/StorageWal/Torn.antt =====
-- What `Recover` makes of a log whose last record is cut off.
use sisyphus_db.Prelude.{ℕ, suc, ◌+◌, ◌-◌, ◌^◌, ◌<◌, ◌≡◌, refl, ap, ◌∙◌, arith}
use sisyphus_db.Prelude.{List, [], ◌∷◌, ◌++◌, length, take, length-append, length-take, All}
use sisyphus_db.Prelude.{
  take-append_ge, Bytes, le_bytes, uint32_round, read_full, read_full-append, err, unexpected_eof,
}
use sisyphus_db.Prelude.{eof, ReadError, ltb, ltb→lt, not_ltb→le, Bool-cases, inl, inr}
use sisyphus_db.StorageWal.{
  read_record, recover_loop, recover, open_wal, finish, fail, failed, read_error, header_size,
}
use sisyphus_db.StorageWal.{Wal, encode_record, encode_body, Entry}
use sisyphus_db.StorageWal.RoundTrip.{
  Call, FitsCall, call_size, encode_call, encode_calls, header_of, total_size,
}
use sisyphus_db.StorageWal.RoundTrip.{
  recover_loop-calls, length-encode_calls, length-calls, length-encode_call, entries_of_calls,
  end_lsn,
}

read_full-short :
    (n : ℕ) (bs : Bytes) → 0 < length bs → length bs < n → read_full n bs ≡ err unexpected_eof
unfolding read_full
read_full-short n bs h h' = ground arith

encode_call-split : (lsn : ℕ) (c : Call) → encode_call lsn c ≡ header_of lsn c ++ (c.key ++ c.val)
unfolding encode_record encode_body le_bytes
encode_call-split lsn c = refl

length-header_of : (lsn : ℕ) (c : Call) → length (header_of lsn c) ≡ header_size
unfolding le_bytes
length-header_of lsn c = refl

read_full-none : (n : ℕ) (bs : Bytes) → length bs < n → (x : ReadError) × (read_full n bs ≡ err x)
unfolding read_full
read_full-none n [] h = (eof, ground arith)
read_full-none n (b ∷ bs) h = (unexpected_eof, read_full-short n (b ∷ bs) (omega arith) h)

-- Cut inside the header.
read_record-torn_header :
    (n lsn : ℕ) (c : Call)
    → 0 < n
    → n < header_size
    → read_record (take n (encode_call lsn c)) ≡ fail (read_error unexpected_eof) []
unfolding read_record
read_record-torn_header n lsn c hn hs =
    let size = length-encode_call lsn c in
    rw (
      read_full-short 29 (take n (encode_call lsn c))
          (omega (arith, length-take n (encode_call lsn c)))
          (omega (arith, length-take n (encode_call lsn c))),
      read_record,
    )

-- Cut behind the header.
read_record-torn_body :
    (n lsn : ℕ) (c : Call)
    → FitsCall c
    → n < length c.key + length c.val
    → read_record (take (header_size + n) (encode_call lsn c)) ≡ fail (read_error unexpected_eof) []
unfolding read_record le_bytes
read_record-torn_body n lsn c h hs =
    let body = c.key ++ c.val in
    let short =
      read_full-none (length c.val + length c.key) (take n body)
        (omega (arith, length-take n body, length-append c.key c.val)) in
    rw (
      encode_call-split lsn c,
      take-append_ge header_size n (header_size + n) (header_of lsn c) body refl refl,
      read_full-append 29 (header_of lsn c) (take n body) refl,
      uint32_round (length c.key) h.2,
      uint32_round (length c.val) h.3,
      short.1,
      read_record,
    )

read_record-torn :
    (n lsn : ℕ) (c : Call)
    → FitsCall c
    → 0 < n
    → n < call_size c
    → read_record (take n (encode_call lsn c)) ≡ fail (read_error unexpected_eof) []
read_record-torn n lsn c h hn hs = elim (Bool-cases (ltb n header_size)) [
  | inl small ↦ read_record-torn_header n lsn c hn (ltb→lt n header_size small)
  | inr big ↦
      let long = not_ltb→le n header_size big in
      ap (λ k. read_record (take k (encode_call lsn c))) (omega arith)
      ∙ read_record-torn_body (n - header_size) lsn c h (omega arith)
]

recover_loop-fail :
    (fuel lsn : ℕ) (es : List Entry) (bs : Bytes)
    → read_record bs ≡ fail (read_error unexpected_eof) []
    → recover_loop (suc fuel) bs es lsn ≡ failed (read_error unexpected_eof) lsn []
unfolding recover_loop
recover_loop-fail fuel lsn es bs e = rw (e, recover_loop)

finish-eof :
    (w : Wal) (lsn : ℕ)
    → finish w (failed (read_error unexpected_eof) lsn []) ≡ (
      failed (read_error unexpected_eof) lsn [],
      record w { position = length w.file; current_lsn = lsn },
    )
unfolding finish
finish-eof w lsn =
    ap
      (λ p.
        (failed (read_error unexpected_eof) lsn [], record w { position = p; current_lsn = lsn }))
      (omega arith)

-- A crash inside a `Write` to a log that was written from empty leaves the first `n` bytes of the last
-- record behind the whole ones, with 0 < `n` < the size of the record. `Recover` then returns an error
-- in place of the entries, with the descriptor at the end of the file. The conditions are that keys and
-- values are below 4 GB and the log below 2^64 bytes.
pub recover-torn :
    (cs : List Call) (c : Call) (n : ℕ)
    → All FitsCall cs
    → FitsCall c
    → total_size cs < 2 ^ 64
    → 0 < n
    → n < call_size c
    → let file = encode_calls 0 cs ++ take n (encode_call (total_size cs) c) in
      (lsn : ℕ) × (recover (open_wal file) ≡ (
        failed (read_error unexpected_eof) lsn [],
        record { file = file; position = length file; current_lsn = lsn },
      ))
unfolding recover finish open_wal
recover-torn cs c n h hc hl hn hs =
    let bs = encode_calls 0 cs in
    let tail = take n (encode_call (total_size cs) c) in
    let k = length (bs ++ tail) in
    let fuel : k + 1 ≡ length cs + suc (k - length cs) =
      omega (arith, length-calls cs, length-encode_calls cs 0, length-append bs tail) in
    let loop : recover_loop (k + 1) (bs ++ tail) [] k
        ≡ failed (read_error unexpected_eof) (end_lsn k 0 cs) [] =
      ap (λ f. recover_loop f (bs ++ tail) [] k) fuel
      ∙ recover_loop-calls cs (suc (k - length cs)) k 0 tail [] h (omega arith)
      ∙ recover_loop-fail (k - length cs) (end_lsn k 0 cs) (entries_of_calls 0 cs) tail
          (read_record-torn n (total_size cs) c hc hn hs) in
    (
      end_lsn k 0 cs,
      ap (finish (open_wal (bs ++ tail))) loop
          ∙ finish-eof (open_wal (bs ++ tail)) (end_lsn k 0 cs),
    )
