-- ===== src/StorageWal/RoundTrip.antt =====
-- What `Recover` reads back of a log that `Write` has filled.
use sisyphus_db.Prelude.{ℕ, suc, ◌+◌, ◌-◌, ◌%◌, ◌^◌, ◌<◌, ◌≤◌, ◌≡◌, refl, sym, ap, ap₂, ◌∙◌, arith}
use sisyphus_db.Prelude.{
  List, [], ◌∷◌, ◌++◌, length, take, append_assoc, append-nil, length-append, All,
}
use sisyphus_db.Prelude.{take-append, drop-append, drop-all, ==_refl, Bytes, le_bytes, le_value}
use sisyphus_db.Prelude.{uint32_round, uint64_round, read_full, read_full-append}
use sisyphus_db.StorageWal.Checksum.{checksum, checksum-lt}
use sisyphus_db.StorageWal.{
  Entry, Wal, done, got, open_wal, encode_body, encode_record, write, write_at,
}
use sisyphus_db.StorageWal.{read_record, recover_loop, recover, finish, header_size}

-- The arguments of a call of `Write`, with the time of the call.
pub record Call : Type 0 where
  pub now : ℕ
  pub key : Bytes
  pub val : Bytes
  pub cmd : ℕ

-- What fits the fields of a record.
abbrev pub FitsCall : Call → Type 0
FitsCall c = (c.now < 2 ^ 64) × (c.cmd < 256) × (length c.key < 2 ^ 32) × (length c.val < 2 ^ 32)

abbrev pub call_size : Call → ℕ
call_size c = header_size + length c.key + length c.val

abbrev pub encode_call : ℕ → Call → Bytes
encode_call lsn c = encode_record lsn c.now c.cmd c.key c.val

abbrev pub entry_of_call : ℕ → Call → Entry
entry_of_call lsn c = record {
  crc = checksum (encode_body lsn c.now c.cmd c.key c.val);
  lsn = lsn;
  timestamp = c.now;
  cmd = c.cmd;
  key = c.key;
  value = c.val;
}

-- The entries, and the bytes, of calls from a given LSN on.
abbrev pub entries_of_calls : ℕ → List Call → List Entry
entries_of_calls lsn [] = []
entries_of_calls lsn (c ∷ cs) = entry_of_call lsn c ∷ entries_of_calls (lsn + call_size c) cs

abbrev pub encode_calls : ℕ → List Call → Bytes
encode_calls lsn [] = []
encode_calls lsn (c ∷ cs) = encode_call lsn c ++ encode_calls (lsn + call_size c) cs

abbrev pub total_size : List Call → ℕ
total_size [] = 0
total_size (c ∷ cs) = call_size c + total_size cs

-- The calls one after the other.
abbrev pub write_calls : List Call → Wal → Wal
write_calls [] w = w
write_calls (c ∷ cs) w = write_calls cs (write c.now c.key c.val c.cmd w)

pub length-encode_call : (lsn : ℕ) (c : Call) → length (encode_call lsn c) ≡ call_size c
unfolding encode_record encode_body le_bytes
length-encode_call lsn c = omega (arith, length-append c.key c.val)

-- The 29 bytes in front of the key, with a given checksum.
abbrev pub header_of : ℕ → Call → Bytes
header_of lsn c =
    le_bytes 4 (checksum (encode_body lsn c.now c.cmd c.key c.val))
    ++ (le_bytes 8 lsn
        ++ (le_bytes 8 c.now
            ++ ((c.cmd % 256) ∷ (le_bytes 4 (length c.key) ++ le_bytes 4 (length c.val)))))

byte_round : (v : ℕ) → v < 256 → le_value ((v % 256) ∷ []) ≡ v
unfolding le_value
byte_round v h = omega arith

read_record-encode :
    (lsn : ℕ) (c : Call) (rest : Bytes)
    → lsn < 2 ^ 64
    → FitsCall c
    → read_record (encode_call lsn c ++ rest) ≡ got (entry_of_call lsn c) rest
unfolding read_record encode_record encode_body le_bytes
read_record-encode lsn c rest hl h =
    let body = encode_body lsn c.now c.cmd c.key c.val in
    rw (
      read_full-append 29 (header_of lsn c) ((c.key ++ c.val) ++ rest) refl,
      uint32_round (length c.key) h.2,
      uint32_round (length c.val) h.3,
      read_full-append (length c.val + length c.key) (c.key ++ c.val) rest
          (omega (arith, length-append c.key c.val)),
      uint32_round (length c.key) h.2,
      take-append (length c.key) c.key c.val refl,
      drop-append (length c.key) c.key c.val refl,
      uint32_round (checksum body) (checksum-lt body),
      uint64_round lsn hl,
      uint64_round c.now h.0,
      byte_round c.cmd h.1,
      ==_refl (checksum body),
      read_record,
    )

mod64 : (v : ℕ) → v < 2 ^ 64 → v % 2 ^ 64 ≡ v
mod64 v h = omega arith

suc_add : (m n : ℕ) → suc m + n ≡ suc (m + n)
suc_add m n = omega arith

-- `currentLSN` behind the records of calls from `lsn` on, when it was `current`.
abbrev pub end_lsn : ℕ → ℕ → List Call → ℕ
end_lsn current lsn [] = current
end_lsn current lsn (c ∷ cs) = lsn + total_size (c ∷ cs)

end_lsn-same : (lsn : ℕ) (cs : List Call) → end_lsn lsn lsn cs ≡ lsn + total_size cs
end_lsn-same lsn [] = omega arith
end_lsn-same lsn (c ∷ cs) = refl

-- The rounds that read the records of `cs`, in front of whatever follows.
pub recover_loop-calls :
    (cs : List Call) (fuel current lsn : ℕ) (tail : Bytes) (entries : List Entry)
    → All FitsCall cs
    → lsn + total_size cs < 2 ^ 64
    → recover_loop (length cs + fuel) (encode_calls lsn cs ++ tail) entries current
      ≡ recover_loop fuel tail (entries ++ entries_of_calls lsn cs) (end_lsn current lsn cs)
unfolding recover_loop
recover_loop-calls [] fuel current lsn tail entries h hl =
    ap₂ (λ n es. recover_loop n tail es current) (omega arith) (sym (append-nil entries))
recover_loop-calls (c ∷ cs) fuel current lsn tail entries h hl =
    let next = lsn + call_size c in
    rw
      (
        append_assoc (encode_call lsn c) (encode_calls next cs) tail,
        suc_add (length cs) fuel,
        read_record-encode lsn c (encode_calls next cs ++ tail) (omega arith) h.0,
        mod64 (lsn + header_size + length c.key + length c.val) (omega arith),
        recover_loop,
      )
      (ap
          (λ n.
            recover_loop (length cs + fuel) (encode_calls next cs ++ tail)
              (entries ++ (entry_of_call lsn c ∷ [])) n)
          (omega arith)
        ∙ recover_loop-calls cs fuel next next tail (entries ++ (entry_of_call lsn c ∷ [])) h.1
            (omega arith)
        ∙ ap₂ (recover_loop fuel tail)
            (append_assoc entries (entry_of_call lsn c ∷ []) (entries_of_calls next cs))
            (end_lsn-same next cs ∙ omega arith))

-- A log whose descriptor is at the end of the file.
abbrev pub whole : Bytes → Wal
whole file = record { file = file; position = length file; current_lsn = length file }

whole_of :
    {f g : Bytes} {p l : ℕ}
    → f ≡ g
    → p ≡ length g
    → l ≡ length g
    → (record { file = f; position = p; current_lsn = l }) ≡ whole g
whole_of a b c = cc

pub write-whole :
    (c : Call) (file : Bytes)
    → length file + call_size c < 2 ^ 64
    → write c.now c.key c.val c.cmd (whole file) ≡ whole (file ++ encode_call (length file) c)
unfolding write write_at
write-whole c file hl =
    let rec = encode_call (length file) c in
    let size : length (file ++ rec) ≡ length file + call_size c =
      length-append file rec ∙ ap (λ n. length file + n) (length-encode_call (length file) c) in
    whole_of
      (ap₂ (◌++◌)
        (sym (ap (take (length file)) (append-nil file)) ∙ take-append (length file) file [] refl)
        (ap (◌++◌ rec) (drop-all (length file + length rec) file (omega arith)) ∙ append-nil rec))
      (omega arith) (omega arith)

pub write_calls-whole :
    (cs : List Call) (file : Bytes)
    → length file + total_size cs < 2 ^ 64
    → write_calls cs (whole file) ≡ whole (file ++ encode_calls (length file) cs)
write_calls-whole [] file hl = ap whole (sym (append-nil file))
write_calls-whole (c ∷ cs) file hl =
    let rec = encode_call (length file) c in
    let size : length (file ++ rec) ≡ length file + call_size c =
      length-append file rec ∙ ap (λ n. length file + n) (length-encode_call (length file) c) in
    ap (write_calls cs) (write-whole c file (omega arith))
    ∙ write_calls-whole cs (file ++ rec) (omega arith)
    ∙ ap (λ n. whole ((file ++ rec) ++ encode_calls n cs)) size
    ∙ ap whole (append_assoc file rec (encode_calls (length file + call_size c) cs))

pub length-encode_calls : (cs : List Call) (lsn : ℕ) → length (encode_calls lsn cs) ≡ total_size cs
length-encode_calls [] lsn = refl
length-encode_calls (c ∷ cs) lsn = omega (
  arith,
  length-append (encode_call lsn c) (encode_calls (lsn + call_size c) cs),
  length-encode_call lsn c,
  length-encode_calls cs (lsn + call_size c),
)

pub length-calls : (cs : List Call) → length cs ≤ total_size cs
length-calls [] = omega arith
length-calls (c ∷ cs) = omega (arith, length-calls cs)

-- The file of writes to an empty log.
pub file_of_calls :
    (cs : List Call)
    → total_size cs < 2 ^ 64
    → write_calls cs (open_wal []) ≡ whole (encode_calls 0 cs)
unfolding open_wal
file_of_calls cs hl = write_calls-whole cs [] (omega arith)

recover_loop-end :
    (fuel lsn : ℕ) (es : List Entry) → recover_loop (suc fuel) [] es lsn ≡ done es lsn
unfolding recover_loop read_record read_full
recover_loop-end fuel lsn es = refl

pub end_lsn-file : (cs : List Call) → end_lsn (length (encode_calls 0 cs)) 0 cs ≡ total_size cs
end_lsn-file [] = refl
end_lsn-file (c ∷ cs) = omega arith

-- The fuel is enough for the file, with some left for what stands behind it.
pub recover_loop-file :
    (cs : List Call)
    → All FitsCall cs
    → total_size cs < 2 ^ 64
    → recover_loop
        (length (encode_calls 0 cs) + 1)
        (encode_calls 0 cs)
        []
        (length (encode_calls 0 cs))
      ≡ done (entries_of_calls 0 cs) (total_size cs)
recover_loop-file cs h hl =
    let bs = encode_calls 0 cs in
    let n = length bs in
    let size = length-encode_calls cs 0 in
    ap₂ (λ f b. recover_loop f b [] n) (omega (arith, length-calls cs)) (sym (append-nil bs))
    ∙ recover_loop-calls cs (suc (n - length cs)) n 0 [] [] h (omega arith)
    ∙ recover_loop-end (n - length cs) (end_lsn n 0 cs) (entries_of_calls 0 cs)
    ∙ ap (done (entries_of_calls 0 cs)) (end_lsn-file cs)

-- A log that was written from empty and is opened again after a crash: `Recover` returns the entries
-- of the writes in their order, and leaves the log as it was before the crash, so that the next write
-- goes behind the last one, with the next LSN. The conditions are that keys and values are below 4 GB
-- and the log below 2^64 bytes.
pub recover-write_calls :
    (cs : List Call)
    → All FitsCall cs
    → total_size cs < 2 ^ 64
    → recover (open_wal (write_calls cs (open_wal [])).file)
      ≡ (done (entries_of_calls 0 cs) (total_size cs), write_calls cs (open_wal []))
unfolding recover finish open_wal
recover-write_calls cs h hl =
    rw (file_of_calls cs hl, recover_loop-file cs h hl)
      (ap
        (λ n. (
          done (entries_of_calls 0 cs) (total_size cs),
          record (open_wal (encode_calls 0 cs)) {
            position = length (encode_calls 0 cs);
            current_lsn = n;
          },
        ))
        (sym (length-encode_calls cs 0)))
