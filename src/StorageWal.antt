-- ===== src/StorageWal.antt =====
-- pkg/wal/wal.go: the write-ahead log of the store. The file is the list of its bytes, with the
-- position of the descriptor. Writes succeed; the clock is an argument of `write`.
pub mod Checksum
pub mod RoundTrip
pub mod Torn
mod Examples
use sisyphus_db.Prelude.{
  ℕ, zero, suc, ◌+◌, ◌-◌, ◌%◌, ◌^◌, Bool, true, false, List, [], ◌∷◌, ◌++◌, length, take, drop,
}
use sisyphus_db.Prelude.{
  none, some, ltb, leb, ◌==◌, if◌then◌else◌, Bytes, le_bytes, le_value, read_full,
}
use sisyphus_db.Prelude.{Outcome, ok, err, panic, ReadError, eof, unexpected_eof}
use sisyphus_db.StorageWal.Checksum.{checksum}

abbrev pub cmd_put : ℕ
cmd_put = 1

abbrev pub cmd_delete : ℕ
cmd_delete = 2

abbrev pub header_size : ℕ
header_size = 29

pub record Entry : Type 0 where
  pub crc : ℕ
  pub lsn : ℕ
  pub timestamp : ℕ
  pub cmd : ℕ
  pub key : Bytes
  pub value : Bytes

pub record Wal : Type 0 where
  pub file : Bytes
  pub position : ℕ
  pub current_lsn : ℕ

-- `OpenWAL` on a file with the given contents; the position is the start.
unfoldable pub open_wal : Bytes → Wal
open_wal contents = record { file = contents; position = 0; current_lsn = length contents }

-- The buffer of `Write` behind the checksum.
unfoldable pub encode_body : ℕ → ℕ → ℕ → Bytes → Bytes → Bytes
encode_body lsn timestamp cmd key val =
    le_bytes 8 lsn
    ++ (le_bytes 8 timestamp
        ++ ((cmd % 256) ∷ (le_bytes 4 (length key) ++ (le_bytes 4 (length val) ++ (key ++ val)))))

unfoldable pub encode_record : ℕ → ℕ → ℕ → Bytes → Bytes → Bytes
encode_record lsn timestamp cmd key val =
    let body = encode_body lsn timestamp cmd key val in le_bytes 4 (checksum body) ++ body

-- A write at the position overwrites what stands there.
unfoldable pub write_at : Bytes → ℕ → Bytes → Bytes
write_at file position buf = take position file ++ (buf ++ drop (position + length buf) file)

unfoldable pub write : ℕ → Bytes → Bytes → ℕ → Wal → Wal
write now key val cmd w =
    let total_size = header_size + length key + length val in
    record {
      file = write_at w.file w.position (encode_record w.current_lsn now cmd key val);
      position = w.position + total_size;
      current_lsn = (w.current_lsn + total_size) % 2 ^ 64;
    }

pub data RecoverError : Type 0 where
  read_error : ReadError → RecoverError
  checksum_mismatch : ℕ → RecoverError

-- One round of `Recover`: the end of the file, an error or an entry, both with what is left.
pub data Round : Type 0 where
  at_end : Round
  fail : RecoverError → Bytes → Round
  got : Entry → Bytes → Round

abbrev verify : ℕ → Bytes → Entry → Bytes → Round
verify digest bytes e rest =
    if digest == e.crc then got e rest else fail (checksum_mismatch e.lsn) rest

unfoldable pub read_record : Bytes → Round
read_record bs = elim (read_full header_size bs) [
  | err eof ↦ at_end
  | err unexpected_eof ↦ fail (read_error unexpected_eof) []
  | panic ↦ at_end
  | ok (header, more) ↦
      let key_size = le_value (take 4 (drop 21 header)) in
      let val_size = le_value (take 4 (drop 25 header)) in
      elim (read_full (val_size + key_size) more) [
        | err x ↦ fail (read_error unexpected_eof) []
        | panic ↦ fail (read_error unexpected_eof) []
        | ok (body, rest) ↦
            verify (checksum (drop 4 header ++ body)) body
              (record {
                crc = le_value (take 4 header);
                lsn = le_value (take 8 (drop 4 header));
                timestamp = le_value (take 8 (drop 12 header));
                cmd = le_value (take 1 (drop 20 header));
                key = take key_size body;
                value = drop key_size body;
              })
              rest
      ]
]

-- The entries or the error, `currentLSN`, and behind an error what was not read. `stuck` is no value of the program: the fuel ran out.
pub data Recovered : Type 0 where
  done : List Entry → ℕ → Recovered
  failed : RecoverError → ℕ → Bytes → Recovered
  stuck : Recovered

-- The loop, on the entries so far and `currentLSN`.
unfoldable pub recover_loop : ℕ → Bytes → List Entry → ℕ → Recovered
recover_loop zero bs entries lsn = stuck
recover_loop (suc fuel) bs entries lsn = elim (read_record bs) [
  | at_end ↦ done entries lsn
  | fail e rest ↦ failed e lsn rest
  | got e rest ↦
      recover_loop fuel rest (entries ++ (e ∷ []))
        ((e.lsn + header_size + length e.key + length e.value) % 2 ^ 64)
]

-- `currentLSN` and the position that `Recover` leaves.
unfoldable pub finish : Wal → Recovered → Recovered × Wal
finish w (done es lsn) = (done es lsn, record w { position = length w.file; current_lsn = lsn })
finish w (failed e lsn rest) =
    (failed e lsn rest, record w { position = length w.file - length rest; current_lsn = lsn })
finish w stuck = (stuck, w)

-- Each round takes a byte at least, so the length of the file and one more is fuel enough.
unfoldable pub recover : Wal → Recovered × Wal
unfolding finish
recover w = finish w (recover_loop (length w.file + 1) w.file [] w.current_lsn)
