-- ===== src/Store/Memory.antt =====
-- The tables in memory as a map from keys to what is known of them.
use sisyphus_db.Prelude.{
  ℕ, ◌^◌, ◌≤◌, ◌<◌, ◌≡◌, refl, sym, ap, ◌∙◌, arith, Bool, true, false, Option, none, some, length,
  List, [], ◌∷◌, ◌==◌,
}
use sisyphus_db.Prelude.{
  Bytes, bytes_eq, bytes_eq-eq, Bool-cases, Option-cases, inl, inr, ok, Outcome, if◌then◌else◌, All,
}
use sisyphus_db.Raft.Node.{LogEntry}
use sisyphus_db.Arena.{ArenaError}
use sisyphus_db.StorageWal.{cmd_put, cmd_delete}
use sisyphus_db.Store.{
  Store, StoreError, RaftCmd, get_memory, apply_internal, apply_cmd, notify, read_applied,
  read_applied_logs, map_limit, write_stall, is_waiting, forget, OpResult,
}
use sisyphus_db.Prelude.{Found}
use sisyphus_db.Store.Lookup.{IsTable, size_of, found_of}
use sisyphus_db.Store.Apply.{Applied, apply_internal_cases}

-- The abstract state.
abbrev pub Memory : Type 0
Memory = Bytes → Outcome ArenaError Found

abbrev pub set : Bytes → Found → Memory → Memory
set key found m k = if bytes_eq key k then ok found else m k

-- An assignment that is refused changes nothing.
abbrev pub unless : Option StoreError → Bytes → Found → Memory → Memory
unless none key found m = set key found m
unless (some e) key found m = m

-- What a command with the given result means: a put, a delete, or nothing.
unfoldable pub effect : Option StoreError → RaftCmd → Memory → Memory
effect error cmd m k =
    if cmd.op == cmd_put
    then unless error cmd.key (found_of cmd.value false) m k
    else if cmd.op == cmd_delete
    then unless error cmd.key (found_of [] true) m k
    else m k

-- A key below 64 KB, and an entry that fits an empty table.
abbrev pub FitsCmd : RaftCmd → Type 0
FitsCmd cmd = (length cmd.key < 2 ^ 16) × (size_of cmd.key cmd.value ≤ map_limit)

-- A step with its result, from a memory to the next.
pub record Step (m : Memory) (s' : Store) : Type 0 where
  pub memory : (k : Bytes) → get_memory s' k ≡ m k
  pub table : IsTable s'.active

set_at :
    (key k : Bytes) (val : Bytes) (is_delete : Bool) (s s' : Store)
    → Applied key val is_delete s s'
    → get_memory s' k ≡ set key (found_of val is_delete) (get_memory s) k
set_at key k val is_delete s s' done = elim (Bool-cases (bytes_eq key k)) [
  | inl same ↦ rw same (ap (get_memory s') (sym (bytes_eq-eq key k same)) ∙ done.reads)
  | inr other ↦ rw other (done.keeps k other)
]

internal-Step :
    (key val : Bytes) (is_delete : Bool) (s : Store)
    → IsTable s.active
    → length key < 2 ^ 16
    → size_of key val ≤ map_limit
    → (error : Option StoreError) × (s' : Store) × (apply_internal key val is_delete s
        ≡ (error, s'))
      × Step (unless error key (found_of val is_delete) (get_memory s)) s'
internal-Step key val is_delete s h short fits =
    elim (apply_internal_cases key val is_delete s h short fits) [
      | inl (stalled, e) ↦ (some write_stall, s, e, record { memory = λ k. refl; table = h })
      | inr (s', e, done) ↦ (
        none,
        s',
        e,
        record { memory = λ k. set_at key k val is_delete s s' done; table = done.table },
      )
    ]

cmd-Step :
    (cmd : RaftCmd) (s : Store)
    → IsTable s.active
    → FitsCmd cmd
    → (error : Option StoreError) × (s' : Store) × (apply_cmd cmd s ≡ (error, s'))
      × Step (effect error cmd (get_memory s)) s'
unfolding apply_cmd effect
cmd-Step cmd s h fits = elim (Bool-cases (cmd.op == cmd_put)) [
  | inl is_put ↦
      let (error, s', e, step) = internal-Step cmd.key cmd.value false s h fits.0 fits.1 in
      (
        error,
        s',
        simp is_put e,
        record { memory = λ k. simp is_put (step.memory k); table = step.table },
      )
  | inr no_put ↦ elim (Bool-cases (cmd.op == cmd_delete)) [
    | inl is_del ↦
        let (error, s', e, step) =
          internal-Step cmd.key [] true s h fits.0 (omega (arith, fits.1)) in
        (
          error,
          s',
          simp (no_put, is_del) e,
          record { memory = λ k. simp (no_put, is_del) (step.memory k); table = step.table },
        )
    | inr no_del ↦ (
      none,
      s,
      simp (no_put, no_del) refl,
      record { memory = λ k. simp (no_put, no_del) refl; table = h },
    )
  ]
]

-- Only the waiting clients change.
notify-waiting :
    (index : ℕ) (cmd : RaftCmd) (error : Option StoreError) (s : Store)
    → (w : List ℕ) × (result : Option OpResult) × (notify index cmd error s
        ≡ (result, record s { waiting = w }))
unfolding notify
notify-waiting index cmd error s = elim (Bool-cases (is_waiting index s.waiting)) [
  | inl e ↦
      (forget index s.waiting, some (record { value = cmd.value; error = error }), simp e refl)
  | inr e ↦ (s.waiting, none, simp e refl)
]

waiting_memory :
    (w : List ℕ) (s : Store) (k : Bytes) → get_memory (record s { waiting = w }) k ≡ get_memory s k
unfolding get_memory
waiting_memory w s k = refl

effect_cong :
    (error : Option StoreError) (cmd : RaftCmd) (m n : Memory)
    → ((k : Bytes) → m k ≡ n k)
    → (k : Bytes) → effect error cmd m k ≡ effect error cmd n k
unfolding effect
effect_cong none cmd m n h k = ground (arith, h k)
effect_cong (some e) cmd m n h k = ground (arith, h k)

module _ (unmarshal : Bytes → Option RaftCmd) where
  abbrev pub FitsMsg : LogEntry → Type 0
  FitsMsg msg = (cmd : RaftCmd) → unmarshal msg.command ≡ some cmd → FitsCmd cmd

  -- A message that is no command changes nothing.
  abbrev pub msg_effect : Option RaftCmd → Store → Memory → Memory
  msg_effect none s m = m
  msg_effect (some cmd) s m = effect (apply_cmd cmd s).0 cmd m

  -- The effects of the messages, one after the other, each with the result that its command has.
  abbrev pub effects : List LogEntry → Store → Memory → Memory
  effects [] s m = m
  effects (msg ∷ msgs) s m =
      effects msgs (read_applied unmarshal msg s).1 (msg_effect (unmarshal msg.command) s m)

  read_applied-none :
      (msg : LogEntry) (s : Store)
      → unmarshal msg.command ≡ none
      → read_applied unmarshal msg s ≡ (none, s)
  unfolding read_applied
  read_applied-none msg s e = rw (e, read_applied) refl

  read_applied-some :
      (msg : LogEntry) (s : Store) (cmd : RaftCmd)
      → unmarshal msg.command ≡ some cmd
      → read_applied unmarshal msg s ≡ notify msg.index cmd (apply_cmd cmd s).0 (apply_cmd cmd s).1
  unfolding read_applied
  read_applied-some msg s cmd e = rw (e, read_applied) refl

  msg-Step :
      (msg : LogEntry) (s : Store) (m : Memory)
      → IsTable s.active
      → FitsMsg msg
      → ((k : Bytes) → get_memory s k ≡ m k)
      → Step (msg_effect (unmarshal msg.command) s m) (read_applied unmarshal msg s).1
  msg-Step msg s m h fits same = elim (Option-cases (unmarshal msg.command)) [
    | inl e ↦ rw (read_applied-none msg s e, e) (record { memory = same; table = h })
    | inr (cmd, e) ↦
        let (error, s', e', step) = cmd-Step cmd s h (fits cmd e) in
        let (w, result, e'') = notify-waiting msg.index cmd error s' in
        rw (read_applied-some msg s cmd e, e, e', e'')
          (record {
            memory = λ k.
                waiting_memory w s' k
                ∙ step.memory k
                ∙ effect_cong error cmd (get_memory s) m same k;
            table = step.table;
          })
  ]

  -- The messages that Raft delivers act on the tables in memory as their commands act on an abstract
  -- map, one after the other: a put that succeeds sets its key, a delete that succeeds marks it, and a
  -- command that is refused, or that JSON does not decode, changes no key. The conditions are a valid
  -- active table, keys below 64 KB, and entries that fit an empty table.
  pub read_applied_logs-effects :
      (msgs : List LogEntry) (s : Store) (m : Memory)
      → IsTable s.active
      → All FitsMsg msgs
      → ((k : Bytes) → get_memory s k ≡ m k)
      → Step (effects msgs s m) (read_applied_logs unmarshal msgs s)
  unfolding read_applied_logs
  read_applied_logs-effects [] s m h fits same = record { memory = same; table = h }
  read_applied_logs-effects (msg ∷ msgs) s m h fits same =
      let step = msg-Step msg s m h fits.0 same in
      read_applied_logs-effects msgs (read_applied unmarshal msg s).1
        (msg_effect (unmarshal msg.command) s m) step.table fits.1 step.memory
