-- ===== src/Store/Client.antt =====
-- A client's command on its way through Raft's log.
use sisyphus_db.Prelude.{
  ℕ, ◌≡◌, refl, ap, ◌∙◌, none, arith, Bool, true, false, Option, some, length, List, [], ◌∷◌, ◌++◌,
  Bytes, pos,
}
use sisyphus_db.Prelude.{if◌then◌else◌, ok, err, panic, ==_refl, Outcome}
use sisyphus_db.Raft.Node.{LogEntry, Raft, start, is_leader}
use sisyphus_db.Arena.{Arena, ArenaError, put}
use sisyphus_db.StorageWal.{cmd_put, cmd_delete}
use sisyphus_db.Store.{
  Store, StoreError, RaftCmd, propose, await, read_applied, notify, apply_cmd, apply_internal,
  store_entry, rotate_table, is_waiting, forget,
}

store_entry-waiting :
    (key val : Bytes) (d : Bool) (s : Store) (o : Outcome ArenaError (ℕ × Arena))
    → put s.active.arena key val d ≡ o
    → (store_entry key val d s).1.waiting ≡ s.waiting
unfolding store_entry
store_entry-waiting key val d s (ok x) e = rw (e, store_entry) refl
store_entry-waiting key val d s (err x) e = rw (e, store_entry) refl
store_entry-waiting key val d s panic e = rw (e, store_entry) refl

apply_internal-waiting :
    (key val : Bytes) (d : Bool) (s : Store) → (apply_internal key val d s).1.waiting ≡ s.waiting
unfolding apply_internal rotate_table
apply_internal-waiting key val d s = ground (
  arith,
  store_entry-waiting key val d s (put s.active.arena key val d) refl,
  store_entry-waiting key val d (rotate_table s) (put (rotate_table s).active.arena key val d) refl,
)

apply_cmd-waiting : (cmd : RaftCmd) (s : Store) → (apply_cmd cmd s).1.waiting ≡ s.waiting
unfolding apply_cmd
apply_cmd-waiting cmd s = ground (
  arith,
  apply_internal-waiting cmd.key cmd.value false s,
  apply_internal-waiting cmd.key [] true s,
)

notify-waiting_client :
    (index : ℕ) (cmd : RaftCmd) (error : Option StoreError) (s : Store) (is : List ℕ)
    → s.waiting ≡ index ∷ is
    → (notify index cmd error s).0 ≡ some (record { value = cmd.value; error = error })
unfolding notify is_waiting
notify-waiting_client index cmd error s is e = ground (arith, ==_refl index)

abbrev pub cmd_of : Bytes → Bytes → Bool → RaftCmd
cmd_of key val d = record { op = if d then cmd_delete else cmd_put; key = key; value = val }

-- What a leader adds to its log for a command.
abbrev pub new_entry : (RaftCmd → Bytes) → Bytes → Bytes → Bool → Raft → LogEntry
new_entry marshal key val d rf = record {
  index = length rf.log;
  term = rf.current_term;
  command = marshal (cmd_of key val d);
}

notify-nobody :
    (index : ℕ) (cmd : RaftCmd) (error : Option StoreError) (s : Store)
    → is_waiting index s.waiting ≡ false
    → (notify index cmd error s).0 ≡ none
unfolding notify
notify-nobody index cmd error s e = simp e refl

-- A command that is proposed to the leader stands at the end of its log. When its entry comes back from
-- Raft behind the registration of the client, the client gets the result of applying the command. When
-- it comes back before, the result goes to nobody, and is lost. The conditions are that JSON decodes the
-- command that it has encoded, and that nobody waited for the index before.
pub propose-result :
    (marshal : RaftCmd → Bytes) (unmarshal : Bytes → Option RaftCmd) (key val : Bytes) (d : Bool)
    (rf : Raft) (s : Store)
    → unmarshal (marshal (cmd_of key val d)) ≡ some (cmd_of key val d)
    → is_leader rf.state ≡ true
    → is_waiting (length rf.log) s.waiting ≡ false
    → (rf' : Raft) × (propose marshal key val d rf ≡ (some (pos (length rf.log)), rf'))
      × (rf'.log ≡ rf.log ++ (new_entry marshal key val d rf ∷ []))
      × ((read_applied unmarshal (new_entry marshal key val d rf) (await (pos (length rf.log)) s)).0
          ≡ some (record {
            value = val;
            error = (apply_cmd (cmd_of key val d) (await (pos (length rf.log)) s)).0;
          }))
      × ((read_applied unmarshal (new_entry marshal key val d rf) s).0 ≡ none)
unfolding propose start await read_applied
propose-result marshal unmarshal key val d rf s round lead nobody =
    let s' : Store = record s { waiting = length rf.log ∷ forget (length rf.log) s.waiting } in
    let cmd = cmd_of key val d in
    let entry = new_entry marshal key val d rf in
    (
      record rf { log = rf.log ++ (entry ∷ []); triggered = true },
      simp lead refl,
      refl,
      rw (round, read_applied)
          (notify-waiting_client (length rf.log) cmd (apply_cmd cmd s').0 (apply_cmd cmd s').1
            (forget (length rf.log) s.waiting) (apply_cmd-waiting cmd s')),
      rw (round, read_applied)
          (notify-nobody (length rf.log) cmd (apply_cmd cmd s).0 (apply_cmd cmd s).1
            (ap (is_waiting (length rf.log)) (apply_cmd-waiting cmd s) ∙ nobody)),
    )
