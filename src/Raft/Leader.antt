-- ===== src/Raft/Leader.antt =====
-- raft/appendEntries.go: `sendHeartBeats` of a leader, for one peer: the call that it makes, and what
-- it does with the reply. Between the two the mutex is free.
pub mod Commit
pub mod Replication
pub mod Backtrack
use sisyphus_db.Prelude.{
  ℕ, zero, suc, ◌+◌, ◌-◌, ◌/◌, ◌≡◌, ℤ, pos, minus_one, ◌==ℤ◌, Bool, true, false, not,
}
use sisyphus_db.Prelude.{List, [], ◌∷◌, length, take, drop, get_elem?, Option, none, some, ltb, leb}
use sisyphus_db.Prelude.{◌==◌, ◌&&◌, if◌then◌else◌}
use sisyphus_db.Raft.Node.{LogEntry, Raft, State, follower, is_leader, update}
use sisyphus_db.Raft.AppendEntries.{AppendEntriesArgs, AppendEntriesReply}

-- "Prevent OOM by sending max 100 entries at a time"
abbrev pub max_batch : ℕ
max_batch = 100

unfoldable pub batch : List LogEntry → ℕ → List LogEntry
batch log next =
    if ltb next (length log)
    then (let end = if ltb (length log) (next + max_batch) then length log else next + max_batch in
        take (end - next) (drop next log))
    else []

-- `PrevLogTerm`, which stays 0 behind the end of the log.
unfoldable pub term_at : List LogEntry → ℕ → ℕ
term_at log i = elim (get_elem? log i) [ none ↦ 0 | some e ↦ e.term ]

-- The call to `server`; `term` was read in an earlier step. `nextIndex - 1` is 0 for a missing key.
unfoldable pub heartbeat_args : ℕ → ℕ → Raft → Option AppendEntriesArgs
heartbeat_args term server rf =
    if is_leader rf.state
    then some (record {
      term = term;
      leader_id = pos rf.me;
      prev_log_index = rf.next_index server - 1;
      prev_log_term = term_at rf.log (rf.next_index server - 1);
      entries = batch rf.log (rf.next_index server);
      leader_commit = rf.commit_index;
    })
    else none

-- `count`: this node and the other peers, of those below `n`, that hold the entry `index`.
unfoldable pub replicas : ℕ → (ℕ → ℕ) → ℕ → ℕ → ℕ
replicas me match_index index zero = 1
replicas me match_index index (suc peer) =
    let rest = replicas me match_index index peer in
    if not (peer == me) && leb index (match_index peer) then suc rest else rest

-- `rf.log[N].Term == rf.currentTerm`; the loop stays inside the log.
unfoldable pub of_term : List LogEntry → ℕ → ℕ → Bool
of_term log i t = elim (get_elem? log i) [ none ↦ false | some e ↦ e.term == t ]

unfoldable pub can_commit : Raft → ℕ → Bool
can_commit rf n =
    ltb (rf.peers / 2) (replicas rf.me rf.match_index n rf.peers)
    && of_term rf.log n rf.current_term

-- "Check if we can commit": the loop from `N` down to the commit index.
unfoldable pub commit_loop : ℕ → Raft → Raft
commit_loop zero rf = rf
commit_loop (suc n) rf =
    let rest = commit_loop n rf in
    if leb (suc n) rf.commit_index
    then rf
    else if can_commit rf (suc n)
    then record rf { commit_index = suc n; commit_signal = true }
    else rest

unfoldable pub advance_match : ℕ → AppendEntriesArgs → Raft → Raft
advance_match server args rf =
    let new_match = args.prev_log_index + length args.entries in
    if ltb (rf.match_index server) new_match
    then record rf {
      match_index = update rf.match_index server new_match;
      next_index = update rf.next_index server (new_match + 1);
    }
    else rf

-- The search for `ConflictTerm`, from the last of `n` positions down.
unfoldable pub last_of_term : List LogEntry → ℤ → ℕ → Option ℕ
last_of_term log t zero = none
last_of_term log t (suc i) =
    let rest = last_of_term log t i in
    elim (get_elem? log i) [ none ↦ rest | some e ↦ if pos e.term ==ℤ t then some i else rest ]

-- "SMART BACKTRACKING", with its sanity check.
unfoldable pub backtrack : List LogEntry → AppendEntriesReply → ℕ
backtrack log reply =
    let next =
      if reply.conflict_term ==ℤ minus_one
      then reply.conflict_index
      else elim (last_of_term log reply.conflict_term (length log)) [
        | some i ↦ i + 1
        | none ↦ reply.conflict_index
      ] in
    if ltb next 1 then 1 else next

-- What the leader does with a reply. The step down is not written to the WAL here.
unfoldable pub handle_reply : ℕ → AppendEntriesArgs → AppendEntriesReply → Raft → Raft
handle_reply server args reply rf =
    if ltb rf.current_term reply.term
    then record rf {
      current_term = reply.term;
      state = follower;
      voted_for = minus_one;
      leader_id = minus_one;
    }
    else if reply.success
    then (let rf' = advance_match server args rf in commit_loop (length rf'.log - 1) rf')
    else record rf { next_index = update rf.next_index server (backtrack rf.log reply) }
