-- ===== src/Server/Life.antt =====
-- Whole runs of the server of net/TcpServer.cpp and its connections.
use tiny_network_library.Base.{
  ℕ, ◌+◌, ◌≤◌, ◌<◌, ◌≡◌, refl, ap, sym, subst, ◌∙◌, arith, true, none, some, List, [], ◌∷◌, ◌++◌,
  length, Bytes, inl, inr, ◌⊎◌,
}
use tiny_network_library.LoopPool.{LoopPool, get_next_loop}
use tiny_network_library.LoopPool
use tiny_network_library.LoopPool.Range.{InRange}
use tiny_network_library.Connection.{
  call_connection, call_close, Effect, disconnected, connecting, connected, disconnecting,
  ConnState, remove_channel, is_disconnected,
}
use tiny_network_library.Server.{
  listens, destroys, Kind, listens, establishes, removes, Task, Object, System, object_at,
  find_name,
}
use tiny_network_library.Server.Accepting.{is_open, Move, run}
use tiny_network_library.Server.Objects.{count}
use tiny_network_library.Server.Stages.{
  Stage, created, serving, leaving, erased, gone, Fits, absent, Inv, fits_state, lifecycle, calls,
}
use tiny_network_library.Server.Counters.{run_in_loop-Counts}
use tiny_network_library.Server.Works.{stage_of}
use tiny_network_library.Server.Serves.{with_task, run_in_loop-Inv}
use tiny_network_library.Server.Steps.{step_total}
use tiny_network_library.Server.{new, destroys, set_thread_num}
use tiny_network_library.Server.Accepting.{start}
use tiny_network_library.LoopPool.{all_loops_of}

-- The arguments of the constructor, of `setThreadNum` and of `start`.
pub record Setup : Type 0 where
  pub base_loop : ℕ
  pub listen_fd : ℕ
  pub ip_port : Bytes
  pub name : Bytes
  pub threads : ℕ
  pub make : ℕ → ℕ
  pub here : ℕ

-- A server whose `start` was called once.
abbrev pub started_server : Setup → System
started_server u =
    start u.make u.here (set_thread_num u.threads (new u.base_loop u.listen_fd u.ip_port u.name))

run_total :
    (ms : List Move) (s : System)
    → Inv s
    → InRange s.pool
    → s.next_conn_id + length ms < 2147483648
    → (s' : System) × (run ms s ≡ some s') × Inv s'
unfolding run
run_total [] s v r h = (s, refl, v)
run_total (m ∷ ms) s v r h =
    let (s1, e, v1, r1, n) = step_total m s v r (omega arith) in
    rw (e, run) (run_total ms s1 v1 r1 (omega (arith, n)))

some_loop : (ls : List ℕ) (base : ℕ) → 0 < length (all_loops_of ls base)
unfolding all_loops_of
some_loop [] base = omega arith
some_loop (x ∷ xs) base = omega arith

-- Only `listen` may wait when the server has started.
first_task :
    (l j : ℕ) (k : Kind)
    → 1 ≤ j
    → count k j (record { loop = l; kind = listens; conn = 0 } ∷ []) ≡ 0
first_task l j k h = ground arith

pub started-Inv :
    (u : Setup)
    → length u.ip_port ≤ 51
    → Inv (started_server u)
      × InRange (started_server u).pool
      × ((started_server u).next_conn_id ≡ 1)
unfolding start new set_thread_num LoopPool.new LoopPool.set_thread_num LoopPool.start
started-Inv u short =
    let t : Task = record { loop = u.base_loop; kind = listens; conn = 0 } in
    let s0 : System = record (new u.base_loop u.listen_fd u.ip_port u.name) {
      pool = LoopPool.start u.make (LoopPool.set_thread_num u.threads (LoopPool.new u.base_loop));
      started = 1;
    } in
    let v : Inv (with_task t s0) = record {
      address = short;
      below = omega arith;
      at = λ j. absent refl λ h k. first_task u.base_loop j k h;
    } in
    let c = run_in_loop-Counts u.here t s0 in
    (run_in_loop-Inv u.here t s0 v, rw c.0 (some_loop s0.pool.loops u.base_loop), c.1)

-- A started server goes on whatever happens: below 2 ^ 31 - 2 steps, in any order of accepted
-- connections, functors and events, each step has a result. The address has at most 51 bytes.
pub run-some :
    (u : Setup) (ms : List Move)
    → length u.ip_port ≤ 51
    → length ms < 2147483647
    → (s' : System) × (run ms (started_server u) ≡ some s')
run-some u ms short h =
    let (v, r, n) = started-Inv u short in
    let (s', e, _) = run_total ms (started_server u) v r (omega (arith, n, h)) in (s', e)

same_result : {x y : System} → some x ≡ some y → x ≡ y
same_result e = cc

reached-Inv :
    (u : Setup) (ms : List Move) {s : System}
    → length u.ip_port ≤ 51
    → length ms < 2147483647
    → run ms (started_server u) ≡ some s
    → Inv s
reached-Inv u ms short h e =
    let (v, r, n) = started-Inv u short in
    let (s', e', v') = run_total ms (started_server u) v r (omega (arith, n, h)) in
    subst (λ x. Inv x) (same_result (sym e' ∙ e)) v'

-- The whole life of a connection.
abbrev pub whole_life : List Effect
whole_life = call_connection ∷ call_connection ∷ call_close ∷ remove_channel ∷ []

lived : (g : Stage) → (rest : List Effect) × (calls g ++ rest ≡ whole_life)
lived created = (whole_life, refl)
lived serving = (call_connection ∷ call_close ∷ remove_channel ∷ [], refl)
lived leaving = (remove_channel ∷ [], refl)
lived erased = (remove_channel ∷ [], refl)
lived gone = ([], refl)

-- However the accepts, the functors of the loops and the operations of open connections follow each
-- other, in each connection of a server the calls that begin and end it are a beginning of these four:
-- the user's callback when it is up, the same when it is down, the server's close callback, and the
-- removal of the channel. None is made twice or out of order. The address has at most 51 bytes, and
-- fewer than 2 ^ 31 - 1 steps were made.
pub run-lifecycle :
    (u : Setup) (ms : List Move) (s : System) (i : ℕ) (o : Object)
    → length u.ip_port ≤ 51
    → length ms < 2147483647
    → run ms (started_server u) ≡ some s
    → object_at i s.objects ≡ some o
    → (rest : List Effect) × (lifecycle o.effects ++ rest ≡ whole_life)
run-lifecycle u ms s i o short h e there =
    let (g, _, _, f) = stage_of ((reached-Inv u ms short h e).at i) there in
    subst (λ es. (rest : List Effect) × (es ++ rest ≡ whole_life)) (sym f.called) (lived g)

down_state : (x : ConnState) → fits_state gone x ≡ true → is_disconnected x ≡ true
down_state disconnected h = refl
down_state connecting h = h
down_state connected h = h
down_state disconnecting h = h

-- When no functor waits, a connection is open and in the table under its name, or it is down, no
-- longer in the table, and its whole life is over: none is lost on the way. The conditions are those
-- of `run-lifecycle`.
pub run-idle :
    (u : Setup) (ms : List Move) (s : System) (i : ℕ) (o : Object)
    → length u.ip_port ≤ 51
    → length ms < 2147483647
    → run ms (started_server u) ≡ some s
    → s.tasks ≡ []
    → object_at i s.objects ≡ some o
    → ((is_open o.connection.state ≡ true) × (find_name o.name s.connections ≡ some i))
      ⊎ ((is_disconnected o.connection.state ≡ true)
          × (find_name o.name s.connections ≡ none)
          × (lifecycle o.effects ≡ whole_life))
run-idle u ms s i o short h e idle there =
    let (g, _, _, f) = stage_of ((reached-Inv u ms short h e).at i) there in
    idle_stage g f λ k. ap (count k i) idle
  where
    idle_stage :
        (g : Stage)
        → Fits s.tasks s.connections i o g
        → ((k : Kind) → count k i s.tasks ≡ 0)
        → ((is_open o.connection.state ≡ true) × (find_name o.name s.connections ≡ some i))
          ⊎ ((is_disconnected o.connection.state ≡ true)
              × (find_name o.name s.connections ≡ none)
              × (lifecycle o.effects ≡ whole_life))
    idle_stage serving f none' = inl (f.state, f.table)
    idle_stage gone f none' = inr (down_state o.connection.state f.state, f.table, f.called)
    idle_stage created f none' = absurd (omega (arith, f.waits establishes, none' establishes))
    idle_stage leaving f none' = absurd (omega (arith, f.waits removes, none' removes))
    idle_stage erased f none' = absurd (omega (arith, f.waits destroys, none' destroys))
