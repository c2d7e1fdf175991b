-- ===== src/Server/Works.antt =====
-- The operations of open connections, whose close callback is `TcpServer::removeConnection`, keep the
-- invariant of the server of net/TcpServer.cpp.
use tiny_network_library.Base.{
  ℕ, ◌<◌, ◌≡◌, refl, ap, sym, subst, ◌∙◌, arith, true, false, some, List, [], ◌∷◌, Bytes, ◌==◌,
}
use tiny_network_library.Connection.{Connection, Outcome, call_connection, call_close, disconnected}
use tiny_network_library.Connection.Lifecycle.{Operation, perform}
use tiny_network_library.Server.{
  listens, destroys, Kind, establishes, removes, Task, Object, System, object_at, act_on, act,
}
use tiny_network_library.Server.Accepting.{
  conn_name, remove_connection, is_open, works_on, is_event,
}
use tiny_network_library.Server.Objects.{
  count, matches, one_if, object_at-update_same, object_at-update_other,
}
use tiny_network_library.Server.Stages.{
  Stage, created, serving, leaving, erased, gone, due, Fits, At, absent, present, Inv, fits_state,
  lifecycle, called-act_on,
}
use tiny_network_library.Server.Outcomes.{stays, shuts_down, perform-Outcomes}
use tiny_network_library.Server.Serves.{Same, only_at, count_other, run_in_loop-Inv}

some_injective : {x y : Object} → some x ≡ some y → x ≡ y
some_injective e = cc

-- An open connection is in the stage of serving.
serving_of :
    (g : Stage) {ts : List Task} {m : List (Bytes × ℕ)} {i : ℕ} {o : Object}
    → is_open o.connection.state ≡ true
    → Fits ts m i o g
    → Fits ts m i o serving
serving_of serving h f = f
serving_of created h f = absurd (ground (arith, f.state, h))
serving_of leaving h f = absurd (ground (arith, f.state, h))
serving_of erased h f = absurd (ground (arith, f.state, h))
serving_of gone h f = absurd (ground (arith, f.state, h))

acted-Same :
    (i : ℕ) (f : Connection → Outcome) (ts : List Task) (s : System) (j : ℕ)
    → (j == i) ≡ false
    → ((k : Kind) → count k j ts ≡ count k j s.tasks)
    → Same s (record (act i f s) { tasks = ts }) j
unfolding act
acted-Same i f ts s j other e = record {
  object = object_at-update_other i j (act_on f) s.objects other;
  tasks = e;
  table = λ l. refl;
  naming = refl;
  next = omega arith;
}

-- An operation of a connection that stays open.
stays-Fits :
    {ts : List Task} {m : List (Bytes × ℕ)} {i : ℕ} {o : Object} (f : Connection → Outcome)
    → is_open (f o.connection).0.state ≡ true
    → lifecycle (f o.connection).1 ≡ []
    → Fits ts m i o serving
    → Fits ts m i (act_on f o) serving
unfolding act_on
stays-Fits {o = o} f h k u = record {
  state = h;
  waits = u.waits;
  table = u.table;
  called = called-act_on f o _ _ u.called k;
}

shuts_down-Fits :
    {ts : List Task} {m : List (Bytes × ℕ)} {i : ℕ} {o : Object} (l : ℕ) (f : Connection → Outcome)
    → (f o.connection).0.state ≡ disconnected
    → lifecycle (f o.connection).1 ≡ call_connection ∷ call_close ∷ []
    → Fits ts m i o serving
    → Fits (record { loop = l; kind = removes; conn = i } ∷ ts) m i (act_on f o) leaving
unfolding act_on
shuts_down-Fits {i = i} {o = o} l f h k u = record {
  state = ap (fits_state leaving) h;
  waits = λ n. omega (arith, u.waits n, one_due n);
  table = u.table;
  called = called-act_on f o _ _ u.called k;
}
  where
    one_due :
        (n : Kind)
        → one_if (matches n i (record { loop = l; kind = removes; conn = i })) ≡ due leaving n
    one_due listens = refl
    one_due establishes = refl
    one_due removes = ground arith
    one_due destroys = refl

-- The stage of an object that is there.
pub stage_of :
    {s : System} {i : ℕ} {o : Object}
    → At s i
    → object_at i s.objects ≡ some o
    → (g : Stage) × (i < s.next_conn_id)
      × (o.name ≡ conn_name s.name s.ip_port i)
      × Fits s.tasks s.connections i o g
stage_of (absent e w) h = absurd cc
stage_of {s} {i} {o} (present o' g e l n f) h =
    subst
      (λ p.
        (g' : Stage) × (i < s.next_conn_id)
        × (p.name ≡ conn_name s.name s.ip_port i)
        × Fits s.tasks s.connections i p g')
      (some_injective (sym e ∙ h)) (g, l, n, f)

pub works_on-Inv :
    (i : ℕ) (op : Operation) (o : Object) (s : System)
    → Inv s
    → object_at i s.objects ≡ some o
    → is_open o.connection.state ≡ true
    → is_event op ≡ true
    → Inv (works_on i op o s)
unfolding works_on remove_connection
works_on-Inv i op o s v e h k =
    let (g, l, n, f) = stage_of (v.at i) e in
    let u = serving_of g h f in
    let there = object_at-update_same i (act_on (perform op)) s.objects e in
    elim (perform-Outcomes op o.connection h k) [
      | stays up quiet calm ↦ rw quiet (
          only_at i v v.address v.below
            (λ j other. acted-Same i (perform op) s.tasks s j other λ k. refl)
            (present _ serving there l n (stays-Fits (perform op) up calm u)))
      | shuts_down down told ended ↦
          let t : Task = record { loop = s.pool.base_loop; kind = removes; conn = i } in
          rw told (
            run_in_loop-Inv o.loop t (act i (perform op) s) (
              only_at i v v.address v.below
                (λ j other.
                  acted-Same i (perform op) (t ∷ s.tasks) s j other
                    λ k. count_other k j t s.tasks other)
                (present _ leaving there l n (shuts_down-Fits t.loop (perform op) down ended u))))
    ]
