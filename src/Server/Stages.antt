-- ===== src/Server/Stages.antt =====
-- The stages in the life of a connection of net/TcpServer.cpp, and the invariant of the server.
use tiny_network_library.Base.{
  ℕ, ◌+◌, ◌≤◌, ◌<◌, ◌≡◌, refl, ap, sym, ◌∙◌, arith, Bool, true, false, none, some, List, [], ◌∷◌,
  ◌++◌, append_assoc, length, if◌then◌else◌,
}
use tiny_network_library.Connection.{
  Connection, ConnState, connected, disconnecting, connecting, disconnected, Effect,
  call_connection, call_close, remove_channel, Outcome, connect_established, connect_destroyed,
}
use tiny_network_library.Server.{
  Kind, listens, establishes, removes, destroys, Task, Object, System, object_at, find_name, act_on,
  ConnectionMap, erase_name,
}
use tiny_network_library.Server.Accepting.{conn_name, is_open}
use tiny_network_library.Server.Objects.{
  count, count-append, matches, one_if, same_kind, find_name-erase_same,
}

pub data Stage : Type 0 where
  created serving leaving erased gone : Stage

-- The functors that wait in a stage.
abbrev pub due : Stage → Kind → ℕ
due created establishes = 1
due leaving removes = 1
due erased destroys = 1
due _ _ = 0

abbrev pub tabled : Stage → Bool
tabled created = true
tabled serving = true
tabled leaving = true
tabled erased = false
tabled gone = false

abbrev pub fits_state : Stage → ConnState → Bool
fits_state created connecting = true
fits_state created _ = false
fits_state serving x = is_open x
fits_state _ disconnected = true
fits_state _ _ = false

-- The calls that begin and end a connection: the user's and the server's callbacks, and the removal
-- of the channel.
abbrev pub life_of : Effect → List Effect
life_of call_connection = call_connection ∷ []
life_of call_close = call_close ∷ []
life_of remove_channel = remove_channel ∷ []
life_of _ = []

abbrev pub lifecycle : List Effect → List Effect
lifecycle [] = []
lifecycle (e ∷ es) = life_of e ++ lifecycle es

pub lifecycle-append : (es fs : List Effect) → lifecycle (es ++ fs) ≡ lifecycle es ++ lifecycle fs
lifecycle-append [] fs = refl
lifecycle-append (e ∷ es) fs = rw (lifecycle-append es fs, append_assoc)

abbrev pub calls : Stage → List Effect
calls created = []
calls serving = call_connection ∷ []
calls leaving = call_connection ∷ call_connection ∷ call_close ∷ []
calls erased = call_connection ∷ call_connection ∷ call_close ∷ []
calls gone = call_connection ∷ call_connection ∷ call_close ∷ remove_channel ∷ []

pub record Fits (ts : List Task) (m : ConnectionMap) (i : ℕ) (o : Object) (g : Stage) : Type 0 where
  pub state : fits_state g o.connection.state ≡ true
  pub waits : (k : Kind) → count k i ts ≡ due g k
  pub table : find_name o.name m ≡ (if tabled g then some i else none)
  pub called : lifecycle o.effects ≡ calls g

pub data At (s : System) (i : ℕ) : Type 0 where
  absent :
      object_at i s.objects ≡ none
      → (s.next_conn_id ≤ i → (k : Kind) → count k i s.tasks ≡ 0)
      → At s i
  present :
      (o : Object) (g : Stage)
      → object_at i s.objects ≡ some o
      → i < s.next_conn_id
      → o.name ≡ conn_name s.name s.ip_port i
      → Fits s.tasks s.connections i o g
      → At s i

-- The address fits into a name, the next number fits an `int`, and every connection is in a stage.
pub record Inv (s : System) : Type 0 where
  pub address : length s.ip_port ≤ 51
  pub below : s.next_conn_id < 2147483648
  pub at : (i : ℕ) → At s i

pub called-act_on :
    (f : Connection → Outcome) (o : Object) (es fs : List Effect)
    → lifecycle o.effects ≡ es
    → lifecycle (f o.connection).1 ≡ fs
    → lifecycle (act_on f o).effects ≡ es ++ fs
unfolding act_on
called-act_on f o es fs h k = lifecycle-append o.effects (f o.connection).1 ∙ rw (h, k) refl

-- A functor is due once, so none is left when it is taken.
taken :
    (a k : Kind) (l i n : ℕ)
    → one_if (matches k i (record { loop = l; kind = a; conn = i })) + n ≡ one_if (same_kind k a)
    → n ≡ 0
taken a k l i n e = ground (arith, e)

pub created_due : (k : Kind) → due created k ≡ one_if (same_kind k establishes)
created_due listens = refl
created_due establishes = refl
created_due removes = refl
created_due destroys = refl

pub leaving_due : (k : Kind) → due leaving k ≡ one_if (same_kind k removes)
leaving_due listens = refl
leaving_due establishes = refl
leaving_due removes = refl
leaving_due destroys = refl

erased_due : (k : Kind) → due erased k ≡ one_if (same_kind k destroys)
erased_due listens = refl
erased_due establishes = refl
erased_due removes = refl
erased_due destroys = refl

pub no_due : (k : Kind) → due serving k ≡ 0
no_due listens = refl
no_due establishes = refl
no_due removes = refl
no_due destroys = refl

gone_due : (k : Kind) → due gone k ≡ 0
gone_due listens = refl
gone_due establishes = refl
gone_due removes = refl
gone_due destroys = refl

-- A connection that is down only removes its channel when it is destroyed.
destroyed_down :
    (c : Connection)
    → fits_state gone c.state ≡ true
    → connect_destroyed c ≡ (c, remove_channel ∷ [])
unfolding connect_destroyed
destroyed_down c h = down c.state h
  where
    down :
        (x : ConnState)
        → fits_state gone x ≡ true
        → connect_destroyed (record c { state = x }) ≡ (record c { state = x }, remove_channel ∷ [])
    down disconnected h = refl
    down connecting h = cc
    down connected h = cc
    down disconnecting h = cc

-- `connectEstablished` runs only on a connection just made, and `connectDestroyed` only on one that
-- is erased.
pub established-Fits :
    (g : Stage) (l : ℕ) (ts : List Task) (m : ConnectionMap) (i : ℕ) (o : Object)
    → Fits (record { loop = l; kind = establishes; conn = i } ∷ ts) m i o g
    → Fits ts m i (act_on connect_established o) serving
unfolding act_on
established-Fits created l ts m i o f = record {
  state = unfold connect_established in refl;
  waits = λ k. taken establishes k l i _ (f.waits k ∙ created_due k) ∙ sym (no_due k);
  table = f.table;
  called = called-act_on connect_established o [] _ f.called (unfold connect_established in refl);
}
established-Fits serving l ts m i o f = absurd (ground (arith, f.waits establishes))
established-Fits leaving l ts m i o f = absurd (ground (arith, f.waits establishes))
established-Fits erased l ts m i o f = absurd (ground (arith, f.waits establishes))
established-Fits gone l ts m i o f = absurd (ground (arith, f.waits establishes))

pub destroyed-Fits :
    (g : Stage) (l : ℕ) (ts : List Task) (m : ConnectionMap) (i : ℕ) (o : Object)
    → Fits (record { loop = l; kind = destroys; conn = i } ∷ ts) m i o g
    → Fits ts m i (act_on connect_destroyed o) gone
unfolding act_on
destroyed-Fits erased l ts m i o f = record {
  state = ap (λ d. fits_state gone d.0.state) (destroyed_down o.connection f.state) ∙ f.state;
  waits = λ k. taken destroys k l i _ (f.waits k ∙ erased_due k) ∙ sym (gone_due k);
  table = f.table;
  called =
      called-act_on connect_destroyed o _ _ f.called
        (ap (λ d. lifecycle d.1) (destroyed_down o.connection f.state));
}
destroyed-Fits serving l ts m i o f = absurd (ground (arith, f.waits destroys))
destroyed-Fits leaving l ts m i o f = absurd (ground (arith, f.waits destroys))
destroyed-Fits created l ts m i o f = absurd (ground (arith, f.waits destroys))
destroyed-Fits gone l ts m i o f = absurd (ground (arith, f.waits destroys))

-- `removeConnectionInLoop` erases the name and queues the end.
pub removed-Fits :
    (g : Stage) (l l' : ℕ) (ts : List Task) (m : ConnectionMap) (i : ℕ) (o : Object)
    → Fits (record { loop = l; kind = removes; conn = i } ∷ ts) m i o g
    → Fits
        (ts ++ (record { loop = l'; kind = destroys; conn = i } ∷ []))
        (erase_name o.name m)
        i
        o
        erased
removed-Fits leaving l l' ts m i o f = record {
  state = f.state;
  waits = λ k.
      count-append k i ts _
      ∙ ap (λ n. n + count k i (record { loop = l'; kind = destroys; conn = i } ∷ []))
          (taken removes k l i _ (f.waits k ∙ leaving_due k))
      ∙ alone k;
  table = find_name-erase_same o.name m;
  called = f.called;
}
  where
    alone :
        (k : Kind)
        → 0 + count k i (record { loop = l'; kind = destroys; conn = i } ∷ []) ≡ due erased k
    alone listens = refl
    alone establishes = refl
    alone removes = refl
    alone destroys = ground arith
removed-Fits serving l l' ts m i o f = absurd (ground (arith, f.waits removes))
removed-Fits erased l l' ts m i o f = absurd (ground (arith, f.waits removes))
removed-Fits created l l' ts m i o f = absurd (ground (arith, f.waits removes))
removed-Fits gone l l' ts m i o f = absurd (ground (arith, f.waits removes))
