-- ===== src/LoopThread/Quit.antt =====
-- How the wait of `startLoop` and the join of the destructor end in net/EventLoopThread.cpp.
use tiny_network_library.Base.{
  ◌≡◌, refl, ap, ap₂, sym, subst, ◌∙◌, arith, true, false, List, [], ◌∷◌, if◌then◌else◌,
}
use tiny_network_library.Loop.{quit}
use tiny_network_library.LoopThread.{
  ThreadPhase, unborn, constructed, initialised, published, looping, left, ended, OwnerPhase,
  waiting, holding, joining, gone, LoopThread, new, enter_loop, thread_func, owner_step, is_ended,
  Move, thread_moves, owner_moves, step, run,
}
use tiny_network_library.LoopThread.Handshake.{Inv, run-Inv, new-Inv, run_holding}

-- A round of a loop that nobody has asked to quit.
rounds : (s : LoopThread) → s.loop.quitting ≡ false → thread_func looping s ≡ s
unfolding thread_func
rounds s q = ap (λ b. if b then record s { thread = left } else s) q

at_phases :
    (s : LoopThread) {t : ThreadPhase} {o : OwnerPhase}
    → s.thread ≡ t
    → s.owner ≡ o
    → s ≡ record s { thread = t; owner = o }
at_phases s h k = ap₂ (λ t o. record s { thread = t; owner = o }) h k

-- The thread is in its loop and the owner in its join.
abbrev Entered : LoopThread → Type 0
Entered s = (s.thread ≡ looping) × (s.owner ≡ joining)

stuck :
    (m : Move) (s : LoopThread)
    → s.thread ≡ looping
    → s.owner ≡ joining
    → s.loop.quitting ≡ false
    → step m s ≡ s
unfolding step owner_step
stuck thread_moves s h k q = ap (λ t. thread_func t s) h ∙ rounds s q
stuck owner_moves s h k q =
    ap (λ o. owner_step o s) k ∙ ap (λ t. if is_ended t then record s { owner = gone } else s) h

stuck_run :
    (ms : List Move) (s : LoopThread)
    → s.thread ≡ looping
    → s.owner ≡ joining
    → s.loop.quitting ≡ false
    → run ms s ≡ s
unfolding run
stuck_run [] s h k q = refl
stuck_run (m ∷ ms) s h k q = ap (run ms) (stuck m s h k q) ∙ stuck_run ms s h k q

entered :
    (ms : List Move) (s : LoopThread)
    → Entered
        (run (owner_moves ∷ thread_moves ∷ ms) (record s { thread = published; owner = holding }))
unfolding run step owner_step thread_func enter_loop
entered ms s = let e = stuck_run ms _ refl refl refl in (ap (λ x. x.thread) e, ap (λ x. x.owner) e)

entered_from :
    (ms : List Move) (s : LoopThread)
    → s.owner ≡ holding
    → s.thread ≡ published
    → Entered (run (owner_moves ∷ thread_moves ∷ ms) s)
entered_from ms s h k =
    subst (λ x. Entered (run (owner_moves ∷ thread_moves ∷ ms) x)) (sym (at_phases s k h))
      (entered ms s)

-- A quit may be lost. If the destructor asks the loop to quit when the thread has shown the loop and
-- not entered it yet, then `loop()` takes the request back: whatever steps follow, the thread stays
-- in its loop, and the owner in its join.
pub lost_quit :
    (ps ms : List Move)
    → (run ps new).owner ≡ holding
    → (run ps new).thread ≡ published
    → ((run (owner_moves ∷ thread_moves ∷ ms) (run ps new)).thread ≡ looping)
      × ((run (owner_moves ∷ thread_moves ∷ ms) (run ps new)).owner ≡ joining)
lost_quit ps ms h k = entered_from ms (run ps new) h k

waits_over : (s : LoopThread) → s.has_loop ≡ true → (owner_step waiting s).owner ≡ holding
unfolding owner_step
waits_over s h = ap (λ b. (if b then record s { owner = holding } else s).owner) h

starts :
    (t : ThreadPhase) (s : LoopThread)
    → Inv (record s { thread = t; owner = waiting })
    → (run
        (thread_moves ∷ thread_moves ∷ owner_moves ∷ [])
        (record s { thread = t; owner = waiting })).owner
      ≡ holding
unfolding run step thread_func enter_loop
starts constructed s v = refl
starts initialised s v = refl
starts published s v = waits_over _ v.pointer
starts looping s v =
    let s1 : LoopThread = record s { thread = looping; owner = waiting } in
    let e = rounds s1 v.runs in
    ap (λ x. (step owner_moves (step thread_moves x)).owner) e
    ∙ ap (λ x. (step owner_moves x).owner) e
    ∙ waits_over s1 v.pointer
starts unborn s v = absurd (ground (arith, v.phases))
starts left s v = absurd (ground (arith, v.phases))
starts ended s v = absurd (ground (arith, v.phases))

-- `startLoop` returns: whenever the owner waits, two steps of the thread and one of the owner end the
-- wait.
pub run-waiting :
    (ps : List Move)
    → (run ps new).owner ≡ waiting
    → (run (thread_moves ∷ thread_moves ∷ owner_moves ∷ []) (run ps new)).owner ≡ holding
run-waiting ps h = goes (run ps new) h (run-Inv ps new new-Inv)
  where
    goes :
        (s : LoopThread)
        → s.owner ≡ waiting
        → Inv s
        → (run (thread_moves ∷ thread_moves ∷ owner_moves ∷ []) s).owner ≡ holding
    goes s h v =
        let e = at_phases s refl h in
        subst (λ x. (run (thread_moves ∷ thread_moves ∷ owner_moves ∷ []) x).owner ≡ holding)
          (sym e) (starts s.thread s (subst (λ x. Inv x) e v))

quits :
    (s : LoopThread)
    → s.has_loop ≡ true
    → s.thread ≡ looping
    → s.owner ≡ holding
    → (run (owner_moves ∷ thread_moves ∷ thread_moves ∷ owner_moves ∷ []) s).owner ≡ gone
unfolding run step thread_func owner_step quit
quits s p h k =
    let e : s ≡ record s { has_loop = true; thread = looping; owner = holding } =
      λ i. record s { has_loop = p i; thread = h i; owner = k i } in
    ap (λ x. (run (owner_moves ∷ thread_moves ∷ thread_moves ∷ owner_moves ∷ []) x).owner) e

-- The destructor ends: when it asks a loop that has been entered to quit, two steps of the thread end
-- the thread, and the join is over.
pub quit_joins :
    (ps : List Move)
    → (run ps new).owner ≡ holding
    → (run ps new).thread ≡ looping
    → (run (owner_moves ∷ thread_moves ∷ thread_moves ∷ owner_moves ∷ []) (run ps new)).owner ≡ gone
quit_joins ps h k = quits (run ps new) (run_holding ps h).0 k h
