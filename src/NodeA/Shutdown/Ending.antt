-- ===== src/NodeA/Shutdown/Ending.antt =====
-- How Node A ends: once `main` has left its loop, both threads end in a few steps.
use accelerometer_tcp_json_t.Prelude.{
  ℕ, suc, ◌≢◌, ◌+◌, ◌<◌, ◌≤◌, ◌≡◌, refl, ap, ◌∙◌, ◌⊎◌, inl, inr, true, false, arith,
}
use accelerometer_tcp_json_t.Doubles.{Doubles}
use accelerometer_tcp_json_t.Json.{Json, IsLawful}
use accelerometer_tcp_json_t.Client.{Arrival}
use accelerometer_tcp_json_t.NodeA.State.{NodeA, MainPc, ReceiverPc}
use accelerometer_tcp_json_t.NodeA.Defs.{generate, send, stop_main, close_main, join, abort}
use accelerometer_tcp_json_t.NodeA.Steps.{Step, Reach}
use accelerometer_tcp_json_t.NodeA.Shutdown.Falls.{
  has_left, is_present, main_rank, receiver_rank, rank, Falls, open_log-Falls, test_running-Falls,
  enter_read-Falls, fail_read-Falls, stop_receiver-Falls, receive-Falls,
}
use accelerometer_tcp_json_t.NodeA.Shutdown.Orderly.{IsOrderly, Step-IsOrderly, Reach-IsOrderly}

module _ {D : Doubles} (J : Json D) where
  -- A step that waits for no peer: only the read of a closed client ends by itself.
  abbrev pub IsPrompt : {n u : NodeA D} → Step J n u → Type 0
  IsPrompt {n} (Step.receives a e c) = n.client.is_open ≡ false
  IsPrompt st = Unit

  -- So many steps from one state to another.
  pub data Run (n : NodeA D) : ℕ → NodeA D → Type 0 where
    still : Run n 0 n
    more : {k : ℕ} {u v : NodeA D} → Run n k u → Step J u v → Run n (suc k) v

  -- Once `main` has left its loop, each step brings the end nearer.
  Falls-rank :
      {n u : NodeA D}
      → Falls n u
      → IsOrderly J n
      → has_left n.main ≡ true
      → (has_left u.main ≡ true) × (rank u < rank n)
  Falls-rank {n} {u} f v h =
      let low = f.rank (v.stopped h) in
      let same = ap main_rank f.main in (ap has_left f.main ∙ h, omega (arith, low, same))

  -- `main` has left its loop, or std::terminate has ended the process.
  abbrev IsLeaving : MainPc D → Type 0
  IsLeaving pc = (has_left pc ≡ true) ⊎ (pc ≡ MainPc.aborted)

  Falls-IsLeaving :
      {n u : NodeA D}
      → Falls n u
      → IsOrderly J n
      → has_left n.main ≡ true
      → IsLeaving u.main × (rank u < rank n)
  Falls-IsLeaving f v h = let r = Falls-rank f v h in (inl r.0, r.1)

  Step-rank :
      {n u : NodeA D}
      → Step J n u
      → IsOrderly J n
      → has_left n.main ≡ true
      → IsLeaving u.main × (rank u < rank n)
  unfolding generate send stop_main close_main join abort
  Step-rank (Step.generates now e) v h = cc (h, ap has_left e)
  Step-rank (Step.sends p r e) v h = cc (h, ap has_left e)
  Step-rank (Step.stops e) v h = cc (h, ap has_left e)
  Step-rank (Step.closes e) v h = (inl refl, let r = ap main_rank e in omega (arith, r))
  Step-rank (Step.joins e f) v h = (inl refl, let r = ap main_rank e in omega (arith, r))
  Step-rank (Step.aborts e) v h = (inr refl, let r = ap receiver_rank e in omega (arith, r))
  Step-rank (Step.opens opened e) v h = Falls-IsLeaving (open_log-Falls _ opened e) v h
  Step-rank (Step.tests e) v h = Falls-IsLeaving (test_running-Falls _ e) v h
  Step-rank (Step.enters e) v h = Falls-IsLeaving (enter_read-Falls _ e) v h
  Step-rank (Step.receives a e c) v h = Falls-IsLeaving (receive-Falls J _ a e) v h
  Step-rank (Step.fails x e) v h = Falls-IsLeaving (fail_read-Falls _ x e) v h
  Step-rank (Step.finishes e) v h = Falls-IsLeaving (stop_receiver-Falls _ e) v h

  -- No step follows std::terminate.
  aborted_ends : {n u : NodeA D} → Step J n u → IsOrderly J n → n.main ≢ MainPc.aborted
  aborted_ends (Step.generates now e) v d = cc (e, d)
  aborted_ends (Step.sends p r e) v d = cc (e, d)
  aborted_ends (Step.stops e) v d = cc (e, d)
  aborted_ends (Step.closes e) v d = cc (e, d)
  aborted_ends (Step.joins e f) v d = cc (e, d)
  aborted_ends (Step.aborts e) v d = cc (e, v.dead d)
  aborted_ends (Step.opens opened e) v d = cc (e, v.dead d)
  aborted_ends (Step.tests e) v d = cc (e, v.dead d)
  aborted_ends (Step.enters e) v d = cc (e, v.dead d)
  aborted_ends (Step.receives a e c) v d = cc (e, v.dead d)
  aborted_ends (Step.fails x e) v d = cc (e, v.dead d)
  aborted_ends (Step.finishes e) v d = cc (e, v.dead d)

  -- Over a closed client ReceiveModules has ended, or can go on by itself.
  receiver_moves :
      (n : NodeA D) (pc : ReceiverPc)
      → n.receiver ≡ pc
      → is_present pc ≡ true
      → n.client.is_open ≡ false
      → (pc ≡ ReceiverPc.finished) ⊎ ((u : NodeA D) × (st : Step J n u) × IsPrompt st)
  receiver_moves n ReceiverPc.absent e p s = cc
  receiver_moves n ReceiverPc.opening e p s = inr (_, Step.opens false e, tt)
  receiver_moves n ReceiverPc.testing e p s = inr (_, Step.tests e, tt)
  receiver_moves n ReceiverPc.entering e p s = inr (_, Step.enters e, tt)
  receiver_moves n ReceiverPc.reading e p s =
      inr (_, Step.receives (Arrival.failed "" "closed") e tt, s)
  receiver_moves n (ReceiverPc.failing x) e p s = inr (_, Step.fails x e, tt)
  receiver_moves n ReceiverPc.stopping e p s = inr (_, Step.finishes e, tt)
  receiver_moves n ReceiverPc.finished e p s = inl refl
  receiver_moves n ReceiverPc.aborted e p s = cc

  main_moves :
      (n : NodeA D) (pc : MainPc D)
      → n.main ≡ pc
      → has_left pc ≡ true
      → IsOrderly J n
      → (pc ≡ MainPc.returned true) ⊎ ((u : NodeA D) × (st : Step J n u) × IsPrompt st)
  main_moves n MainPc.closing e h v = inr (_, Step.closes e, tt)
  main_moves n MainPc.joining e h v =
      elim (receiver_moves n n.receiver refl (v.present (λ h. cc (e, h))) (v.shut e)) [
        | inl f ↦ inr (_, Step.joins e f, tt)
        | inr m ↦ inr m
      ]
  main_moves n (MainPc.returned true) e h v = inl refl
  main_moves n (MainPc.returned false) e h v = cc
  main_moves n MainPc.generating e h v = cc
  main_moves n (MainPc.sending q) e h v = cc
  main_moves n MainPc.failing e h v = cc
  main_moves n MainPc.aborted e h v = cc

  record Ending (n : NodeA D) (k : ℕ) (u : NodeA D) : Type 0 where
    left : IsLeaving u.main
    orderly : IsOrderly J u
    bound : k + rank u ≤ rank n

  Run-Ending :
      {n u : NodeA D} {k : ℕ} → IsOrderly J n → has_left n.main ≡ true → Run n k u → Ending n k u
  Run-Ending v h Run.still = record { left = inl h; orderly = v; bound = omega arith }
  Run-Ending v h (Run.more r st) =
      let i = Run-Ending v h r in
      let b = i.bound in
      elim i.left [
        | inl l ↦
            let s = Step-rank st i.orderly l in
            let low = s.1 in
            record {
              left = s.0;
              orderly = Step-IsOrderly J st i.orderly;
              bound = omega (arith, b, low);
            }
        | inr d ↦ absurd (aborted_ends st i.orderly d)
      ]

  main_rank-le : (pc : MainPc D) → main_rank pc ≤ 2
  main_rank-le pc = ground arith

  receiver_rank-le : (pc : ReceiverPc) → receiver_rank pc ≤ 4
  receiver_rank-le pc = ground arith

  -- Once `main` of a started Node A has left its loop, whatever the two threads and the network do,
  -- at most six more steps follow; and after any number of them `main` has returned EXIT_SUCCESS, or
  -- create_directories has thrown and ended the process, or another step can be taken that waits for
  -- no peer.
  pub shutdown_terminates :
      IsLawful J
      → {n u : NodeA D} {k : ℕ} → Reach J n
      → has_left n.main ≡ true
      → Run n k u
      → (k ≤ 6)
        × ((u.main ≡ MainPc.returned true)
            ⊎ ((u.main ≡ MainPc.aborted) ⊎ ((v : NodeA D) × (st : Step J u v) × IsPrompt st)))
  shutdown_terminates L {n} {u} {k} reach h r =
      let i = Run-Ending (Reach-IsOrderly J L reach) h r in
      let b = i.bound in
      (
        omega (arith, b, main_rank-le n.main, receiver_rank-le n.receiver),
        elim i.left [
          | inl l ↦ elim (main_moves u u.main refl l i.orderly) [
            | inl e ↦ inl e
            | inr m ↦ inr (inr m)
          ]
          | inr d ↦ inr (inl d)
        ],
      )
