-- ===== src/Server/Invariant/Accepting.antt =====
-- Accepting a connection keeps the invariant.
use accelerometer_tcp_json_t.Prelude.{
  ℕ, ◌≡◌, ◌≢◌, ◌↔◌, sym, true, String, some, arith, ==_refl, update,
}
use accelerometer_tcp_json_t.Doubles.{Doubles}
use accelerometer_tcp_json_t.Protocol.{k_role_A, k_role_B}
use accelerometer_tcp_json_t.Server.World.{Session, World, make_session}
use accelerometer_tcp_json_t.Server.Session.{start, read_next_line}
use accelerometer_tcp_json_t.Server.Events.{accept_done, accept_next, Completion}
use accelerometer_tcp_json_t.Server.Invariant.Defs.{IsSound, Inv}
use accelerometer_tcp_json_t.Server.Invariant.Changes.{Serves, split}
use accelerometer_tcp_json_t.Server.Invariant.Registering.{a_not_empty, b_not_empty}

started_fresh :
    (D : Doubles) (role : String) → role ≢ "" → ¬ Serves (start (make_session {D = D} true)) role
unfolding start read_next_line
started_fresh D role ne x = ne (sym x.0)

module _ {D : Doubles} where
  started-IsSound : IsSound (start (make_session {D = D} true))
  unfolding start read_next_line
  started-IsSound = ground arith

  -- The slot of a role does not name the number that the next session gets.
  unborn_slot : (w : World D) (role : String) → Inv w → ¬ Serves (w.sessions w.count) role
  unborn_slot w role v x = cc (x.1, v.unborn w.count (omega arith))

  pub accept_done-Inv : (w : World D) (c : Completion) → Inv w → Inv (accept_done w c)
  unfolding accept_done accept_next
  accept_done-Inv w (Completion.failed message) v = record {
    sound = v.sound;
    unborn = v.unborn;
    slot_a = v.slot_a;
    slot_b = v.slot_b;
    accepting = omega (arith, v.accepting);
  }
  accept_done-Inv w Completion.done v = record {
    sound =
        split w.count (λ j. IsSound (sessions j)) (rw (==_refl w.count) started-IsSound)
          (λ j ne. rw (old j ne) (v.sound j));
    unborn = λ j h. rw (old j (λ e. omega arith)) (v.unborn j (omega arith));
    slot_a =
        split w.count (λ j. (w.state.node_a ≡ some j) ↔ Serves (sessions j) k_role_A)
          (rw (==_refl w.count) (fresh k_role_A a_not_empty (v.slot_a w.count)))
          (λ j ne. rw (old j ne) (v.slot_a j));
    slot_b =
        split w.count (λ j. (w.state.node_b ≡ some j) ↔ Serves (sessions j) k_role_B)
          (rw (==_refl w.count) (fresh k_role_B b_not_empty (v.slot_b w.count)))
          (λ j ne. rw (old j ne) (v.slot_b j));
    accepting = omega (arith, v.accepting);
  }
    where
      sessions : ℕ → Session D
      sessions = update w.sessions w.count (start (make_session true))

      old : (j : ℕ) → w.count ≢ j → sessions j ≡ w.sessions j
      old j ne = ground arith

      fresh :
          {X : Type 0} (role : String)
          → role ≢ ""
          → X ↔ Serves (w.sessions w.count) role
          → X ↔ Serves (start (make_session {D = D} true)) role
      fresh role ne f =
          ((λ x. absurd (unborn_slot w role v (f.0 x))), (λ x. absurd (started_fresh D role ne x)))
