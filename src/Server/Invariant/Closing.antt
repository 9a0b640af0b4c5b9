-- ===== src/Server/Invariant/Closing.antt =====
-- What Close does to its session, to the others and to the slots.
use accelerometer_tcp_json_t.Prelude.{
  ℕ, ◌≡◌, ◌≢◌, ◌↔◌, Bool, true, false, some, arith, inl, inr, Bool-cases, ==_refl,
}
use accelerometer_tcp_json_t.Prelude.Text.{is_empty}
use accelerometer_tcp_json_t.Doubles.{Doubles}
use accelerometer_tcp_json_t.Server.State.{
  remove_session, remove_session_self_a, remove_session_self_b, remove_session_other_a,
  remove_session_other_b,
}
use accelerometer_tcp_json_t.Server.World.{World, alive, put}
use accelerometer_tcp_json_t.Server.Session.{close, shut_down}

module _ {D : Doubles} (w : World D) (i : ℕ) where
  pub close_others : (j : ℕ) → i ≢ j → (close w i).sessions j ≡ w.sessions j
  unfolding close
  close_others j ne = ground arith

  pub close_fixed : ((close w i).count ≡ w.count) × ((close w i).accepts ≡ w.accepts)
  unfolding close
  close_fixed = (ground arith, ground arith)

  -- Closing twice is closing once.
  pub close_closed : (w.sessions i).closed ≡ true → close w i ≡ w
  unfolding close
  close_closed c = rw c

  pub close_self :
      (w.sessions i).closed ≡ false
      → (close w i).sessions i ≡ shut_down (record (w.sessions i) { closed = true })
  unfolding close
  close_self c = ground arith

  module _ (c : (w.sessions i).closed ≡ false) (h : (w.sessions i).has_state ≡ true) where
    closing_alive : ℕ → Bool
    closing_alive = alive (put w i (record (w.sessions i) { closed = true }))

    close_state : (close w i).state ≡ remove_session closing_alive w.state i
    unfolding close closing_alive
    close_state = elim (Bool-cases (is_empty (w.sessions i).role)) [
      | inl e ↦ rw (c, h, e)
      | inr e ↦ rw (c, h, e)
    ]

    stays_alive : alive w i ≡ true → closing_alive i ≡ true
    unfolding closing_alive
    stays_alive a = rw (==_refl i) a

    -- A living session leaves both slots, and the others keep theirs.
    pub close_self_a :
        (w.state.node_a ≡ some i → alive w i ≡ true) → (close w i).state.node_a ≢ some i
    close_self_a a =
        rw close_state (remove_session_self_a closing_alive w.state i (λ e. stays_alive (a e)))

    pub close_self_b :
        (w.state.node_b ≡ some i → alive w i ≡ true) → (close w i).state.node_b ≢ some i
    close_self_b a =
        rw close_state (remove_session_self_b closing_alive w.state i (λ e. stays_alive (a e)))

    pub close_other_a :
        (j : ℕ) → i ≢ j → ((close w i).state.node_a ≡ some j) ↔ (w.state.node_a ≡ some j)
    close_other_a j ne = rw close_state (remove_session_other_a closing_alive w.state i j ne)

    pub close_other_b :
        (j : ℕ) → i ≢ j → ((close w i).state.node_b ≡ some j) ↔ (w.state.node_b ≡ some j)
    close_other_b j ne = rw close_state (remove_session_other_b closing_alive w.state i j ne)
