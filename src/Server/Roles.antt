-- ===== src/Server/Roles.antt =====
-- What the invariant says of the roles and of the outstanding operations of a running server.
use accelerometer_tcp_json_t.Prelude.{
  ℕ, ◌≤◌, ◌≡◌, ◌↔◌, ◌⊎◌, ◌∙◌, inl, inr, true, String, Option, none, some, arith, length, List, [],
  ◌∷◌, Bool-cases, refl,
}
use accelerometer_tcp_json_t.Doubles.{Doubles}
use accelerometer_tcp_json_t.Json.{Json}
use accelerometer_tcp_json_t.Protocol.{k_role_A, k_role_B}
use accelerometer_tcp_json_t.Server.State.{lock, get_node_a, get_node_b}
use accelerometer_tcp_json_t.Server.World.{Session, World, alive}
use accelerometer_tcp_json_t.Server.Events.{Reach, front}
use accelerometer_tcp_json_t.Server.Invariant.{Inv, IsSound, Serves, Reach-Inv}

same_slot : (slot : Option ℕ) (i j : ℕ) → slot ≡ some i → slot ≡ some j → i ≡ j
same_slot slot i j e f = cc

short_front : (q : List String) → length (front q) ≤ 1
short_front [] = omega arith
short_front (m ∷ q) = omega arith

short : (ws q : List String) → (ws ≡ []) ⊎ (ws ≡ front q) → length ws ≤ 1
short ws q (inl e) = rw e (omega arith)
short ws q (inr e) = rw e (short_front q)

module _ {D : Doubles} where
  -- The socket is open, one read is outstanding, and the first message of the queue, if there is
  -- one, is being written.
  pub record Serviced (s : Session D) : Type 0 where
    pub opened : s.socket.is_open ≡ true
    pub reading : s.reads ≡ 1
    pub writing : s.writes ≡ front s.write_queue

  IsSound-Serviced : (s : Session D) → IsSound s → (s.closed ≡ true) ⊎ Serviced s
  IsSound-Serviced s v = elim (Bool-cases s.closed) [
    | inl c ↦ inl c
    | inr c ↦
        inr (record { opened = v.opened ∙ rw c refl; reading = v.reading c; writing = v.flowing c })
  ]

  -- A slot that names exactly the open sessions of a role is locked to exactly these.
  lock_iff :
      (w : World D) (slot : Option ℕ) (role : String) (i : ℕ)
      → Inv w
      → ((slot ≡ some i) ↔ Serves (w.sessions i) role)
      → (lock (alive w) slot ≡ some i) ↔ Serves (w.sessions i) role
  lock_iff w none role i v f = ((λ e. cc), (λ s. f.1 s))
  lock_iff w (some k) role i v f =
      ((λ e. f.0 (ground arith)), (λ s. ground (arith, f.1 s, (v.sound i).reading)))

  pub get_node_a_iff :
      (w : World D) (i : ℕ)
      → Inv w
      → (get_node_a (alive w) w.state ≡ some i) ↔ Serves (w.sessions i) k_role_A
  unfolding get_node_a
  get_node_a_iff w i v = lock_iff w w.state.node_a k_role_A i v (v.slot_a i)

  pub get_node_b_iff :
      (w : World D) (i : ℕ)
      → Inv w
      → (get_node_b (alive w) w.state ≡ some i) ↔ Serves (w.sessions i) k_role_B
  unfolding get_node_b
  get_node_b_iff w i v = lock_iff w w.state.node_b k_role_B i v (v.slot_b i)

  module _ (J : Json D) where
    -- In every reachable world GetNodeA gives a session exactly when that session is registered as
    -- A and open, and GetNodeB likewise for B.
    pub nodes_are_registered :
        (w : World D) (i : ℕ)
        → Reach J w
        → ((get_node_a (alive w) w.state ≡ some i) ↔ Serves (w.sessions i) k_role_A)
          × ((get_node_b (alive w) w.state ≡ some i) ↔ Serves (w.sessions i) k_role_B)
    nodes_are_registered w i r =
        (get_node_a_iff w i (Reach-Inv J r), get_node_b_iff w i (Reach-Inv J r))

    -- In every reachable world at most one open session has the role A, and at most one the role B.
    pub one_session_per_role :
        (w : World D) (i j : ℕ) (role : String)
        → Reach J w
        → (role ≡ k_role_A) ⊎ (role ≡ k_role_B)
        → Serves (w.sessions i) role
        → Serves (w.sessions j) role
        → i ≡ j
    one_session_per_role w i j role r (inl a) s t =
        let v = Reach-Inv J r in
        same_slot w.state.node_a i j ((v.slot_a i).1 (s.0 ∙ a, s.1)) ((v.slot_a j).1 (t.0 ∙ a, t.1))
    one_session_per_role w i j role r (inr b) s t =
        let v = Reach-Inv J r in
        same_slot w.state.node_b i j ((v.slot_b i).1 (s.0 ∙ b, s.1)) ((v.slot_b j).1 (t.0 ∙ b, t.1))

    -- In every reachable world one accept is outstanding; a session has at most one write
    -- outstanding; and it is closed, or its socket is open, exactly one read is outstanding, and the
    -- message being written is the first of its queue, if the queue has one.
    pub server_progress :
        (w : World D) (i : ℕ)
        → Reach J w
        → (w.accepts ≡ 1)
          × (length (w.sessions i).writes ≤ 1)
          × (((w.sessions i).closed ≡ true) ⊎ Serviced (w.sessions i))
    server_progress w i r =
        let v = Reach-Inv J r in
        (
          v.accepting,
          short (w.sessions i).writes (w.sessions i).write_queue (v.sound i).writing,
          IsSound-Serviced (w.sessions i) (v.sound i),
        )
