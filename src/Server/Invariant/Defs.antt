-- ===== src/Server/Invariant/Defs.antt =====
-- The invariant of one session, and of the server.
use accelerometer_tcp_json_t.Prelude.{ℕ, ◌≤◌, ◌≡◌, ◌↔◌, ◌⊎◌, true, false, not, [], some}
use accelerometer_tcp_json_t.Doubles.{Doubles}
use accelerometer_tcp_json_t.Protocol.{k_role_A, k_role_B}
use accelerometer_tcp_json_t.Server.World.{Session, World}
use accelerometer_tcp_json_t.Server.Events.{front}

module _ {D : Doubles} where
  -- A session between two handlers.
  pub record IsSound (s : Session D) : Type 0 where
    -- At most one read is outstanding, and one is as long as the session is open.
    pub reads_le : s.reads ≤ 1
    pub reading : s.closed ≡ false → s.reads ≡ 1
    -- At most one write is outstanding, of the front of the queue; an open session is writing as
    -- long as its queue has a message.
    pub writing : (s.writes ≡ []) ⊎ (s.writes ≡ front s.write_queue)
    pub flowing : s.closed ≡ false → s.writes ≡ front s.write_queue
    -- The socket is open exactly as long as the session is.
    pub opened : s.socket.is_open ≡ not s.closed
    pub attached : s.has_state ≡ true
    -- The role is one of the two or none; without one nothing was ever sent to the client.
    pub known : (s.role ≡ "") ⊎ ((s.role ≡ k_role_A) ⊎ (s.role ≡ k_role_B))
    pub silent : s.role ≡ "" → s.write_queue ≡ []
    pub quiet : s.role ≡ "" → s.writes ≡ []
    -- A read that outlives its session is of a registered one.
    pub lingering : s.closed ≡ true → s.role ≡ "" → s.reads ≡ 0

  -- A slot names a session exactly when that session is open and has the slot's role.
  pub record Inv (w : World D) : Type 0 where
    pub sound : (i : ℕ) → IsSound (w.sessions i)
    pub unborn : (i : ℕ) → w.count ≤ i → (w.sessions i).closed ≡ true
    pub slot_a :
        (i : ℕ)
        → (w.state.node_a ≡ some i)
          ↔ (((w.sessions i).role ≡ k_role_A) × ((w.sessions i).closed ≡ false))
    pub slot_b :
        (i : ℕ)
        → (w.state.node_b ≡ some i)
          ↔ (((w.sessions i).role ≡ k_role_B) × ((w.sessions i).closed ≡ false))
    pub accepting : w.accepts ≡ 1
