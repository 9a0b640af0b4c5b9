-- ===== src/Server/State/Slots.antt =====
-- What each operation of ServerState does to the slots.
use accelerometer_tcp_json_t.Prelude.{
  ℕ, ◌≡◌, refl, ◌≢◌, ◌↔◌, Bool, true, Option, none, some, arith, if◌then◌else◌,
}
use accelerometer_tcp_json_t.Server.State.Defs.{
  ServerState, set_node_a, set_node_b, get_node_a, get_node_b, has_node_a, has_node_b,
  remove_session,
}

module _ (alive : ℕ → Bool) (st : ServerState) (session : ℕ) where
  free_a :
      (o : Option ℕ)
      → get_node_a alive st ≡ o
      → ((other : ℕ) → o ≡ some other → other ≡ session)
      → (set_node_a alive st session).1 ≡ true
  unfolding set_node_a get_node_a
  free_a none e h = rw e
  free_a (some k) e h = rw e (ground (arith, h k))

  -- SetNodeA succeeds exactly when no other living session is Node A; if it succeeds the session
  -- takes the slot of Node A, and if not, nothing changes. Node B stays as it is.
  pub set_node_a_lem :
      (((set_node_a alive st session).1 ≡ true)
        ↔ ((other : ℕ) → get_node_a alive st ≡ some other → other ≡ session))
      × ((set_node_a alive st session).0
          ≡ (if (set_node_a alive st session).1 then record st { node_a = some session } else st))
  unfolding set_node_a get_node_a
  set_node_a_lem = ((λ e other f. ground arith, free_a (get_node_a alive st) refl), ground arith)

  free_b :
      (o : Option ℕ)
      → get_node_b alive st ≡ o
      → ((other : ℕ) → o ≡ some other → other ≡ session)
      → (set_node_b alive st session).1 ≡ true
  unfolding set_node_b get_node_b
  free_b none e h = rw e
  free_b (some k) e h = rw e (ground (arith, h k))

  -- SetNodeB succeeds exactly when no other living session is Node B; if it succeeds the session
  -- takes the slot of Node B, and if not, nothing changes. Node A stays as it is.
  pub set_node_b_lem :
      (((set_node_b alive st session).1 ≡ true)
        ↔ ((other : ℕ) → get_node_b alive st ≡ some other → other ≡ session))
      × ((set_node_b alive st session).0
          ≡ (if (set_node_b alive st session).1 then record st { node_b = some session } else st))
  unfolding set_node_b get_node_b
  set_node_b_lem = ((λ e other f. ground arith, free_b (get_node_b alive st) refl), ground arith)

  -- The removed session is in neither slot, if it is alive.
  pub remove_session_self_a :
      (st.node_a ≡ some session → alive session ≡ true)
      → (remove_session alive st session).node_a ≢ some session
  unfolding remove_session
  remove_session_self_a h e = ground arith

  pub remove_session_self_b :
      (st.node_b ≡ some session → alive session ≡ true)
      → (remove_session alive st session).node_b ≢ some session
  unfolding remove_session
  remove_session_self_b h e = ground arith

  -- Any other session keeps its slot.
  pub remove_session_other_a :
      (j : ℕ)
      → session ≢ j
      → ((remove_session alive st session).node_a ≡ some j) ↔ (st.node_a ≡ some j)
  unfolding remove_session
  remove_session_other_a j h = ground arith

  pub remove_session_other_b :
      (j : ℕ)
      → session ≢ j
      → ((remove_session alive st session).node_b ≡ some j) ↔ (st.node_b ≡ some j)
  unfolding remove_session
  remove_session_other_b j h = ground arith

  -- HasNodeA and HasNodeB hold exactly when the other side can be had.
  pub has_node_iff :
      ((has_node_a alive st ≡ true) ↔ (get_node_a alive st ≢ none))
      × ((has_node_b alive st ≡ true) ↔ (get_node_b alive st ≢ none))
  unfolding has_node_a has_node_b get_node_a get_node_b
  has_node_iff = (ground arith, ground arith)
