-- ===== src/Server/State/Defs.antt =====
-- include/server/server_state.hpp and src/server/server_state.cpp: which session is Node A and
-- which is Node B. A session is named by its number; a weak_ptr is such a number or none, and
-- `alive` says whether the session that a number names still exists.
use accelerometer_tcp_json_t.Prelude.{
  ℕ, Bool, true, false, not, Option, none, some, ◌==◌, if◌then◌else◌,
}

pub record ServerState : Type 0 where
  pub node_a : Option ℕ
  pub node_b : Option ℕ

-- weak_ptr::lock and weak_ptr::expired
abbrev pub lock : (ℕ → Bool) → Option ℕ → Option ℕ
lock alive none = none
lock alive (some i) = if alive i then some i else none

abbrev pub expired : (ℕ → Bool) → Option ℕ → Bool
expired alive none = true
expired alive (some i) = not (alive i)

-- current_node && current_node.get() != session.get()
abbrev pub is_other : Option ℕ → ℕ → Bool
is_other none i = false
is_other (some j) i = not (j == i)

-- node && node.get() == session
abbrev pub is_same : Option ℕ → ℕ → Bool
is_same none i = false
is_same (some j) i = j == i

unfoldable pub set_node_a : (ℕ → Bool) → ServerState → ℕ → ServerState × Bool
set_node_a alive st session =
    if is_other (lock alive st.node_a) session
    then (st, false)
    else (record st { node_a = some session }, true)

unfoldable pub set_node_b : (ℕ → Bool) → ServerState → ℕ → ServerState × Bool
set_node_b alive st session =
    if is_other (lock alive st.node_b) session
    then (st, false)
    else (record st { node_b = some session }, true)

unfoldable pub get_node_a : (ℕ → Bool) → ServerState → Option ℕ
get_node_a alive st = lock alive st.node_a

unfoldable pub get_node_b : (ℕ → Bool) → ServerState → Option ℕ
get_node_b alive st = lock alive st.node_b

unfoldable pub has_node_a : (ℕ → Bool) → ServerState → Bool
has_node_a alive st = not (expired alive st.node_a)

unfoldable pub has_node_b : (ℕ → Bool) → ServerState → Bool
has_node_b alive st = not (expired alive st.node_b)

-- The second test reads the state after the first reset, which leaves node_b alone.
unfoldable pub remove_session : (ℕ → Bool) → ServerState → ℕ → ServerState
remove_session alive st session = record {
  node_a = if is_same (lock alive st.node_a) session then none else st.node_a;
  node_b = if is_same (lock alive st.node_b) session then none else st.node_b;
}
