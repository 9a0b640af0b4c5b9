-- ===== src/Server/Invariant/Changes.antt =====
-- A change of one session and of the slots keeps the invariant.
use accelerometer_tcp_json_t.Prelude.{
  ℕ, ◌≤◌, ◌≡◌, ◌≢◌, ◌↔◌, ◌∙◌, true, false, some, arith, inl, inr, Bool-cases, ◌==◌, ==_iff, subst,
  String,
}
use accelerometer_tcp_json_t.Doubles.{Doubles}
use accelerometer_tcp_json_t.Protocol.{k_role_A, k_role_B}
use accelerometer_tcp_json_t.Server.World.{Session, World}
use accelerometer_tcp_json_t.Server.Invariant.Defs.{IsSound, Inv}

-- A family at one number and at the others.
pub split : (i : ℕ) (P : ℕ → Type 0) → P i → ((j : ℕ) → i ≢ j → P j) → (j : ℕ) → P j
split i P own others j = elim (Bool-cases (i == j)) [
  | inl e ↦ subst P ((==_iff i j).0 e) own
  | inr e ↦ others j (ground arith)
]

module _ {D : Doubles} where
  -- The session is open in this role.
  abbrev pub Serves : Session D → String → Type 0
  Serves s role = (s.role ≡ role) × (s.closed ≡ false)

  -- Only the session `i` and the slots that name it are different.
  pub record Changes (w u : World D) (i : ℕ) : Type 0 where
    pub count : u.count ≡ w.count
    pub accepts : u.accepts ≡ w.accepts
    pub others : (j : ℕ) → i ≢ j → u.sessions j ≡ w.sessions j
    pub sound : IsSound (u.sessions i)
    pub shut : (w.sessions i).closed ≡ true → (u.sessions i).closed ≡ true
    pub own_a : (u.state.node_a ≡ some i) ↔ Serves (u.sessions i) k_role_A
    pub own_b : (u.state.node_b ≡ some i) ↔ Serves (u.sessions i) k_role_B
    pub other_a : (j : ℕ) → i ≢ j → (u.state.node_a ≡ some j) ↔ (w.state.node_a ≡ some j)
    pub other_b : (j : ℕ) → i ≢ j → (u.state.node_b ≡ some j) ↔ (w.state.node_b ≡ some j)

  pub Changes-Inv : {w u : World D} {i : ℕ} → Changes w u i → Inv w → Inv u
  Changes-Inv {w} {u} {i} c v = record {
    sound = split i (λ j. IsSound (u.sessions j)) c.sound (λ j h. rw (c.others j h) (v.sound j));
    unborn =
        split i (λ j. u.count ≤ j → (u.sessions j).closed ≡ true)
          (λ h. c.shut (v.unborn i (rw (← c.count) h)))
          (λ j h g. rw (c.others j h) (v.unborn j (rw (← c.count) g)));
    slot_a =
        split i (λ j. (u.state.node_a ≡ some j) ↔ Serves (u.sessions j) k_role_A) c.own_a
          (λ j h. rw (c.others j h) (via (c.other_a j h) (v.slot_a j)));
    slot_b =
        split i (λ j. (u.state.node_b ≡ some j) ↔ Serves (u.sessions j) k_role_B) c.own_b
          (λ j h. rw (c.others j h) (via (c.other_b j h) (v.slot_b j)));
    accepting = c.accepts ∙ v.accepting;
  }
    where
      via : {A B C : Type 0} → A ↔ B → B ↔ C → A ↔ C
      via f g = (λ a. g.0 (f.0 a), λ x. f.1 (g.1 x))
