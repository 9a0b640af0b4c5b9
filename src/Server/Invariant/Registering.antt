-- ===== src/Server/Invariant/Registering.antt =====
-- Registration keeps the invariant.
use accelerometer_tcp_json_t.Prelude.{
  sym, ◌∙◌, ℕ, ◌≡◌, refl, ◌≢◌, ◌⊎◌, false, String, some, arith, inl, inr, Bool-cases, ==_refl,
  Option,
}
use accelerometer_tcp_json_t.Prelude.Text.{is_empty, is_empty_iff, str_eq, eq_iff}
use accelerometer_tcp_json_t.Doubles.{Doubles}
use accelerometer_tcp_json_t.Protocol.{k_role_A, k_role_B}
use accelerometer_tcp_json_t.Server.State.{set_node_a, set_node_b, lock, is_other}
use accelerometer_tcp_json_t.Server.World.{Session, World, alive}
use accelerometer_tcp_json_t.Server.Handlers.{register_role, finish_registration}
use accelerometer_tcp_json_t.Server.Invariant.Defs.{IsSound, Inv}
use accelerometer_tcp_json_t.Server.Invariant.Frames.{note-Frame, Frame-Inv}
use accelerometer_tcp_json_t.Server.Invariant.Changes.{Changes-Inv, Serves}

pub a_not_empty : ◌≢◌ {A = String} k_role_A ""
a_not_empty = ground (arith, eq_iff k_role_A "")

pub b_not_empty : ◌≢◌ {A = String} k_role_B ""
b_not_empty = ground (arith, eq_iff k_role_B "")

pub a_not_b : ◌≢◌ {A = String} k_role_A k_role_B
a_not_b = ground (arith, eq_iff k_role_A k_role_B)

module _ {D : Doubles} where
  given_role-IsSound :
      (s : Session D) (role : String)
      → role ≢ ""
      → (role ≡ k_role_A) ⊎ (role ≡ k_role_B)
      → IsSound s
      → IsSound (record s { role = role })
  given_role-IsSound s role r k h = ground arith

  module _ (w : World D) (i : ℕ) (v : Inv w) (r : (w.sessions i).role ≡ "")
      (c : (w.sessions i).closed ≡ false) where
    roleless : (role : String) → role ≢ "" → ¬ Serves (w.sessions i) role
    roleless role ne x = ne (sym x.0 ∙ r)

    -- Another session in the slot would be open, hence alive.
    pub free_slot :
        (slot : Option ℕ) (j : ℕ)
        → i ≢ j
        → (slot ≡ some j → (w.sessions j).closed ≡ false)
        → is_other (lock (alive w) slot) i ≡ false
        → slot ≢ some j
    free_slot slot j ne open_if e f = ground (arith, (v.sound j).reading)

    set_a-Inv : Inv (finish_registration w i k_role_A (set_node_a (alive w) w.state i))
    unfolding finish_registration set_node_a
    set_a-Inv = elim (Bool-cases (is_other (lock (alive w) w.state.node_a) i)) [
      | inl e ↦ rw e (Frame-Inv (note-Frame w _) v)
      | inr e ↦ rw e (
          Changes-Inv {i = i}
            (record {
              count = refl;
              accepts = refl;
              others = λ j ne. ground arith;
              sound =
                  rw (==_refl i) (given_role-IsSound _ k_role_A a_not_empty (inl refl) (v.sound i));
              shut = rw (==_refl i) (λ h. h);
              own_a = rw (==_refl i) ((λ x. (refl, c)), (λ x. refl));
              own_b = rw (==_refl i) (
                (λ x. absurd (roleless k_role_B b_not_empty ((v.slot_b i).0 x))),
                (λ x. absurd (a_not_b (x.0))),
              );
              other_a = λ j ne. (
                (λ x. absurd (ne (cc))),
                (λ x. absurd (free_slot _ j ne (λ y. ((v.slot_a j).0 y).1) e x)),
              );
              other_b = λ j ne. ((λ x. x), (λ x. x));
            })
            v)
    ]

    set_b-Inv : Inv (finish_registration w i k_role_B (set_node_b (alive w) w.state i))
    unfolding finish_registration set_node_b
    set_b-Inv = elim (Bool-cases (is_other (lock (alive w) w.state.node_b) i)) [
      | inl e ↦ rw e (Frame-Inv (note-Frame w _) v)
      | inr e ↦ rw e (
          Changes-Inv {i = i}
            (record {
              count = refl;
              accepts = refl;
              others = λ j ne. ground arith;
              sound =
                  rw (==_refl i) (given_role-IsSound _ k_role_B b_not_empty (inr refl) (v.sound i));
              shut = rw (==_refl i) (λ h. h);
              own_b = rw (==_refl i) ((λ x. (refl, c)), (λ x. refl));
              own_a = rw (==_refl i) (
                (λ x. absurd (roleless k_role_A a_not_empty ((v.slot_a i).0 x))),
                (λ x. absurd (a_not_b (sym x.0))),
              );
              other_b = λ j ne. (
                (λ x. absurd (ne (cc))),
                (λ x. absurd (free_slot _ j ne (λ y. ((v.slot_b j).0 y).1) e x)),
              );
              other_a = λ j ne. ((λ x. x), (λ x. x));
            })
            v)
    ]

  pub register_role-Inv :
      (w : World D) (i : ℕ) (role : String)
      → ((w.sessions i).role ≡ "" → (w.sessions i).closed ≡ false)
      → Inv w
      → Inv (register_role w i role)
  unfolding register_role
  register_role-Inv w i role opened v = elim (Bool-cases (is_empty (w.sessions i).role)) [
    | inl e ↦
        let r = (is_empty_iff (w.sessions i).role).0 e in
        elim (Bool-cases (str_eq role k_role_A)) [
          | inl a ↦
              rw ((v.sound i).attached, e, a, (eq_iff role k_role_A).0 a)
                (set_a-Inv w i v r (opened r))
          | inr a ↦ elim (Bool-cases (str_eq role k_role_B)) [
            | inl b ↦
                rw ((v.sound i).attached, e, a, b, (eq_iff role k_role_B).0 b)
                  (set_b-Inv w i v r (opened r))
            | inr b ↦ rw ((v.sound i).attached, e, a, b) (Frame-Inv (note-Frame w _) v)
          ]
        ]
    | inr e ↦ rw ((v.sound i).attached, e) (Frame-Inv (note-Frame w _) v)
  ]
