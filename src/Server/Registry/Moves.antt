-- ===== src/Server/Registry/Moves.antt =====
-- The registry and its moves, and how a world of the server is seen as one.
use accelerometer_tcp_json_t.Prelude.{
  ℕ, suc, ◌≡◌, ◌≢◌, refl, sym, ap, ◌∙◌, ◌⊎◌, String, if◌then◌else◌, inl, inr, Bool-cases, subst,
}
use accelerometer_tcp_json_t.Prelude.Text.{is_empty}
use accelerometer_tcp_json_t.Doubles.{Doubles}
use accelerometer_tcp_json_t.Protocol.{k_role_A, k_role_B}
use accelerometer_tcp_json_t.Server.World.{Session, World}
use accelerometer_tcp_json_t.Server.Invariant.{Frame, Serves}

-- A client is not there, or connected without a role, or a node.
pub data Client : Type 0 where
  absent guest : Client
  node : String → Client

pub record Registry : Type 0 where
  pub clients : ℕ → Client
  -- The number that the next client gets.
  pub count : ℕ

pub data Move (R S : Registry) : Type 0 where
  stays : S.count ≡ R.count → ((j : ℕ) → S.clients j ≡ R.clients j) → Move R S
  -- Numbers are given in order, so that who has left never comes back.
  arrives :
      S.count ≡ suc R.count
      → R.clients R.count ≡ Client.absent
      → S.clients R.count ≡ Client.guest
      → ((j : ℕ) → R.count ≢ j → S.clients j ≡ R.clients j)
      → Move R S
  -- A guest takes a role that no client has.
  joins :
      (i : ℕ) (role : String)
      → (role ≡ k_role_A) ⊎ (role ≡ k_role_B)
      → S.count ≡ R.count
      → R.clients i ≡ Client.guest
      → ((j : ℕ) → R.clients j ≢ Client.node role)
      → S.clients i ≡ Client.node role
      → ((j : ℕ) → i ≢ j → S.clients j ≡ R.clients j)
      → Move R S
  leaves :
      (i : ℕ)
      → S.count ≡ R.count
      → R.clients i ≢ Client.absent
      → S.clients i ≡ Client.absent
      → ((j : ℕ) → i ≢ j → S.clients j ≡ R.clients j)
      → Move R S

-- The registries that moves lead to from the one without clients.
pub data Registers : Registry → Type 0 where
  begins : (R : Registry) → R.count ≡ 0 → ((j : ℕ) → R.clients j ≡ Client.absent) → Registers R
  goes_on : {R S : Registry} → Registers R → Move R S → Registers S

pub record Agrees (R S : Registry) : Type 0 where
  pub counted : S.count ≡ R.count
  pub listed : (j : ℕ) → S.clients j ≡ R.clients j

-- Registries that agree have the same moves.
pub Move-Agrees : {Q R S T : Registry} → Agrees Q R → Move R S → Agrees S T → Move Q T
Move-Agrees e (Move.stays n h) f =
    Move.stays (f.counted ∙ n ∙ e.counted) (λ j. f.listed j ∙ h j ∙ e.listed j)
Move-Agrees {Q} {R} {S} {T} e (Move.arrives n x y h) f =
    Move.arrives (f.counted ∙ n ∙ ap suc e.counted)
      (sym (e.listed Q.count) ∙ subst (λ k. R.clients k ≡ Client.absent) e.counted x)
      (f.listed Q.count ∙ subst (λ k. S.clients k ≡ Client.guest) e.counted y)
      (λ j ne. f.listed j ∙ h j (λ g. ne (sym e.counted ∙ g)) ∙ e.listed j)
Move-Agrees e (Move.joins i role k n x free y h) f =
    Move.joins i role k (f.counted ∙ n ∙ e.counted) (sym (e.listed i) ∙ x)
      (λ j g. free j (e.listed j ∙ g)) (f.listed i ∙ y) (λ j ne. f.listed j ∙ h j ne ∙ e.listed j)
Move-Agrees e (Move.leaves i n x y h) f =
    Move.leaves i (f.counted ∙ n ∙ e.counted) (λ g. x (e.listed i ∙ g)) (f.listed i ∙ y)
      (λ j ne. f.listed j ∙ h j ne ∙ e.listed j)

role_of : Client → String
role_of (Client.node role) = role
role_of c = ""

node_role : {r s : String} → Client.node r ≡ Client.node s → r ≡ s
unfolding role_of
node_role e = ap role_of e

module _ {D : Doubles} where
  abbrev pub standing : Session D → Client
  standing s =
      if s.closed
      then Client.absent
      else if is_empty s.role
      then Client.guest
      else Client.node s.role

  abbrev pub registry : World D → Registry
  registry w = record { clients = λ j. standing (w.sessions j); count = w.count }

  pub Frame-Agrees : {w u : World D} → Frame w u → Agrees (registry w) (registry u)
  Frame-Agrees f = record {
    counted = f.count;
    listed = λ j. rw ((f.similar j).role, (f.similar j).closed) refl;
  }

  pub Frame-Move : {w u : World D} → Frame w u → Move (registry w) (registry u)
  Frame-Move f = let a = Frame-Agrees f in Move.stays a.counted a.listed

  pub standing-node :
      (s : Session D) (role : String) → standing s ≡ Client.node role → Serves s role
  standing-node s role e = elim (Bool-cases s.closed) [
    | inl c ↦ cc (rw c at e)
    | inr c ↦ elim (Bool-cases (is_empty s.role)) [
      | inl z ↦ cc (rw (c, z) at e)
      | inr z ↦ (node_role (rw (c, z) at e), c)
    ]
  ]
