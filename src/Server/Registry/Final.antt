-- ===== src/Server/Registry/Final.antt =====
-- What moves never take back: a role, and a departure.
use accelerometer_tcp_json_t.Prelude.{ℕ, ◌<◌, ◌≡◌, refl, sym, ◌⊎◌, arith, inl, inr, subst}
use accelerometer_tcp_json_t.Doubles.{Doubles}
use accelerometer_tcp_json_t.Json.{Json}
use accelerometer_tcp_json_t.Server.World.{World}
use accelerometer_tcp_json_t.Server.Events.{Step, Reach}
use accelerometer_tcp_json_t.Server.Invariant.{Reach-Inv, split}
use accelerometer_tcp_json_t.Server.Registry.Moves.{Client, Registry, Move, standing}
use accelerometer_tcp_json_t.Server.Registry.Steps.{Step-Move}

-- What can become of a client: who has left stays away, and a node keeps its role until it leaves.
abbrev pub Later : Client → Client → Type 0
Later Client.absent d = d ≡ Client.absent
Later Client.guest d = Unit
Later (Client.node role) d = (d ≡ Client.node role) ⊎ (d ≡ Client.absent)

Later-refl : (c : Client) → Later c c
Later-refl Client.absent = refl
Later-refl Client.guest = tt
Later-refl (Client.node role) = inl refl

Later-absent : (c : Client) → Later c Client.absent
Later-absent Client.absent = refl
Later-absent Client.guest = tt
Later-absent (Client.node role) = inr refl

Later-same : {c d : Client} → d ≡ c → Later c d
Later-same {c} e = subst (Later c) (sym e) (Later-refl c)

Move-Later : {R S : Registry} → Move R S → (j : ℕ) → j < R.count → Later (R.clients j) (S.clients j)
Move-Later (Move.stays n h) j l = Later-same (h j)
Move-Later (Move.arrives n x y h) j l = Later-same (h j (λ e. omega (arith, l, e)))
Move-Later {R} {S} (Move.joins i role k n x free y h) j l =
    split i (λ m. Later (R.clients m) (S.clients m)) (subst (λ c. Later c (S.clients i)) (sym x) tt)
      (λ m ne. Later-same (h m ne)) j
Move-Later {R} {S} (Move.leaves i n x y h) j l =
    split i (λ m. Later (R.clients m) (S.clients m))
      (subst (Later (R.clients i)) (sym y) (Later-absent (R.clients i)))
      (λ m ne. Later-same (h m ne)) j

module _ {D : Doubles} (J : Json D) where
  -- In no step of a running server does a client that has connected change a role that it has, or
  -- come back after it has left.
  pub roles_are_final :
      {w u : World D}
      → Reach J w
      → Step J w u
      → (j : ℕ) → j < w.count
      → Later (standing (w.sessions j)) (standing (u.sessions j))
  roles_are_final r st j l = Move-Later (Step-Move J (Reach-Inv J r) st) j l
