-- ===== src/Server/Invariant/Sending.antt =====
-- Sending and counting keep the invariant of a session.
use accelerometer_tcp_json_t.Prelude.{
  ℕ, ◌≡◌, refl, ap, ◌≢◌, ◌%◌, ◌==◌, Bool, true, false, ◌||◌, not, String, List, [], ◌∷◌, Option,
  none, some, arith, inl, inr, Bool-cases,
}
use accelerometer_tcp_json_t.Doubles.{Doubles}
use accelerometer_tcp_json_t.Json.{Json}
use accelerometer_tcp_json_t.Server.World.{Session, World, Notice}
use accelerometer_tcp_json_t.Server.Session.{enqueue, send_json}
use accelerometer_tcp_json_t.Server.Handlers.{forward, finish_forward, note_fiftieth}
use accelerometer_tcp_json_t.Server.Invariant.Defs.{IsSound}
use accelerometer_tcp_json_t.Server.Invariant.Frames.{
  Similar, Frame, Frame-refl, Frame-trans, note-Frame, put-Frame,
}

module _ {D : Doubles} where
  enqueue-IsSound :
      (s : Session D) (queue : List String) (message : String)
      → s.write_queue ≡ queue
      → s.role ≢ ""
      → s.closed ≡ false
      → IsSound s
      → IsSound (enqueue s message)
  unfolding enqueue
  enqueue-IsSound s [] message e r c h = ground arith
  enqueue-IsSound s (m ∷ q) message e r c h = ground arith

  -- `enqueue` changes the queue and the writes only.
  enqueue_role : (s : Session D) (message : String) → (enqueue s message).role ≡ s.role
  unfolding enqueue
  enqueue_role s message = ground arith

  enqueue_closed : (s : Session D) (message : String) → (enqueue s message).closed ≡ s.closed
  unfolding enqueue
  enqueue_closed s message = ground arith

  pub enqueue-Similar :
      (s : Session D) (message : String)
      → s.role ≢ ""
      → s.closed ≡ false
      → Similar s (enqueue s message)
  enqueue-Similar s message r c = record {
    role = enqueue_role s message;
    closed = enqueue_closed s message;
    sound = enqueue-IsSound s s.write_queue message refl r c;
  }

  pub send_json-Frame :
      (J : Json D) (w : World D) (i : ℕ) (json : J.Value)
      → (w.sessions i).role ≢ ""
      → Frame w (send_json J w i json).0
  unfolding send_json
  send_json-Frame J w i json r =
      elim (Bool-cases ((w.sessions i).closed || not (w.sessions i).socket.is_open)) [
        | inl e ↦ rw e (note-Frame w _)
        | inr e ↦ rw e (put-Frame w i _ (enqueue-Similar (w.sessions i) _ r (ground arith)))
      ]

  -- What the invariant of a session speaks of; the counters and the last packet are not in it.
  abbrev pub wires : Session D → String × Bool × ℕ × List String × List String × Bool × Bool
  wires s = (s.role, s.closed, s.reads, s.writes, s.write_queue, s.socket.is_open, s.has_state)

  pub wires-Similar : (s t : Session D) → wires t ≡ wires s → Similar s t
  wires-Similar s t e = record {
    role = ap (λ w. w.0) e;
    closed = ap (λ w. w.1) e;
    sound = λ h. ground arith;
  }

  pub note_fiftieth-Frame :
      (n : ℕ) (w : World D) (notice : Notice D) → Frame w (note_fiftieth n w notice)
  note_fiftieth-Frame n w notice = elim (Bool-cases (n % 50 == 0)) [
    | inl e ↦ rw e (note-Frame w notice)
    | inr e ↦ rw e (Frame-refl w)
  ]

  -- The sessions that the slots name have a role.
  abbrev pub Registered : World D → Option ℕ → Type 0
  Registered w none = Unit
  Registered w (some i) = (w.sessions i).role ≢ ""

  finish_forward-Frame :
      (w : World D) (i : ℕ) (what : String) (counted : Session D → Session D) (r : World D × Bool)
      → ((s : Session D) → Similar s (counted s))
      → Frame w r.0
      → Frame w (finish_forward i what counted r)
  unfolding finish_forward
  finish_forward-Frame w i what counted (u, true) h f =
      Frame-trans f (put-Frame u i _ (h (u.sessions i)))
  finish_forward-Frame w i what counted (u, false) h f = Frame-trans f (note-Frame u _)

  pub forward-Frame :
      (J : Json D) (w : World D) (i : ℕ) (what : String) (n : ℕ) (target : Option ℕ)
      (json : J.Value) (counted : Session D → Session D)
      → ((s : Session D) → Similar s (counted s))
      → Registered w target
      → Frame w (forward J w i what n target json counted)
  unfolding forward
  forward-Frame J w i what n none json counted h r =
      elim (Bool-cases (not (w.sessions i).has_state)) [
        | inl e ↦ rw e (note-Frame w _)
        | inr e ↦ rw e (note_fiftieth-Frame n w _)
      ]
  forward-Frame J w i what n (some node) json counted h r =
      elim (Bool-cases (not (w.sessions i).has_state)) [
        | inl e ↦ rw e (note-Frame w _)
        | inr e ↦ rw e (finish_forward-Frame w i what counted _ h (send_json-Frame J w node json r))
      ]
