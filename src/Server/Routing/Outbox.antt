-- ===== src/Server/Routing/Outbox.antt =====
-- The outbox of a session: what has gone out to its client, and what waits. Sending appends.
use mathlib.Core.List.{append_assoc}
use accelerometer_tcp_json_t.Prelude.{
  ℕ, ◌≡◌, refl, ◌≢◌, true, false, not, String, List, [], ◌∷◌, ◌++◌, arith, inl, inr, Bool-cases, ap,
  ◌∙◌, sym, ◌&&◌,
}
use accelerometer_tcp_json_t.Prelude.Text.{◌<>◌}
use accelerometer_tcp_json_t.Doubles.{Doubles}
use accelerometer_tcp_json_t.Json.{Json}
use accelerometer_tcp_json_t.Server.World.{Session, World, put, has_elements}
use accelerometer_tcp_json_t.Server.Session.{write_front, write_next_message, enqueue, send_json}
use accelerometer_tcp_json_t.Server.Events.{write_on, take_bytes, end_write, front, drop_front}
use accelerometer_tcp_json_t.Server.Invariant.{IsSound}

front-drop : (q : List String) → front (front q) ++ drop_front q ≡ q
front-drop [] = refl
front-drop (m ∷ q) = refl

module _ {D : Doubles} where
  abbrev pub outbox : Session D → List String
  outbox s = s.socket.sent ++ s.write_queue

  -- No client is sent anything.
  pub record Silent (w u : World D) : Type 0 where
    pub same : (j : ℕ) → outbox (u.sessions j) ≡ outbox (w.sessions j)

  -- One client is sent one line, and no other anything.
  pub record Delivered (w u : World D) (b : ℕ) (line : String) : Type 0 where
    pub appended : outbox (u.sessions b) ≡ outbox (w.sessions b) ++ (line ∷ [])
    pub others : (j : ℕ) → b ≢ j → outbox (u.sessions j) ≡ outbox (w.sessions j)

  -- One client is sent lines, and no other anything.
  pub record Sends (w u : World D) (b : ℕ) (lines : List String) : Type 0 where
    pub appended : outbox (u.sessions b) ≡ outbox (w.sessions b) ++ lines
    pub others : (j : ℕ) → b ≢ j → outbox (u.sessions j) ≡ outbox (w.sessions j)

  pub Sends-trans :
      (w u v : World D) (b : ℕ) (xs ys : List String)
      → Sends w u b xs
      → Sends u v b ys
      → Sends w v b (xs ++ ys)
  Sends-trans w u v b xs ys s t = record {
    appended =
        t.appended ∙ ap (λ o. o ++ ys) s.appended ∙ append_assoc (outbox (w.sessions b)) xs ys;
    others = λ j ne. t.others j ne ∙ s.others j ne;
  }

  pub Silent-Sends :
      (w u v : World D) (b : ℕ) (lines : List String)
      → Silent w u
      → Sends u v b lines
      → Sends w v b lines
  Silent-Sends w u v b lines s t = record {
    appended = t.appended ∙ ap (λ o. o ++ lines) (s.same b);
    others = λ j ne. t.others j ne ∙ s.same j;
  }

  pub Sends-Silent :
      (w u v : World D) (b : ℕ) (lines : List String)
      → Sends w u b lines
      → Silent u v
      → Sends w v b lines
  Sends-Silent w u v b lines s t = record {
    appended = t.same b ∙ s.appended;
    others = λ j ne. t.same j ∙ s.others j ne;
  }

  pub Delivered-Sends :
      (w u v : World D) (b : ℕ) (line : String) (lines : List String)
      → Delivered w u b line
      → Sends u v b lines
      → Sends w v b (line ∷ lines)
  Delivered-Sends w u v b line lines d t =
      Sends-trans w u v b (line ∷ []) lines (record { appended = d.appended; others = d.others }) t

  -- The line that SendJson makes of a value.
  abbrev pub line_of : (J : Json D) → J.Value → String
  line_of J json = J.dump json <> "\n"

  outbox-write_front :
      (s : Session D) (queue : List String) → outbox (write_front s queue) ≡ outbox s
  unfolding write_front
  outbox-write_front s [] = refl
  outbox-write_front s (m ∷ q) = ground arith

  pub outbox-enqueue : (s : Session D) (m : String) → outbox (enqueue s m) ≡ outbox s ++ (m ∷ [])
  unfolding enqueue
  outbox-enqueue s m = elim (Bool-cases (has_elements s.write_queue)) [
    | inl e ↦ rw (e, ← append_assoc)
    | inr e ↦ rw e (
        outbox-write_front _ (s.write_queue ++ (m ∷ []))
        ∙ sym (append_assoc s.socket.sent s.write_queue (m ∷ [])))
  ]

  -- SendJson to an open session succeeds and puts the line at the end of its outbox.
  pub send_json-open :
      (J : Json D) (w : World D) (b : ℕ) (json : J.Value)
      → (w.sessions b).closed ≡ false
      → (w.sessions b).socket.is_open ≡ true
      → send_json J w b json ≡ (put w b (enqueue (w.sessions b) (line_of J json)), true)
  unfolding send_json
  send_json-open J w b json c o = rw (c, o)

  outbox-popped :
      (s : Session D) → outbox (end_write (write_on s)) ≡ s.socket.sent ++ drop_front s.write_queue
  unfolding write_on write_next_message
  outbox-popped s = elim (Bool-cases (not s.closed && has_elements (drop_front s.write_queue))) [
    | inl e ↦ rw e (outbox-write_front _ (drop_front s.write_queue))
    | inr e ↦ rw e
  ]

  busy_front :
      (s : Session D) → has_elements s.writes ≡ true → IsSound s → s.writes ≡ front s.write_queue
  busy_front s h v = elim v.writing [ inl e ↦ cc (h, ap has_elements e) | inr e ↦ e ]

  -- A write that succeeds moves the first message of the queue to what has gone out.
  pub outbox-write_on :
      (s : Session D)
      → has_elements s.writes ≡ true
      → IsSound s
      → outbox (end_write (write_on (take_bytes s))) ≡ outbox s
  outbox-write_on s h v =
      outbox-popped (take_bytes s)
      ∙ rw (busy_front s h v, append_assoc)
          (ap (λ q. s.socket.sent ++ q) (front-drop s.write_queue))
