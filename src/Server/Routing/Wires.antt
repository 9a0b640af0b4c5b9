-- ===== src/Server/Routing/Wires.antt =====
-- What has gone out of a session and what waits there: what the handlers leave of it.
use accelerometer_tcp_json_t.Prelude.{
  ℕ, ◌≡◌, refl, ap, ◌∙◌, inl, inr, true, false, Bool, not, ◌&&◌, Bool-cases, String, List, [], ◌∷◌,
  ◌++◌, arith,
}
use accelerometer_tcp_json_t.Doubles.{Doubles}
use accelerometer_tcp_json_t.Json.{Json}
use accelerometer_tcp_json_t.Server.State.{ServerState}
use accelerometer_tcp_json_t.Server.World.{Session, World, Notice, note, has_elements}
use accelerometer_tcp_json_t.Server.Session.{
  enqueue, write_next_message, write_front, close, shut_down, read_next_line,
}
use accelerometer_tcp_json_t.Server.Handlers.{finish_registration, handle_line}
use accelerometer_tcp_json_t.Server.Cases.{handle_line_cases, register_role_cases}
use accelerometer_tcp_json_t.Server.Events.{end_read, end_write, read_on, write_on, drop_front}
use accelerometer_tcp_json_t.Server.Invariant.{split, close_closed, close_self, close_others}
use accelerometer_tcp_json_t.Server.Routing.Kept.{
  Kept, put-Kept, take_packet-Kept, take_module-Kept,
}

module _ {D : Doubles} where
  abbrev pub sent_of : Session D → List String
  sent_of s = s.socket.sent

  sent-write_front : (s : Session D) (q : List String) → sent_of (write_front s q) ≡ sent_of s
  unfolding write_front
  sent-write_front s [] = refl
  sent-write_front s (m ∷ q) = ground arith

  sent-enqueue : (s : Session D) (m : String) → sent_of (enqueue s m) ≡ sent_of s
  unfolding enqueue write_next_message
  sent-enqueue s m = elim (Bool-cases (has_elements s.write_queue)) [
    | inl e ↦ rw e refl
    | inr e ↦ rw e (sent-write_front _ (s.write_queue ++ (m ∷ [])))
  ]

  finish_registration-sent :
      (w : World D) (i : ℕ) (role : String) (r : ServerState × Bool)
      → Kept sent_of w (finish_registration w i role r)
  unfolding finish_registration
  finish_registration-sent w i role (st, true) = record {
    same = (put-Kept sent_of w i (record (w.sessions i) { role = role }) refl).same;
  }
  finish_registration-sent w i role (st, false) = record { same = λ j. refl }

  pub handle_line-sent :
      (J : Json D) (w : World D) (i : ℕ) (line : String) → Kept sent_of w (handle_line J w i line)
  handle_line-sent J w i line =
      handle_line_cases J (Kept sent_of w) w i (λ n. record { same = λ j. refl }) line
        (λ json role _ _. record {
          same =
              (register_role_cases (Kept sent_of w) (note w (Notice.client_role role)) i role
                (λ n. record { same = λ j. refl })
                (λ r. record {
                  same =
                      (finish_registration-sent (note w (Notice.client_role role)) i role r).same;
                })).same;
        })
        (λ json p _ _ _.
          take_packet-Kept sent_of sent-enqueue J w i p (λ s. refl) (λ s. refl) (λ s. refl))
        (λ json m _ _ _. take_module-Kept sent_of sent-enqueue J w i m (λ s. refl) (λ s. refl))

  -- What has gone out, and what waits.
  abbrev pub wires_of : Session D → List String × List String
  wires_of s = (s.socket.sent, s.write_queue)

  shut_down-wires : (s : Session D) → wires_of (shut_down s) ≡ wires_of s
  unfolding shut_down
  shut_down-wires s = elim (Bool-cases s.socket.is_open) [ inl e ↦ rw e refl | inr e ↦ rw e refl ]

  pub close-wires : (w : World D) (i : ℕ) → Kept wires_of w (close w i)
  close-wires w i = record {
    same =
        split i (λ j. wires_of ((close w i).sessions j) ≡ wires_of (w.sessions j))
          (elim (Bool-cases (w.sessions i).closed) [
            | inl c ↦ ap (λ u. wires_of (u.sessions i)) (close_closed w i c)
            | inr c ↦ ap wires_of (close_self w i c) ∙ shut_down-wires _
          ])
          (λ j ne. ap wires_of (close_others w i j ne));
  }

  pub write_on-sent : (s : Session D) → sent_of (end_write (write_on s)) ≡ sent_of s
  unfolding write_on write_next_message
  write_on-sent s = elim (Bool-cases (not s.closed && has_elements (drop_front s.write_queue))) [
    | inl e ↦ rw e (sent-write_front _ (drop_front s.write_queue))
    | inr e ↦ rw e
  ]

  pub read_on-sent : (s : Session D) → sent_of (end_read (read_on s)) ≡ sent_of s
  unfolding read_on read_next_line
  read_on-sent s = ground arith

  queue-write_front :
      (s : Session D) (q : List String) → (write_front s q).write_queue ≡ s.write_queue
  unfolding write_front
  queue-write_front s [] = refl
  queue-write_front s (m ∷ q) = ground arith

  pub write_on-queue :
      (s : Session D) → (end_write (write_on s)).write_queue ≡ drop_front s.write_queue
  unfolding write_on write_next_message
  write_on-queue s = elim (Bool-cases (not s.closed && has_elements (drop_front s.write_queue))) [
    | inl e ↦ rw e (queue-write_front _ (drop_front s.write_queue))
    | inr e ↦ rw e
  ]
