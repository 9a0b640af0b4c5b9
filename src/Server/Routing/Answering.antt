-- ===== src/Server/Routing/Answering.antt =====
-- Modules that arrive from Node B as bytes, however they are split.
use accelerometer_tcp_json_t.Prelude.{
  ℕ, ◌≡◌, sym, ap, ◌∙◌, true, String, some, List, [], ◌∷◌, map, subst, arith,
}
use accelerometer_tcp_json_t.Prelude.Text.{◌<>◌, has_newline}
use accelerometer_tcp_json_t.Prelude.Parts.{Carries, Carries-step}
use accelerometer_tcp_json_t.Prelude.Framing.{take_line}
use accelerometer_tcp_json_t.Doubles.{Doubles}
use accelerometer_tcp_json_t.Json.{Json, IsLawful}
use accelerometer_tcp_json_t.Packet.{AccelModule}
use accelerometer_tcp_json_t.Protocol.{
  module_to_json, k_role_B, IsPlainModule, AllModules, module_text, module_text-read,
}
use accelerometer_tcp_json_t.Server.State.{get_node_a}
use accelerometer_tcp_json_t.Server.World.{World, alive}
use accelerometer_tcp_json_t.Server.Handlers.{take_module, handle_line}
use accelerometer_tcp_json_t.Server.Handling.{handle_line-module}
use accelerometer_tcp_json_t.Server.Events.{ReadResult, Reach, read_done}
use accelerometer_tcp_json_t.Server.Invariant.{Inv, Serves, Frame-Inv, take_module-Frame, Reach-Inv}
use accelerometer_tcp_json_t.Server.Routing.Outbox.{line_of, Sends}
use accelerometer_tcp_json_t.Server.Routing.Lines.{node_a-Frame, take_module-some}
use accelerometer_tcp_json_t.Server.Routing.Latest.{take_module-buffer}
use accelerometer_tcp_json_t.Server.Routing.Reading.{left_over, completed, left_over-Frame}
use accelerometer_tcp_json_t.Server.Routing.Delivery.{
  receives, Received, Received-trans, Received-none, read_done-Received, read_done-buffer,
}

module _ {D : Doubles} (J : Json D) where
  -- The lines that Node A is sent for modules.
  abbrev pub module_lines : List (AccelModule D) → List String
  module_lines ms = map (λ m. line_of J (module_to_json J m)) ms

module _ {D : Doubles} (J : Json D) (L : IsLawful J) where
  module _ (w : World D) (i : ℕ) (part : String) (r : Reach J w) (m : AccelModule D)
      (plain : IsPlainModule m) (a : ℕ) (serves : Serves (w.sessions i) k_role_B)
      (node : get_node_a (alive w) w.state ≡ some a)
      (complete : has_newline ((w.sessions i).buffer <> part) ≡ true)
      (whole : completed w i part ≡ module_text J m) where
    left_over-Inv : Inv (left_over w i part)
    left_over-Inv = Frame-Inv (left_over-Frame w i part) (Reach-Inv J r)

    module_handled :
        handle_line J (left_over w i part) i (completed w i part)
        ≡ take_module J (left_over w i part) i m
    module_handled =
        ap (handle_line J (left_over w i part) i) whole
        ∙ handle_line-module J L (left_over w i part) i (module_text J m) m
            (((left_over-Frame w i part).similar i).role ∙ serves.0) (module_text-read J L m plain)

    module_sent :
        Sends
          (left_over w i part)
          (take_module J (left_over w i part) i m)
          a
          (module_lines J (m ∷ []))
    module_sent =
        let d =
          take_module-some J (left_over w i part) i left_over-Inv m a
            (node_a-Frame w _ (Reach-Inv J r) (left_over-Frame w i part) ∙ node) in
        record { appended = d.appended; others = d.others }

    module-Received :
        Received J w (read_done J w i (ReadResult.arrived part)) i a (module_lines J (m ∷ []))
    module-Received =
        read_done-Received J w (take_module J (left_over w i part) i m) i a part _ r serves.1
          complete module_handled (take_module-Frame J _ i m left_over-Inv) module_sent
          (take_module-buffer J _ i m)

    module_buffer :
        ((read_done J w i (ReadResult.arrived part)).sessions i).buffer
        ≡ (take_line ((w.sessions i).buffer <> part)).1
    module_buffer =
        read_done-buffer J w (take_module J (left_over w i part) i m) i a part _ r serves.1 complete
          module_handled (take_module-Frame J _ i m left_over-Inv) module_sent
          (take_module-buffer J _ i m)

  -- If a client is Node B, there is a Node A, and what Node B sends arrives in parts that complete
  -- the lines of modules, one line each, then the server sends Node A these lines in their order,
  -- and nothing to any other client.
  pub modules_delivered :
      (w : World D) (b a : ℕ) (parts : List String) (ms : List (AccelModule D))
      → Reach J w
      → Serves (w.sessions b) k_role_B
      → get_node_a (alive w) w.state ≡ some a
      → AllModules ms
      → Carries (w.sessions b).buffer parts (map (module_text J) ms)
      → Received J w (receives J w b parts) b a (module_lines J ms)
  unfolding receives
  modules_delivered w b a [] [] r s g h c = Received-none J w b a r
  modules_delivered w b a [] (m ∷ ms) r s g h c = absurd (omega (arith, c.all))
  modules_delivered w b a (part ∷ parts) [] r s g h c = absurd (omega (arith, c.all))
  modules_delivered w b a (part ∷ parts) (m ∷ ms) r s g h c =
      let step = Carries-step (L.dump_one_line _) c in
      let u = read_done J w b (ReadResult.arrived part) in
      let first = module-Received w b part r m h.0 a s g c.complete.0 step.0 in
      let similar = first.frame.similar b in
      let after : Carries (u.sessions b).buffer parts (map (module_text J) ms) =
        subst (λ buffer. Carries buffer parts (map (module_text J) ms))
          (sym (module_buffer w b part r m h.0 a s g c.complete.0 step.0)) step.1 in
      Received-trans J w u _ b a _ _ first (
        modules_delivered u b a parts ms first.reached (similar.role ∙ s.0, similar.closed ∙ s.1)
          (node_a-Frame w u (Reach-Inv J r) first.frame ∙ g) h.1 after)
