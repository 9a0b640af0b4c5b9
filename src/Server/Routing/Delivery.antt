-- ===== src/Server/Routing/Delivery.antt =====
-- The bytes that the nodes send to the server, and what it sends for them to the other node.
use mathlib.Core.List.{append-nil}
use accelerometer_tcp_json_t.Prelude.{
  ℕ, ◌≡◌, ◌≢◌, refl, sym, ap, ◌∙◌, true, false, String, List, [], ◌∷◌, ◌++◌, subst,
}
use accelerometer_tcp_json_t.Prelude.Text.{◌<>◌, has_newline}
use accelerometer_tcp_json_t.Prelude.Framing.{take_line}
use accelerometer_tcp_json_t.Doubles.{Doubles}
use accelerometer_tcp_json_t.Json.{Json}
use accelerometer_tcp_json_t.Server.World.{World}
use accelerometer_tcp_json_t.Server.Handlers.{handle_line}
use accelerometer_tcp_json_t.Server.Events.{ReadResult, Reach, read_done}
use accelerometer_tcp_json_t.Server.Invariant.{Frame, Frame-refl, Frame-trans}
use accelerometer_tcp_json_t.Server.Routing.Outbox.{Sends, Sends-trans, Silent-Sends, Sends-Silent}
use accelerometer_tcp_json_t.Server.Routing.Kept.{Kept}
use accelerometer_tcp_json_t.Server.Routing.Latest.{buffer_of}
use accelerometer_tcp_json_t.Server.Routing.Reading.{
  left_over, read_over, completed, left_over-Frame, left_over-Silent, left_over-buffer,
  left_over-others, read_over-Frame, read_over-Silent, read_over-buffer, read_done-over, read-Reach,
}

module _ {D : Doubles} (J : Json D) where
  -- Reads of one session that succeed with these parts.
  unfoldable pub receives : World D → ℕ → List String → World D
  receives w i [] = w
  receives w i (part ∷ parts) = receives (read_done J w i (ReadResult.arrived part)) i parts

  -- What reads of the session `i` make of the world, if they send `lines` to `b`.
  pub record Received (w u : World D) (i b : ℕ) (lines : List String) : Type 0 where
    pub reached : Reach J u
    pub frame : Frame w u
    pub sends : Sends w u b lines
    pub buffers : (j : ℕ) → i ≢ j → (u.sessions j).buffer ≡ (w.sessions j).buffer

  pub Received-trans :
      (w u v : World D) (i b : ℕ) (xs ys : List String)
      → Received w u i b xs
      → Received u v i b ys
      → Received w v i b (xs ++ ys)
  Received-trans w u v i b xs ys f g = record {
    reached = g.reached;
    frame = Frame-trans f.frame g.frame;
    sends = Sends-trans w u v b xs ys f.sends g.sends;
    buffers = λ j ne. g.buffers j ne ∙ f.buffers j ne;
  }

  pub Received-none : (w : World D) (i b : ℕ) → Reach J w → Received w w i b []
  Received-none w i b r = record {
    reached = r;
    frame = Frame-refl w;
    sends = record { appended = sym (append-nil _); others = λ j ne. refl };
    buffers = λ j ne. refl;
  }

  -- One read, if HandleLine comes to `h`.
  module _ (w h : World D) (i b : ℕ) (part : String) (lines : List String) (r : Reach J w)
      (opened : (w.sessions i).closed ≡ false)
      (complete : has_newline ((w.sessions i).buffer <> part) ≡ true)
      (handled : handle_line J (left_over w i part) i (completed w i part) ≡ h)
      (frame : Frame (left_over w i part) h) (sends : Sends (left_over w i part) h b lines)
      (buffers : Kept buffer_of (left_over w i part) h) where
    pub read_done_eq : read_done J w i (ReadResult.arrived part) ≡ read_over h i
    read_done_eq = read_done-over w i J part ∙ ap (λ u. read_over u i) handled

    pub read_done-Received : Received w (read_done J w i (ReadResult.arrived part)) i b lines
    read_done-Received = record {
      reached = read-Reach w i J part r opened complete;
      frame =
          subst (Frame w) (sym read_done_eq)
            (Frame-trans (left_over-Frame w i part) (Frame-trans frame (read_over-Frame h i)));
      sends =
          subst (λ u. Sends w u b lines) (sym read_done_eq)
            (Silent-Sends w _ _ b lines (left_over-Silent w i part)
              (Sends-Silent _ h _ b lines sends (read_over-Silent h i)));
      buffers = λ j ne.
          ap (λ u. (u.sessions j).buffer) read_done_eq
          ∙ (read_over-buffer h i).same j
          ∙ buffers.same j
          ∙ left_over-others w i part j ne;
    }

    pub read_done-buffer :
        ((read_done J w i (ReadResult.arrived part)).sessions i).buffer
        ≡ (take_line ((w.sessions i).buffer <> part)).1
    read_done-buffer =
        ap (λ u. (u.sessions i).buffer) read_done_eq
        ∙ (read_over-buffer h i).same i
        ∙ buffers.same i
        ∙ left_over-buffer w i part
