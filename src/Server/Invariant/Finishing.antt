-- ===== src/Server/Invariant/Finishing.antt =====
-- Handlers that close their session and let go of it keep the invariant.
use accelerometer_tcp_json_t.Prelude.{
  ℕ, ◌<◌, ◌≡◌, refl, ◌≢◌, ◌↔◌, ◌∙◌, true, false, String, List, [], some, arith, inl, inr,
  Bool-cases, ==_refl,
}
use accelerometer_tcp_json_t.Doubles.{Doubles}
use accelerometer_tcp_json_t.Server.World.{Session, World, Notice, alive, put, note, has_elements}
use accelerometer_tcp_json_t.Server.Session.{close, shut_down}
use accelerometer_tcp_json_t.Server.Events.{
  closed_after, write_done, Completion, end_read, end_write,
}
use accelerometer_tcp_json_t.Server.Invariant.Defs.{IsSound, Inv}
use accelerometer_tcp_json_t.Server.Invariant.Changes.{Changes-Inv}
use accelerometer_tcp_json_t.Server.Invariant.Closing.{
  close_others, close_fixed, close_closed, close_self, close_self_a, close_self_b, close_other_a,
  close_other_b,
}

module _ {D : Doubles} where
  -- Close in a handler that then lets go of its session, where the world differs from one that has
  -- the invariant in that session only.
  module _ (w w0 : World D) (i : ℕ) (v : Inv w)
      (others : (j : ℕ) → i ≢ j → w0.sessions j ≡ w.sessions j)
      (same : (w0.state ≡ w.state) × (w0.count ≡ w.count) × (w0.accepts ≡ w.accepts))
      (kept : ((w0.sessions i).closed ≡ (w.sessions i).closed) × ((w0.sessions i).has_state ≡ true))
      (living : alive w0 i ≡ true) (finish : Session D → Session D)
      (sound : IsSound (finish ((close w0 i).sessions i)))
      (shut : (finish ((close w0 i).sessions i)).closed ≡ true) where
    slots_after :
        ((close w0 i).state.node_a ≢ some i)
        × ((close w0 i).state.node_b ≢ some i)
        × ((j : ℕ) → i ≢ j → ((close w0 i).state.node_a ≡ some j) ↔ (w.state.node_a ≡ some j))
        × ((j : ℕ) → i ≢ j → ((close w0 i).state.node_b ≡ some j) ↔ (w.state.node_b ≡ some j))
    slots_after = elim (Bool-cases (w0.sessions i).closed) [
      | inl c ↦
          rw (close_closed w0 i c, same.0)
            (
              (λ x. cc (c, kept.0, ((v.slot_a i).0 x).1)),
              (λ x. cc (c, kept.0, ((v.slot_b i).0 x).1)),
              (λ j ne. ((λ x. x), (λ x. x))),
              (λ j ne. ((λ x. x), (λ x. x))),
            )
      | inr c ↦ (
        close_self_a w0 i c kept.1 (λ _. living),
        close_self_b w0 i c kept.1 (λ _. living),
        (λ j ne. rw (← same.0) (close_other_a w0 i c kept.1 j ne)),
        (λ j ne. rw (← same.0) (close_other_b w0 i c kept.1 j ne)),
      )
    ]

    pub closing-Inv : Inv (put (close w0 i) i (finish ((close w0 i).sessions i)))
    closing-Inv =
        Changes-Inv {w = w} {i = i}
          (record {
            count = (close_fixed w0 i).0 ∙ same.1;
            accepts = (close_fixed w0 i).1 ∙ same.2;
            others = λ j ne. ground (arith, close_others w0 i j ne, others j ne);
            sound = rw (==_refl i) sound;
            shut = λ h. rw (==_refl i) shut;
            own_a = rw (==_refl i) ((λ x. absurd (slots_after.0 x)), (λ x. cc (shut, x.1)));
            own_b = rw (==_refl i) ((λ x. absurd (slots_after.1 x)), (λ x. cc (shut, x.1)));
            other_a = slots_after.2;
            other_b = slots_after.3;
          })
          v

  -- The session after Close: as it was, if it was closed before, or closed and its socket shut.
  close_cases :
      (P : Session D → Type 0) (w : World D) (i : ℕ) (s : Session D)
      → w.sessions i ≡ s
      → (s.closed ≡ true → P s)
      → (s.closed ≡ false → P (shut_down (record s { closed = true })))
      → P ((close w i).sessions i)
  close_cases P w i s e before now = elim (Bool-cases s.closed) [
    | inl c ↦ rw (close_closed w i (rw e c), e) (before c)
    | inr c ↦ rw (close_self w i (rw e c), e) (now c)
  ]

  closed_read-IsSound :
      (s : Session D)
      → IsSound s
      → s.closed ≡ false
      → IsSound (end_read (shut_down (record s { closed = true })))
  unfolding shut_down
  closed_read-IsSound s h c = ground arith

  end_read-IsSound : (s : Session D) → IsSound s → s.closed ≡ true → IsSound (end_read s)
  end_read-IsSound s h c = ground arith

  -- The queue that a failed write leaves is empty.
  closed_write-IsSound :
      (s : Session D) (writes : List String)
      → s.writes ≡ writes
      → has_elements s.writes ≡ true
      → IsSound s
      → s.closed ≡ false
      → IsSound (end_write (shut_down (record s { closed = true; write_queue = [] })))
  unfolding shut_down
  closed_write-IsSound s writes e f h c = ground arith

  end_write-IsSound :
      (s : Session D) (writes : List String)
      → s.writes ≡ writes
      → has_elements s.writes ≡ true
      → IsSound s
      → s.closed ≡ true
      → IsSound (end_write (record s { write_queue = [] }))
  end_write-IsSound s writes e f h c = ground arith

  shut_down_closed : (s : Session D) → (shut_down s).closed ≡ s.closed
  unfolding shut_down
  shut_down_closed s = ground arith

  pub close_shuts : (w : World D) (i : ℕ) → ((close w i).sessions i).closed ≡ true
  close_shuts w i =
      close_cases (λ s. s.closed ≡ true) w i (w.sessions i) refl (λ c. c)
        (λ _. shut_down_closed (record (w.sessions i) { closed = true }))

  pub closed_after-Inv :
      (w : World D) (i : ℕ) (n : Notice D)
      → Inv w
      → 0 < (w.sessions i).reads
      → Inv (closed_after w i n)
  closed_after-Inv w i n v r =
      closing-Inv w (note w n) i v (λ j ne. refl) (refl, refl, refl) (refl, (v.sound i).attached)
        (ground arith) end_read
        (close_cases (λ s. IsSound (end_read s)) (note w n) i (w.sessions i) refl
          (end_read-IsSound _ (v.sound i)) (closed_read-IsSound _ (v.sound i)))
        (close_shuts (note w n) i)

  pub write_failed-Inv :
      (w : World D) (i : ℕ) (message : String)
      → Inv w
      → has_elements (w.sessions i).writes ≡ true
      → Inv (write_done w i (Completion.failed message))
  unfolding write_done
  write_failed-Inv w i message v h =
      let s = w.sessions i in
      let emptied = record s { write_queue = [] } in
      closing-Inv w (note (put w i emptied) _) i v (λ j ne. ground arith) (refl, refl, refl)
        (rw (==_refl i) (refl, (v.sound i).attached)) (rw (==_refl i) (ground arith)) end_write
        (close_cases (λ t. IsSound (end_write t)) (note (put w i emptied) _) i emptied
          (rw (==_refl i)) (end_write-IsSound s s.writes refl h (v.sound i))
          (closed_write-IsSound s s.writes refl h (v.sound i)))
        (close_shuts (note (put w i emptied) _) i)
