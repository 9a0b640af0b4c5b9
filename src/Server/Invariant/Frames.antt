-- ===== src/Server/Invariant/Frames.antt =====
-- Changes that leave roles, slots and lifetimes alone.
use accelerometer_tcp_json_t.Prelude.{ℕ, ◌≡◌, refl, ◌∙◌, subst, inl, inr, ◌==◌, ==_iff, Bool-cases}
use accelerometer_tcp_json_t.Doubles.{Doubles}
use accelerometer_tcp_json_t.Server.World.{Session, World, Notice, put, note}
use accelerometer_tcp_json_t.Server.Invariant.Defs.{IsSound, Inv}

module _ {D : Doubles} where
  pub record Similar (s t : Session D) : Type 0 where
    pub role : t.role ≡ s.role
    pub closed : t.closed ≡ s.closed
    pub sound : IsSound s → IsSound t

  pub record Frame (w u : World D) : Type 0 where
    pub state : u.state ≡ w.state
    pub count : u.count ≡ w.count
    pub accepts : u.accepts ≡ w.accepts
    pub similar : (j : ℕ) → Similar (w.sessions j) (u.sessions j)

  pub Similar-refl : (s : Session D) → Similar s s
  Similar-refl s = record { role = refl; closed = refl; sound = λ h. h }

  pub Similar-trans : {s t u : Session D} → Similar s t → Similar t u → Similar s u
  Similar-trans a b = record {
    role = b.role ∙ a.role;
    closed = b.closed ∙ a.closed;
    sound = λ h. b.sound (a.sound h);
  }

  pub Frame-refl : (w : World D) → Frame w w
  Frame-refl w = record {
    state = refl;
    count = refl;
    accepts = refl;
    similar = λ j. Similar-refl (w.sessions j);
  }

  pub Frame-trans : {w u v : World D} → Frame w u → Frame u v → Frame w v
  Frame-trans a b = record {
    state = b.state ∙ a.state;
    count = b.count ∙ a.count;
    accepts = b.accepts ∙ a.accepts;
    similar = λ j. Similar-trans (a.similar j) (b.similar j);
  }

  pub note-Frame : (w : World D) (n : Notice D) → Frame w (note w n)
  note-Frame w n = record {
    state = refl;
    count = refl;
    accepts = refl;
    similar = λ j. Similar-refl (w.sessions j);
  }

  pub put-Frame :
      (w : World D) (i : ℕ) (s : Session D) → Similar (w.sessions i) s → Frame w (put w i s)
  put-Frame w i s h = record {
    state = refl;
    count = refl;
    accepts = refl;
    similar = λ j. elim (Bool-cases (i == j)) [
      | inl e ↦ rw e (subst (λ k. Similar (w.sessions k) s) ((==_iff i j).0 e) h)
      | inr e ↦ rw e (Similar-refl (w.sessions j))
    ];
  }

  pub Frame-Inv : {w u : World D} → Frame w u → Inv w → Inv u
  Frame-Inv {w} {u} f v = record {
    sound = λ i. (f.similar i).sound (v.sound i);
    unborn = λ i h. (f.similar i).closed ∙ v.unborn i (rw (← f.count) h);
    slot_a = λ i. rw (f.state, (f.similar i).role, (f.similar i).closed) (v.slot_a i);
    slot_b = λ i. rw (f.state, (f.similar i).role, (f.similar i).closed) (v.slot_b i);
    accepting = f.accepts ∙ v.accepting;
  }
