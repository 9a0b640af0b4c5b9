-- ===== src/Prelude/Framing.antt =====
-- Lines in a buffer: what both sides do with the text that `read_until` has left in it.
use text.Mathlib.TextLemmas.{nil-append, cons-append, append_assoc, cons≢nil}
use mathlib.Core.Path.{◌≡◌, refl, ap, sym, ◌∙◌}
use mathlib.Core.Bool.{true, false}
use mathlib.Core.List.{List, [], ◌∷◌, ◌++◌}
use mathlib.Core.Logic.{◌≢◌}
use Prim.Native.String.{String}
use native.Mathlib.Omega.{arith}
use accelerometer_tcp_json_t.Prelude.Tests.{if◌then◌else◌}
use accelerometer_tcp_json_t.Prelude.Text.{
  ◌<>◌, back_is, pop_back, getline, has_newline, getline-append, getline_splits,
}

-- if (!line.empty() && line.back() == '\r') line.pop_back();
abbrev pub strip_cr : String → String
strip_cr line = if back_is b'\r' line then pop_back line else line

-- Taking a line out of the buffer leaves the rest there.
abbrev pub take_line : String → String × String
take_line buffer = (strip_cr (getline buffer).0, (getline buffer).1)

-- A text that is one line, and is not mistaken for one that ends in "\r\n".
pub record IsLine (l : String) : Type 0 where
  pub one_line : has_newline l ≡ false
  pub no_return : back_is b'\r' l ≡ false

abbrev pub AllLines : List String → Type 0
AllLines [] = Unit
AllLines (l ∷ ls) = IsLine l × AllLines ls

-- The bytes that carry these lines.
abbrev pub frames : List String → String
frames [] = ""
frames (l ∷ ls) = l <> ("\n" <> frames ls)

-- A text without '\n' does not end in one.
pub back_is-one_line : (l : String) → has_newline l ≡ false → back_is b'\n' l ≡ false
unfolding back_is has_newline
back_is-one_line String.[] h = refl
back_is-one_line (String.◌∷◌ c String.[]) h = ground arith
back_is-one_line (String.◌∷◌ c (String.◌∷◌ d s)) h =
    ground (arith, back_is-one_line (String.◌∷◌ d s))

-- Whatever part of the bytes has arrived, the line taken out of it is the first that was framed.
pub take_line-frames :
    (l rest buffer later : String)
    → IsLine l
    → has_newline buffer ≡ true
    → buffer <> later ≡ l <> ("\n" <> rest)
    → ((take_line buffer).0 ≡ l) × ((take_line buffer).1 <> later ≡ rest)
take_line-frames l rest buffer later v h e =
    let split = getline_splits buffer h in
    let g = getline buffer in
    let whole : buffer <> later ≡ g.0 <> ("\n" <> (g.1 <> later)) =
      ap (λ b. b <> later) split.0 ∙ rw (append_assoc, append_assoc) refl in
    let same : (g.0, g.1 <> later) ≡ (l, rest) =
      sym (getline-append g.0 (g.1 <> later) split.1)
      ∙ ap getline (sym whole ∙ e)
      ∙ getline-append l rest v.one_line in
    let line : g.0 ≡ l = ap (λ p. p.0) same in (rw (line, v.no_return) refl, ap (λ p. p.1) same)

pub not_nothing : (b later : String) → has_newline b ≡ true → b <> later ≢ ""
unfolding has_newline
not_nothing String.[] later h e = cc
not_nothing (String.◌∷◌ c s) later h e = cons≢nil (sym (cons-append c s later) ∙ e)

pub AllLines-append : (xs ys : List String) → AllLines (xs ++ ys) → AllLines ys
AllLines-append [] ys a = a
AllLines-append (x ∷ xs) ys a = AllLines-append xs ys a.1

-- What a buffer that has a line gives, of lines that are still to come.
pub record NextLine (buffer later : String) (lines : List String) : Type 0 where
  pub line : String
  pub rest : List String
  pub all : lines ≡ line ∷ rest
  pub taken : (take_line buffer).0 ≡ line
  pub kept : (take_line buffer).1 <> later ≡ frames rest

pub next_line :
    (buffer later : String) (lines : List String)
    → AllLines lines
    → has_newline buffer ≡ true
    → buffer <> later ≡ frames lines
    → NextLine buffer later lines
next_line buffer later [] a h e = elim (not_nothing buffer later h e) [ ]
next_line buffer later (l ∷ ls) a h e =
    let step = take_line-frames l (frames ls) buffer later a.0 h e in
    record { line = l; rest = ls; all = refl; taken = step.0; kept = step.1 }

-- Lines of which nothing is to come are none.
pub frames_empty : (lines : List String) → frames lines ≡ "" → lines ≡ []
unfolding has_newline
frames_empty [] e = refl
frames_empty (String.[] ∷ ls) e =
    absurd (not_nothing "\n" (frames ls) refl (sym (nil-append ("\n" <> frames ls)) ∙ e))
frames_empty (String.◌∷◌ c s ∷ ls) e =
    absurd (cons≢nil (sym (cons-append c s ("\n" <> frames ls)) ∙ e))
