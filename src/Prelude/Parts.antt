-- ===== src/Prelude/Parts.antt =====
-- Bytes that arrive in parts, each of which completes a line.
use text.Mathlib.TextLemmas.{append_assoc}
use mathlib.Core.Path.{◌≡◌, ap, sym, ◌∙◌}
use mathlib.Core.Bool.{true}
use mathlib.Core.List.{List, [], ◌∷◌}
use Prim.Native.String.{String}
use native.Mathlib.Omega.{arith}
use accelerometer_tcp_json_t.Prelude.Lists.{length}
use accelerometer_tcp_json_t.Prelude.Text.{◌<>◌, has_newline}
use accelerometer_tcp_json_t.Prelude.Framing.{take_line, frames, IsLine, take_line-frames}

-- Each part has completed a line of the buffer, as `read_until` sees to.
abbrev pub AllComplete : String → List String → Type 0
AllComplete buffer [] = Unit
AllComplete buffer (part ∷ parts) =
    (has_newline (buffer <> part) ≡ true) × AllComplete (take_line (buffer <> part)).1 parts

abbrev pub joined : List String → String
joined [] = ""
joined (part ∷ parts) = part <> joined parts

pub regroup :
    (b part rest later : String) {t : String}
    → b <> ((part <> rest) <> later) ≡ t
    → (b <> part) <> (rest <> later) ≡ t
regroup b part rest later e =
    append_assoc b part (rest <> later) ∙ ap (λ s. b <> s) (sym (append_assoc part rest later)) ∙ e

-- These parts complete the lines, one line each, and have nothing besides.
pub record Carries (buffer : String) (parts lines : List String) : Type 0 where
  pub complete : AllComplete buffer parts
  pub whole : buffer <> joined parts ≡ frames lines
  pub all : length parts ≡ length lines

-- What the first part completes is the first line, and the rest carries the others.
pub Carries-step :
    {buffer part line : String} {parts lines : List String}
    → IsLine line
    → Carries buffer (part ∷ parts) (line ∷ lines)
    → ((take_line (buffer <> part)).0 ≡ line) × Carries (take_line (buffer <> part)).1 parts lines
Carries-step {buffer} {part} {line} {parts} {lines} v c =
    let step =
      take_line-frames line (frames lines) (buffer <> part) (joined parts) v c.complete.0
        (append_assoc buffer part (joined parts) ∙ c.whole) in
    (step.0, record { complete = c.complete.1; whole = step.1; all = omega (arith, c.all) })
