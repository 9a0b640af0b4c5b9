-- ===== src/Client/Reading.antt =====
-- The lines that ReadLine gives do not depend on how the bytes arrive.
use text.Mathlib.TextLemmas.{nil-append}
use accelerometer_tcp_json_t.Prelude.{
  ◌≡◌, refl, ◌∙◌, sym, ap, true, String, List, [], ◌∷◌, ◌++◌, map,
}
use accelerometer_tcp_json_t.Prelude.Text.{◌<>◌}
use accelerometer_tcp_json_t.Prelude.Framing.{
  not_nothing, take_line, AllLines, frames, take_line-frames,
}
use accelerometer_tcp_json_t.Prelude.Parts.{AllComplete, joined, regroup}
use accelerometer_tcp_json_t.Protocol.{Result}
use accelerometer_tcp_json_t.Client.Defs.{TcpClient, Arrival, read_line}

-- A ReadLine for each part of the bytes.
abbrev pub read_lines : TcpClient → List String → TcpClient × List (Result String)
read_lines c [] = (c, [])
read_lines c (part ∷ parts) =
    let first = read_line c (Arrival.arrived part) in
    let rest = read_lines first.0 parts in (rest.0, first.1 ∷ rest.1)

-- What has been read is a first part of the lines, and the rest is still to come.
pub record InOrder (lines : List String) (later : String) (r : TcpClient × List (Result String))
    : Type 0 where
  pub got : List String
  pub rest : List String
  pub all : lines ≡ got ++ rest
  pub results : r.1 ≡ map Result.success got
  pub kept : r.0.input_buf <> later ≡ frames rest

pub read_line-open :
    (c : TcpClient) (part : String)
    → c.is_open ≡ true
    → read_line c (Arrival.arrived part) ≡ (
      record c { input_buf = (take_line (c.input_buf <> part)).1 },
      Result.success (take_line (c.input_buf <> part)).0,
    )
unfolding read_line
read_line-open c part o = rw o

InOrder-cons :
    (l line : String) (ls : List String) (later : String) (r : TcpClient × List (Result String))
    → line ≡ l
    → InOrder ls later r
    → InOrder (l ∷ ls) later (r.0, Result.success line ∷ r.1)
InOrder-cons l line ls later r e i = record {
  got = l ∷ i.got;
  rest = i.rest;
  all = ap (λ k. l ∷ k) i.all;
  results = rw (e, i.results) refl;
  kept = i.kept;
}

-- If a client is connected, and the bytes in its buffer with those sent to it are the frames of some
-- lines, of which each part that it reads completes one, then the calls of ReadLine give the first
-- of these lines in their order and leave the frames of the others, however the bytes are split.
pub read_lines-InOrder :
    (c : TcpClient) (parts lines : List String) (later : String)
    → c.is_open ≡ true
    → AllLines lines
    → AllComplete c.input_buf parts
    → c.input_buf <> (joined parts <> later) ≡ frames lines
    → InOrder lines later (read_lines c parts)
read_lines-InOrder c [] lines later o v h e = record {
  got = [];
  rest = lines;
  all = refl;
  results = refl;
  kept = ap (λ s. c.input_buf <> s) (sym (nil-append later)) ∙ e;
}
read_lines-InOrder c (part ∷ parts) [] later o v h e =
    elim (not_nothing (c.input_buf <> part) (joined parts <> later) h.0
      (regroup c.input_buf part _ later e)) [ ]
read_lines-InOrder c (part ∷ parts) (l ∷ ls) later o v h e =
    let b = c.input_buf <> part in
    let step =
      take_line-frames l (frames ls) b (joined parts <> later) v.0 h.0
        (regroup c.input_buf part _ later e) in
    let reading = read_line-open c part o in
    rw reading (
      InOrder-cons l (take_line b).0 ls later _ step.0 (
        read_lines-InOrder (record c { input_buf = (take_line b).1 }) parts ls later o v.1 h.1
          step.1))
