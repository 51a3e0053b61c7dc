-- ===== src/Base/Scanner.antt =====
-- bufio.Scanner of Go over the lines of a text, with its buffer of 64 KiB.
use Prim.Native.Nat.{ℕ}
use mathlib.Core.Option.{Option, none, some}
use mathlib.Core.List.{List, [], ◌∷◌}
use dns_automatic_traffic_sp.Base.Tests.{ltb, ◌==◌, if◌then◌else◌}
use dns_automatic_traffic_sp.Base.Lists.{length}
use dns_automatic_traffic_sp.Base.Text.{Text, trim_suffix}

-- The texts between line feeds: the first one, and the others.
unfoldable pub segments : Text → Text × List Text
segments [] = ([], [])
segments (c ∷ s) = let (w, ws) = segments s in if c == 10 then ([], w ∷ ws) else (c ∷ w, ws)

abbrev pub drop_last_empty : Text → List Text → List Text
drop_last_empty [] [] = []
drop_last_empty (c ∷ s) [] = (c ∷ s) ∷ []
drop_last_empty s (t ∷ ts) = s ∷ drop_last_empty t ts

-- bufio.ScanLines: a carriage return before the line feed is taken off, and no empty line follows
-- the last line feed.
abbrev pub drop_cr : Text → Text
drop_cr line = trim_suffix line 13

-- bufio.MaxScanTokenSize: a line of so many bytes, its carriage return included, does not fit into
-- the buffer.
abbrev pub max_token : ℕ
max_token = 65536

-- bufio.ErrTooLong
pub data ScanError : Type 0 where
  too_long : ScanError

-- What the scanner returns before it stops, and its error.
abbrev pub Scanned : Type 0
Scanned = List Text × Option ScanError

abbrev pub bounded_lines : List Text → Scanned
bounded_lines [] = ([], none)
bounded_lines (line ∷ lines) =
    let (rest, err) = bounded_lines lines in
    if ltb (length line) max_token then (drop_cr line ∷ rest, err) else ([], some too_long)

unfoldable pub scan_lines : Text → Scanned
unfolding segments
scan_lines s = let (w, ws) = segments s in bounded_lines (drop_last_empty w ws)
