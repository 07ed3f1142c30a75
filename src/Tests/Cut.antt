-- ===== src/Tests/Cut.antt =====
-- Text cut from a file of three lines.
use open_vi.Common.{true, false, ◌≡◌, refl, none, some, List, [], ◌∷◌}
use open_vi.Cut.{Cb, Cuts, CutFlags, find_cb, rotate}
use open_vi.Cut.Names.{content_of, content_of-rotate}

-- Buffer 1 holds "x", buffer a holds "y".
abbrev two_buffers : List Cb
two_buffers =
    record { name = b'1'; textq = (b'x' ∷ []) ∷ []; len = 1; lmode = true; stray = false }
    ∷ record { name = b'a'; textq = (b'y' ∷ []) ∷ []; len = 1; lmode = true; stray = false }
    ∷ []

abbrev cuts : Cuts
cuts = record {
  cutq = two_buffers;
  dcb_store = record { name = 0; textq = []; len = 0; lmode = false; stray = false };
  dcbp = none;
}

-- As a deletion of whole lines asks for it, and as a deletion within lines does.
abbrev by_line : CutFlags
by_line = record { linemode = true; numopt = true; numreq = false }

abbrev by_column : CutFlags
by_column = record { linemode = false; numopt = true; numreq = false }

-- Buffer 2 now holds what buffer 1 held.
content_of-rotate_example : content_of (find_cb b'2' (rotate two_buffers)) ≡ some ((b'x' ∷ []) ∷ [])
content_of-rotate_example = content_of-rotate b'2' two_buffers (refl, (refl, tt))
