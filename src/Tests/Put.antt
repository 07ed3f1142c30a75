-- ===== src/Tests/Put.antt =====
-- Cut buffers put into a file of three lines.
use open_vi.Common.{
  ℕ, true, false, ◌≡◌, ◌++◌, refl, inl, inr, none, some, [], ◌∷◌, arith, length, leb,
}
use open_vi.State.{Line}
use open_vi.Delete.Loop.{at}
use open_vi.Cut.{Cb, Cuts, CutFlags, named, find_cb, cut}
use open_vi.Cut.Names.{content_of}
use open_vi.Put.{put, put_source, put_space, has_room, repeated, left_of, right_of}
use open_vi.Put.Text.{Puts, put-lines}
use open_vi.Put.Empty.{put-cut_failed}
use open_vi.Put.Columns.{put-columns}
use open_vi.Put.Space.{put_space-bound}
use open_vi.Tests.Editor.{services, services-Paints, file-Reliable, opened, opened-IsReady}

abbrev lines_cb : Cb
lines_cb = record {
  name = b'a';
  textq = (b'x' ∷ []) ∷ (b'y' ∷ []) ∷ [];
  len = 2;
  lmode = true;
  stray = false;
}

abbrev columns_cb : Cb
columns_cb = record {
  name = b'c';
  textq = (b'x' ∷ []) ∷ (b'y' ∷ []) ∷ [];
  len = 2;
  lmode = false;
  stray = false;
}

abbrev cuts : Cuts
cuts = record {
  cutq = lines_cb ∷ columns_cb ∷ [];
  dcb_store = record { name = 0; textq = []; len = 0; lmode = false; stray = false };
  dcbp = some (named b'c');
}

abbrev by_line : CutFlags
by_line = record { linemode = true; numopt = false; numreq = false }

-- "ap on line 2.
put-lines_example :
    Puts services services-Paints file-Reliable opened 3
      ((b'a' ∷ []) ∷ (b'b' ∷ b'b' ∷ []) ∷ (b'x' ∷ []) ∷ (b'y' ∷ []) ∷ (b'c' ∷ []) ∷ [])
      (put services none (some b'a') (at 2 0) (at 2 0) true 1 cuts opened)
unfolding put_source
put-lines_example =
    put-lines services services-Paints file-Reliable lines_cb none (some b'a') cuts (at 2 0)
      (at 2 0) true 1 2 opened refl refl opened-IsReady (omega arith) (inl refl)

-- p on the first column of "bb".
put-columns_example :
    Puts services services-Paints file-Reliable opened 2
      ((b'a' ∷ []) ∷ (b'b' ∷ b'x' ∷ []) ∷ (b'y' ∷ b'b' ∷ []) ∷ (b'c' ∷ []) ∷ [])
      (put services none none (at 2 0) (at 2 0) true 1 cuts opened)
unfolding put_source
put-columns_example =
    put-columns services services-Paints file-Reliable columns_cb none none cuts 1 0 (at 2 0) true 1
      (b'x' ∷ []) ((b'y' ∷ []) ∷ []) (b'b' ∷ b'b' ∷ []) opened refl refl refl opened-IsReady refl
      (inr (omega arith)) refl

-- A cut into buffer a of line 9, which is not there.
put-cut_failed_example :
    (content_of (find_cb b'a' (cut (some b'a') (at 9 0) (at 9 0) by_line cuts opened).1.cutq)
      ≡ some [])
    × (put services none
          (some b'a')
          (at 2 0)
          (at 2 0)
          true
          1
          (cut (some b'a') (at 9 0) (at 9 0) by_line cuts opened).1
          opened
        ≡ none)
unfolding cut open_vi.Cut.cut_into open_vi.Cut.cut_twice open_vi.Cut.cut_pass open_vi.Line.db_get
put-cut_failed_example =
    put-cut_failed services file-Reliable b'a' (at 9 0) (at 9 0) by_line cuts opened opened (at 2 0)
      (at 2 0) true 1 (b'b' ∷ b'b' ∷ []) (λ z. omega (arith, z)) (λ z. omega (arith, z)) refl refl
      refl opened-IsReady refl

-- 3p with "xy" in the buffer, on the first column of "bb": eight bytes in the space for five.
put_space-bound_example :
    leb
      (length (
        left_of (at 2 0) true (b'b' ∷ b'b' ∷ [])
        ++ (repeated 3 (b'x' ∷ b'y' ∷ []) ++ right_of (at 2 0) true (b'b' ∷ b'b' ∷ []))))
      (put_space (b'x' ∷ b'y' ∷ []) (b'b' ∷ b'b' ∷ []))
    ≡ false
put_space-bound_example = put_space-bound (at 2 0) true 3 (b'x' ∷ b'y' ∷ []) (b'b' ∷ b'b' ∷ []) refl

-- p on the second column of "c", where there is none: the copy leaves the line.
out_of_line : put services none none (at 3 1) (at 3 1) true 1 cuts opened ≡ none
unfolding put put_source open_vi.Put.put_into open_vi.Put.put_mode open_vi.Put.put_text
    open_vi.Line.db_eget open_vi.Line.db_last open_vi.Line.db_get
out_of_line = refl

-- A new buffer has 256 bytes: they are enough for 200 bytes of the first line, and not for 200 bytes
-- of the last one behind them.
abbrev bytes : ℕ → Line
bytes n = repeated n (b'x' ∷ [])

too_long : has_room 0 (bytes 100) (bytes 200 ∷ []) (bytes 100) (at 1 99) true 1 ≡ false
too_long = refl
