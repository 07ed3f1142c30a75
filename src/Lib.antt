-- ===== src/Lib.antt =====
-- The line store of OpenVi, its change log and undo, the marks, cutting, deleting and putting text,
-- the character stream and the % command, the maps, and the ex commands that copy and move lines,
-- in antt.
--
-- The program. OpenVi keeps the lines of a file in a record database (db/, a copy of the 4.4BSD
-- db(3) library, used as a recno database). common/line.c is the only way to the lines: db_get,
-- db_last and db_exist read them, db_append, db_delete, db_insert and db_set change them, with a
-- cache of one line and a cache of the number of lines in between, and with a look-aside into the
-- lines that are being typed. Each change also goes to common/log.c, which writes it to a second
-- database, the log; to common/mark.c, which moves the marks; to ex_g_insdel of ex/ex_global.c,
-- which moves the ranges that @ and global commands have still to visit; and to the screens.
-- vi/v_undo.c and ex/ex_undo.c roll the log back and forward, which calls the line routines again,
-- with logging off, and sets the marks again. common/delete.c deletes a region of text with them,
-- common/cut.c copies a region into a cut buffer, and common/put.c puts a cut buffer into the text.
-- vi/getc.c reads the lines a character at a time, forwards and backwards, and vi/v_match.c, the %
-- command, walks over the text with it. common/seq.c keeps the maps and abbreviations, a sorted
-- list of its own. The ex commands on lines in ex/ call cut, put, del and the line routines.
--
-- The files.
--   Common          shared names, the Boolean tests, lists counted from 1
--   Recno           the db(3) calls as an interface: what a call that succeeds does to the records.
--                   Recno.Reliable: no call fails. Recno.Memory: a list meets both
--   State           the editor's state: the fields of EXF, SCR and GS that the routines use
--   Line            the readers of common/line.c; Line.Reads: what reading leaves alone, and what it
--                   means for the caches to be right; Line.Refine: what the readers answer;
--                   Line.Typing: db_last during text input; Line.Eget: db_eget
--   Marks           common/mark.c without mark_insdel; Marks.Order: the sorted list;
--                   Marks.Places: setting and getting
--   Ranges          ex_g_insdel; Ranges.Cover: the lines to visit
--   Log             the writers of common/log.c; Log.Frame: what they leave alone; Log.Trail: what
--                   the log holds during a change; Log.Write: how each writer extends it
--   Edit            the changers of common/line.c, scr_update, and mark_insdel, which logs deleted
--                   marks. Edit.Frame and Edit.Stored: the states on the way; Edit.Rows: the lines;
--                   Edit.Caches: the caches; Edit.Faults: the cache after an insertion
--                   that is not logged
--   Roll            log_backward, log_forward and log_setline of common/log.c, v_undo, v_Undo and
--                   ex_undo. Roll.History: the changes that a log tells of; Roll.Edits: making
--                   changes keeps log and lines together; Roll.Back, Roll.Forth: the two loops;
--                   Roll.Changes: sequences of edits; Roll.Undo
--   Delete          common/delete.c; Delete.Loop: its loop; Delete.Parts: its cases;
--                   Delete.Regions: what it leaves of the text
--   Cut             common/cut.c; Cut.Portion, Cut.Area, Cut.Lines: reading the text; Cut.Names: the
--                   list of buffers and its rotation; Cut.Passes: the turns of copyloop; Cut.Buffers:
--                   the names of the buffers; Cut.Region: what is in the buffers after a cut
--   Put             common/put.c, and nonblank of common/util.c; Put.Loop: its loops; Put.Text: line
--                   mode; Put.Glue, Put.Columns: character mode; Put.Back: cut, delete and put; Put.Empty:
--                   a buffer without lines; Put.Space: the space for the first line
--   Stream          vi/getc.c, and v_isempty of vi/v_util.c
--   Match           vi/v_match.c; Match.Cells: the characters of the text and the partner of a bracket;
--                   Match.Hunt: one turn of the loop; Match.Places, Match.Forward,
--                   Match.Backward: the two ways; Match.Bracket, Match.Ending: before and after the
--                   loop; Match.Partner
--   Seq             common/seq.c; Seq.Order: the order of keys; Seq.Lookup: the search; Seq.Sorted: the
--                   order of the list and its bits; Seq.Entries: what the sequences stand for
--   ExLines         ex_copy and ex_move of ex/ex_move.c, and ex_delete, ex_put and ex_yank of ex/;
--                   ExLines.Turn: one turn of the loops of a move; ExLines.Move, ExLines.Copy: what
--                   the lines are afterwards
--   Tests           runs, and the theorems at concrete inputs
--
-- Correspondence. A routine has the name of the C function. Its state is a value of Ed, passed and
-- handed back; a return value 0 is false, 1 is true, and an answer through a pointer is an Option.
-- OOBLNO is 0. A line is the list of its bytes; a log record is a value of LogRec in place of a
-- type byte and a byte string. The linked list of marks is a list, and a pointer into it an index.
-- msgq and ex_emsg record which message they report. vs_change and rcv_init, called by the line
-- routines, are the interface Edit.Services: they read, and change no line, mark or log record. A
-- cut buffer's queue is the list of its lines; a pointer to a cut buffer is its name or that it is
-- the unnamed one. Not every caller sees to it that a column is one of its line: for an address
-- that is an offset from the cursor, ex_put hands put the cursor's column. In put, a read through a
-- null pointer, a copy out of the line and a copy out of the temporary buffer are an answer of
-- none; in cut, a text that was copied from outside its line leaves the mark stray on its buffer,
-- and its bytes are not determined. Lengths in cut and columns in del wrap around as a size_t does.
--
-- Bounds. A line number is a natural number: recno_t has 32 bits, and the databases refuse a record
-- number beyond them. The loop of log_backward is on l_cur, which each turn decrements. The loop of
-- log_forward is on the increments of l_cur that recno_t leaves, 2 ^ 32 - 1 - l_cur; they are
-- enough because the log then ends within the record numbers, a hypothesis where it is used; one
-- more wraps l_cur around to 0, and the log is restarted. The loops over the character stream are
-- on a fuel, and size of the text is enough for that of v_match. The size of the temporary buffer
-- as put finds it is any number, tmp_blen of Edit.Services; it grows as binc lets it, and put
-- answers none where the copies need more.
--
-- Not modelled. Allocation succeeds, so BINC_RET, MALLOC_RET and CALLOC_RET do not return early,
-- and the cache buffer has no size; only put's temporary buffer has one. SC_TINPUT is set exactly
-- while the input queue holds a line. A screen shares the file with others exactly if the view has
-- others. abort() leaves the state as it is. INTERRUPTED is a function from the line number at
-- which `del` asks to its answer. v_undo does not keep the command count for the dot command. The
-- columns of the character stream are columns of their lines. Where del copies from a column behind
-- the end of a line, which its theorems exclude, the copy stops at the end. put is not asked to put
-- lines in front of line 0, where its cp->lno - 1 would wrap around. seq_dump and seq_save print.
-- The ex commands start behind the parser, from the addresses that it gives them. The rest of the
-- editor (the ex parser, the other vi commands, text input, painting, files and recovery, the
-- terminal) is not part of this development, nor are the copies of db, regex and OpenBSD code.
pub mod Common
pub mod Recno
pub mod State
pub mod Line
pub mod Marks
pub mod Ranges
pub mod Log
pub mod Edit
pub mod Roll
pub mod Delete
pub mod Cut
pub mod Put
pub mod Stream
pub mod Match
pub mod Seq
pub mod ExLines
mod Tests
