-- ===== src/Log/Examples.antt =====
-- lib/log.h and lib/log.cpp on concrete calls: `LOG_INFO("Hello %1%, %2% of %3%!", "World", -7)`.
use mathlib.Core.List.{List}
use netframework.Base.{
  Bytes, ok, take, drop, true, ◌++◌, ◌≡◌, refl, [], ◌∷◌, codes, pos, negsuc, arith,
}
use netframework.Log.Format.{
  Argument, string, signed, message, format_loop, format_one, no_message, output, select,
  put_argument, push_back,
}
use netframework.Log.Call.{call1, call2}
use netframework.Log.Template.{
  Piece, literal, hole, written, filled, missing, filled_one, format_loop-filled, format_one-filled,
}
use netframework.Log.Line.{Time, posix, header, log_halt, log_impl, halted}
use netframework.Log.Written.{log_impl-header}
use netframework.Serialisation.Number.{to_string, digits}

abbrev arguments : List Argument
arguments = string (codes "ab") ∷ signed (negsuc 6) ∷ []

abbrev template : List Piece
template = literal 72 ∷ hole 50 ∷ literal 32 ∷ hole 49 ∷ hole 51 ∷ []

format_loop-filled_example :
    format_loop arguments (written template) no_message
    ≡ message (filled arguments template) (missing arguments template)
format_loop-filled_example =
    format_loop-filled arguments template [] [] (ground arith, (tt, (ground arith, (tt, (tt, tt)))))

format_one-filled_example :
    format_one (signed (negsuc 6)) (written (literal 72 ∷ hole 49 ∷ literal 32 ∷ hole 49 ∷ [])) []
    ≡ codes "H-7 -7"
unfolding filled_one to_string digits
format_one-filled_example =
    format_one-filled (signed (negsuc 6)) (literal 72 ∷ hole 49 ∷ literal 32 ∷ hole 49 ∷ []) []
      (ground arith, (refl, (ground arith, (refl, tt))))

-- The third placeholder has no argument.
call2_run :
    call2 (codes "H%2% %1%%3%") (string (codes "ab")) (signed (negsuc 6))
    ≡ message (codes "H-7 ab") (b'3' ∷ [])
unfolding format_loop put_argument push_back output select to_string digits
call2_run = refl

call1_run : call1 (codes "x%1%") (string (codes "ab")) ≡ message (codes "xab") []
unfolding format_one output
call1_run = refl

abbrev noon : Time
noon = record {
  tm_year = 119;
  tm_mon = 4;
  tm_mday = 7;
  tm_hour = 12;
  tm_min = 0;
  tm_sec = 5;
  tv_usec = 250000;
}

log_impl-header_example :
    (line : Bytes) × (log_impl true
        (log_halt (codes "lib/log.cpp") 120)
        (posix noon)
        (pos 4711)
        (codes "no memory")
      ≡ ok (halted line))
    × (take 60 line ≡ header (pos 3) (codes "lib/log.cpp") (pos 120) (posix noon) (pos 4711))
    × (drop 60 line ≡ codes "no memory" ++ (b'\n' ∷ []))
log_impl-header_example =
    log_impl-header (log_halt (codes "lib/log.cpp") 120) (posix noon) (pos 4711) (codes "no memory")
      (ground arith) (ground arith)
