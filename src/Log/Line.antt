-- ===== src/Log/Line.antt =====
-- lib/log.cpp and lib/log.h, `Log`: the macros, and `Log::log` with the line that is written for a message.
use netframework.Base.{
  replicate, Result, err, undefined, ok, ◌>>=◌, ℕ, zero, suc, ◌+◌, ◌/◌, Bool, true, false, [], ◌∷◌,
  ◌++◌, ◌==◌, if◌then◌else◌, Bytes, ℤ, pos,
}
use netframework.Serialisation.Number.{to_string}
use netframework.Log.Padded.{write_padded, filename_sub_str}

-- The members of `struct tm` that are read, with `tm_year` and `tm_mon` as they are kept, and the
-- microseconds of `struct timeval`.
pub record Time : Type 0 where
  pub tm_year : ℕ
  pub tm_mon : ℕ
  pub tm_mday : ℕ
  pub tm_hour : ℕ
  pub tm_min : ℕ
  pub tm_sec : ℕ
  pub tv_usec : ℕ

abbrev pub space : ℕ
space = b' '

abbrev pub zero_char : ℕ
zero_char = b'0'

unfoldable pub timestamp : Time → Bytes
timestamp now =
    write_padded (pos (1900 + now.tm_year)) 4 space
    ++ (b'-' ∷ write_padded (pos (now.tm_mon + 1)) 2 zero_char)
    ++ (b'-' ∷ write_padded (pos now.tm_mday) 2 zero_char)
    ++ (b' ' ∷ write_padded (pos now.tm_hour) 2 zero_char)
    ++ (b':' ∷ write_padded (pos now.tm_min) 2 zero_char)
    ++ (b':' ∷ write_padded (pos now.tm_sec) 2 zero_char)
    ++ (b'.' ∷ write_padded (pos (now.tv_usec / 1000)) 3 zero_char)

-- `SYSTEMTIME`, of Windows.
pub record SystemTime : Type 0 where
  pub w_year : ℕ
  pub w_month : ℕ
  pub w_day : ℕ
  pub w_hour : ℕ
  pub w_minute : ℕ
  pub w_second : ℕ
  pub w_milliseconds : ℕ

unfoldable pub windows_timestamp : SystemTime → Bytes
windows_timestamp now =
    write_padded (pos now.w_year) 4 space
    ++ (b'-' ∷ write_padded (pos now.w_month) 2 zero_char)
    ++ (b'-' ∷ write_padded (pos now.w_day) 2 zero_char)
    ++ (b' ' ∷ write_padded (pos now.w_hour) 2 zero_char)
    ++ (b':' ∷ write_padded (pos now.w_minute) 2 zero_char)
    ++ (b':' ∷ write_padded (pos now.w_second) 2 zero_char)
    ++ (b'.' ∷ write_padded (pos now.w_milliseconds) 3 zero_char)

-- What the system's clock gives.
pub data Clock : Type 0 where
  posix : Time → Clock
  windows : SystemTime → Clock

unfoldable pub stamp : Clock → Bytes
unfolding timestamp windows_timestamp
stamp (posix now) = timestamp now
stamp (windows now) = windows_timestamp now

-- The loop that copies the name, with a space for each round behind its end.
unfoldable pub copy_name : ℕ → Bytes → Bytes
copy_name zero filename = []
copy_name (suc rounds) [] = space ∷ copy_name rounds []
copy_name (suc rounds) (c ∷ filename) = c ∷ copy_name rounds filename

-- The bytes that are written through `pos`, one behind the other.
unfoldable pub header : ℤ → Bytes → ℤ → Clock → ℤ → Bytes
unfolding stamp copy_name
header level file line now thread_id =
    stamp now
    ++ (b' ' ∷ write_padded level 1 space)
    ++ (b' ' ∷ b't' ∷ b':' ∷ b' ' ∷ write_padded thread_id 4 space)
    ++ (b' ' ∷ copy_name 20 (filename_sub_str file))
    ++ write_padded line 5 space
    ++ (b' ' ∷ [])

-- `c_str()` as a function that takes a C string sees it.
unfoldable pub c_str : Bytes → Bytes
c_str [] = []
c_str (c ∷ text) = let rest = c_str text in if c == 0 then [] else c ∷ rest

-- The zero bytes that `msg.resize(60)` makes room for the header with.
abbrev pub zeros : Bytes
zeros = replicate 60 0

-- Writing through `pos` into the bytes that are there, which go no further than their end.
unfoldable pub write_through : Bytes → Bytes → Result Bytes
write_through [] room = ok room
write_through (c ∷ text) [] = err undefined
write_through (c ∷ text) (_ ∷ room) = do rest ← write_through text room; ok (c ∷ rest)

-- What a call does: nothing where the file is not open, or a line, and after it the failing
-- assertion where the call halts.
pub data Outcome : Type 0 where
  skipped : Outcome
  written halted : Bytes → Outcome

unfoldable pub log : Bool → ℤ → Bytes → ℤ → Bool → Clock → ℤ → Bytes → Result Outcome
unfolding header c_str write_through
log false level file line halt now thread_id msg_content = ok skipped
log true level file line halt now thread_id msg_content = do
  msg ← write_through (header level file line now thread_id) zeros
  ok (
      let text = c_str (msg ++ msg_content) ++ (b'\n' ∷ []) in
      if halt then halted text else written text)

-- `Log`
pub record Log : Type 0 where
  pub log_level : ℕ
  pub filename : Bytes
  pub line_no : ℕ
  pub halt : Bool

-- The macros, with `__FILE__` and `__LINE__`.
abbrev pub log_trace : Bytes → ℕ → Log
log_trace file line = record { log_level = 0; filename = file; line_no = line; halt = false }

abbrev pub log_info : Bytes → ℕ → Log
log_info file line = record { log_level = 1; filename = file; line_no = line; halt = false }

abbrev pub log_warn : Bytes → ℕ → Log
log_warn file line = record { log_level = 2; filename = file; line_no = line; halt = false }

abbrev pub log_halt : Bytes → ℕ → Log
log_halt file line = record { log_level = 3; filename = file; line_no = line; halt = true }

-- `Log::logImpl`, where the file of `LogImpl::instance` is open or not.
unfoldable pub log_impl : Bool → Log → Clock → ℤ → Bytes → Result Outcome
unfolding log
log_impl open_file l now thread_id msg =
    log open_file (pos l.log_level) l.filename (pos l.line_no) l.halt now thread_id msg

-- `getThreadString`, of `getThreadId`.
abbrev pub get_thread_string : ℕ → Bytes
get_thread_string thread_id = to_string (pos thread_id)
