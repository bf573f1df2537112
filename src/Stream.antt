-- ===== src/Stream.antt =====
-- The `std::istream` calls of lib/serialisation.cpp: what is left to read, and the end-of-file flag.
use netframework.Base.{ℕ, Bool, true, false, Option, none, some, [], ◌∷◌, Bytes}

pub record IStream : Type 0 where
  pub rest : Bytes
  pub eof : Bool

-- `std::istringstream(text)`
abbrev pub stream : Bytes → IStream
stream text = record { rest = text; eof = false }

-- A stream that was read past its end.
abbrev pub at_end : IStream
at_end = record { rest = []; eof = true }

peek_in : Bytes → IStream → Option ℕ × IStream
peek_in [] s = (none, at_end)
peek_in (c ∷ cs) s = (some c, s)

-- `none` is EOF.
unfoldable pub peek : IStream → Option ℕ × IStream
unfolding peek_in
peek s = peek_in s.rest s

get_in : Bytes → IStream → Option ℕ × IStream
get_in [] s = (none, at_end)
get_in (c ∷ cs) s = (some c, record s { rest = cs })

unfoldable pub get : IStream → Option ℕ × IStream
unfolding get_in
get s = get_in s.rest s
