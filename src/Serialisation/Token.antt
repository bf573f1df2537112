-- ===== src/Serialisation/Token.antt =====
-- `nextToken`. The `while` loops hold the byte that was got last; each takes one byte of the
-- stream, so they are recursions on what is left.
use netframework.Base.{
  ℕ, zero, suc, ◌+◌, ◌-◌, Bool, false, not, ◌&&◌, ◌||◌, Option, none, some, [], ◌∷◌, ◌++◌, ◌==◌,
  if◌then◌else◌, Bytes,
}
use netframework.Stream.{IStream, stream, at_end, peek, get}

-- `ret`, and the stream behind the token.
abbrev pub Token : Type 0
Token = Bytes × IStream

abbrev pub step_depth : ℕ → ℕ → ℕ → ℕ → ℕ
step_depth open_brace close_brace c depth =
    if c == open_brace then depth + 1 else if c == close_brace then depth - 1 else depth

-- `while (c != EOF && scopeDepth > 0)` with `c` in hand and `rest` behind it.
unfoldable pub brace_loop : ℕ → ℕ → ℕ → ℕ → Bytes → Bytes → Token
brace_loop open_brace close_brace c zero ret rest = (ret, stream rest)
brace_loop open_brace close_brace c (suc depth) ret [] = (ret ++ c ∷ [], at_end)
brace_loop open_brace close_brace c (suc depth) ret (x ∷ rest) =
    brace_loop open_brace close_brace x (step_depth open_brace close_brace c (suc depth))
      (ret ++ c ∷ []) rest

-- `while (c != EOF && !(c == '"' && !hadBackSlash))`, likewise.
unfoldable pub string_loop : ℕ → Bool → Bytes → Bytes → Token
string_loop c had_back_slash ret [] =
    if c == b'"' && not had_back_slash then (ret, stream []) else (ret ++ c ∷ [], at_end)
string_loop c had_back_slash ret (x ∷ rest) =
    if c == b'"' && not had_back_slash
    then (ret, stream (x ∷ rest))
    else string_loop x (c == b'\\') (ret ++ c ∷ []) rest

-- `while (c != EOF && c != ',')`, likewise.
unfoldable pub plain_loop : ℕ → Bytes → Bytes → Token
plain_loop c ret [] = if c == b',' then (ret, stream []) else (ret ++ c ∷ [], at_end)
plain_loop c ret (x ∷ rest) =
    if c == b',' then (ret, stream (x ∷ rest)) else plain_loop x (ret ++ c ∷ []) rest

-- `if (in.peek() == ',') in.get();`
comma_after : Bytes → Option ℕ × IStream → Token
comma_after ret (none, s) = (ret, s)
comma_after ret (some c, s) = if c == b',' then (ret, (get s).1) else (ret, s)

unfoldable pub skip_comma : Token → Token
unfolding comma_after peek get
skip_comma (ret, s) = comma_after ret (peek s)

unfoldable pub brace_more : ℕ → Option ℕ × IStream → Token
brace_more c (none, s) = (c ∷ [], s)
brace_more c (some x, s) = brace_loop c (if c == b'[' then b']' else b'}') x 1 (c ∷ []) s.rest

unfoldable pub string_more : Option ℕ × IStream → Token
string_more (none, s) = ([], s)
string_more (some x, s) = string_loop x false [] s.rest

unfoldable pub plain_more : Option ℕ × IStream → Token
plain_more (none, s) = ([], s)
plain_more (some x, s) = plain_loop x [] s.rest

unfoldable pub token_at : Option ℕ × IStream → Token
unfolding brace_more string_more plain_more
token_at (none, s) = ([], s)
token_at (some c, s) =
    if c == b'[' || c == b'{'
    then skip_comma (brace_more c (get (get s).1))
    else if c == b'"'
    then skip_comma (string_more (get (get s).1))
    else plain_more (get s)

unfoldable pub next_token : IStream → Token
unfolding token_at skip_comma peek get brace_loop string_loop plain_loop
next_token s = token_at (peek s)
