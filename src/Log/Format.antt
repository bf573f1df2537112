-- ===== src/Log/Format.antt =====
-- lib/log.h, `Log::operator()`: the message with its placeholders filled in. A text is its bytes up
-- to the terminating zero.
use mathlib.Core.List.{List}
use netframework.Base.{
  ℕ, suc, ◌+◌, true, false, ◌&&◌, Option, none, some, [], ◌∷◌, ◌++◌, ◌==◌, if◌then◌else◌, Bytes, ℤ,
  pos,
}
use netframework.Serialisation.Number.{to_string}

-- What an overload of `LogDetails::output` takes: a signed or an unsigned integer, a string, also that of
-- `toString`, or a double, as the text that `std::to_string` makes of it.
pub data Argument : Type 0 where
  signed : ℤ → Argument
  unsigned : ℕ → Argument
  string : Bytes → Argument
  double : Bytes → Argument

-- `std::to_string` of an unsigned integer prints it as the signed one.
unfoldable pub output : Bytes → Argument → Bytes
output msg (signed val) = msg ++ to_string val
output msg (unsigned val) = msg ++ to_string (pos val)
output msg (string val) = msg ++ val
output msg (double text) = msg ++ text

-- The message so far, and the placeholders reported on `stderr`.
pub data Message : Type 0 where
  message : (msg unexpected : Bytes) → Message

abbrev pub percent : ℕ
percent = b'%'

-- The chain of tests on `placeHolder`, from the argument that is number `k` on.
unfoldable pub select : List Argument → ℕ → ℕ → Option Argument
select [] k place_holder = none
select (t ∷ ts) k place_holder =
    let later = select ts (suc k) place_holder in if place_holder == b'0' + k then some t else later

unfoldable pub put_argument : List Argument → ℕ → Message → Message
unfolding output select
put_argument ts place_holder (message msg unexpected) = elim (select ts 1 place_holder) [
  | none ↦ message msg (unexpected ++ (place_holder ∷ []))
  | some t ↦ message (output msg t) unexpected
]

unfoldable pub push_back : ℕ → Message → Message
push_back c (message msg unexpected) = message (msg ++ (c ∷ [])) unexpected

-- The loop over the text.
unfoldable pub format_loop : List Argument → Bytes → Message → Message
unfolding put_argument push_back
format_loop ts [] m = m
format_loop ts (c ∷ []) m = push_back c m
format_loop ts (c ∷ d ∷ []) m = push_back d (push_back c m)
format_loop ts (c ∷ d ∷ e ∷ str) m = elim (c == percent && e == percent) [
  | true ↦ format_loop ts str (put_argument ts d m)
  | false ↦ format_loop ts (d ∷ e ∷ str) (push_back c m)
]

-- The loop for one argument, which only looks for `%1%`.
unfoldable pub format_one : Argument → Bytes → Bytes → Bytes
unfolding output
format_one t [] msg = msg
format_one t (c ∷ []) msg = msg ++ (c ∷ [])
format_one t (c ∷ d ∷ []) msg = (msg ++ (c ∷ [])) ++ (d ∷ [])
format_one t (c ∷ d ∷ e ∷ str) msg = elim (c == percent && (d == b'1' && e == percent)) [
  | true ↦ format_one t str (output msg t)
  | false ↦ format_one t (d ∷ e ∷ str) (msg ++ (c ∷ []))
]

abbrev pub no_message : Message
no_message = message [] []
