-- ===== src/Log/Template.antt =====
-- What `operator()` makes of a text that is written as a template: literal bytes and placeholders.
use mathlib.Core.List.{List}
use netframework.Base.{
  ℕ, suc, ◌+◌, ◌-◌, leb, get_elem?, Option, Option-cases, some, none, true, if◌then◌else◌,
  Bool-cases, inl, inr, pos, ◌≡◌, ◌≢◌, refl, ◌∙◌, ap, sym, false, [], ◌∷◌, ◌++◌, append_assoc,
  append-nil, ◌==◌, Bytes, arith, All,
}
use netframework.Serialisation.Number.{to_string}
use netframework.Log.Format.{
  double, Argument, output, select, Message, message, percent, put_argument, push_back, format_loop,
  format_one,
}

-- A byte as it is, or the placeholder `%d%`.
pub data Piece : Type 0 where
  literal : ℕ → Piece
  hole : ℕ → Piece

-- The text a template stands for.
unfoldable pub written : List Piece → Bytes
written [] = []
written (literal c ∷ pieces) = c ∷ written pieces
written (hole d ∷ pieces) = percent ∷ d ∷ percent ∷ written pieces

-- A literal byte is no percent sign.
abbrev pub IsPlain : Piece → Type 0
IsPlain (literal c) = c ≢ percent
IsPlain (hole d) = Unit

-- The text that stands for an argument.
abbrev pub argument_text : Argument → Bytes
argument_text (Argument.signed val) = to_string val
argument_text (Argument.unsigned val) = to_string (pos val)
argument_text (Argument.string val) = val
argument_text (double text) = text

-- The argument whose number, from `first` on, is the digit `d`.
abbrev pub argument_at : ℕ → List Argument → ℕ → Option Argument
argument_at first ts d = if leb (b'0' + first) d then get_elem? ts (d - (b'0' + first)) else none

abbrev pub text_at : Option Argument → Bytes
text_at none = []
text_at (some t) = argument_text t

-- The template with the text of the argument `d`, from 1 on, in the place of every hole `d`, and with
-- nothing in the place of one that has no argument.
unfoldable pub filled : List Argument → List Piece → Bytes
filled ts [] = []
filled ts (literal c ∷ pieces) = c ∷ filled ts pieces
filled ts (hole d ∷ pieces) = text_at (argument_at 1 ts d) ++ filled ts pieces

abbrev pub missing_at : ℕ → Option Argument → Bytes
missing_at d none = d ∷ []
missing_at d (some t) = []

-- The holes without an argument.
unfoldable pub missing : List Argument → List Piece → Bytes
missing ts [] = []
missing ts (literal c ∷ pieces) = missing ts pieces
missing ts (hole d ∷ pieces) = missing_at d (argument_at 1 ts d) ++ missing ts pieces

select-argument_at : (ts : List Argument) (first d : ℕ) → select ts first d ≡ argument_at first ts d
unfolding select
select-argument_at [] first d = elim (Bool-cases (leb (b'0' + first) d)) [
  | inl here ↦ rw here refl
  | inr other ↦ rw other refl
]
select-argument_at (t ∷ ts) first d = elim (Bool-cases (d == b'0' + first)) [
  | inl here ↦
      let least : leb (b'0' + first) d ≡ true = ground (arith, here) in
      let start : d - (b'0' + first) ≡ 0 = ground (arith, here) in rw (here, least, start) refl
  | inr other ↦ elim (Bool-cases (leb (b'0' + first) d)) [
    | inl above ↦
        let further : leb (b'0' + suc first) d ≡ true = ground (arith, other, above) in
        let next : d - (b'0' + first) ≡ suc (d - (b'0' + suc first)) =
          ground (arith, other, above) in
        rw (other, select-argument_at ts (suc first) d, above, further, next) refl
    | inr below ↦
        let further : leb (b'0' + suc first) d ≡ false = ground (arith, below) in
        rw (other, select-argument_at ts (suc first) d, below, further) refl
  ]
]

output-append : (t : Argument) (msg : Bytes) → output msg t ≡ msg ++ argument_text t
unfolding output
output-append (Argument.signed val) msg = refl
output-append (Argument.unsigned val) msg = refl
output-append (Argument.string val) msg = refl
output-append (double text) msg = refl

put_argument-at :
    (ts : List Argument) (d : ℕ) (msg unexpected : Bytes)
    → put_argument ts d (message msg unexpected)
      ≡ message
          (msg ++ text_at (argument_at 1 ts d))
          (unexpected ++ missing_at d (argument_at 1 ts d))
unfolding put_argument
put_argument-at ts d msg unexpected = elim (Option-cases (argument_at 1 ts d)) [
  | inl gone ↦ rw (put_argument, select-argument_at ts 1 d, gone, append-nil msg) refl
  | inr (t, here) ↦
      rw (put_argument, select-argument_at ts 1 d, here, append-nil unexpected, output-append t msg)
        refl
]

format_loop-push_back :
    (ts : List Argument) (c : ℕ) (str : Bytes) (m : Message)
    → c ≢ percent
    → format_loop ts (c ∷ str) m ≡ format_loop ts str (push_back c m)
unfolding format_loop
format_loop-push_back ts c [] m plain = refl
format_loop-push_back ts c (d ∷ []) m plain = refl
format_loop-push_back ts c (d ∷ e ∷ str) m plain =
    let no : (c == percent) ≡ false = ground arith in rw (format_loop, no) refl

-- The loop for two or more arguments fills in every template whose literal bytes are no percent
-- signs: the literal bytes stay, and each placeholder `%d%`, whatever byte `d` is, is replaced by the text of
-- the argument whose number is that digit, counted from 1, or left out and reported where there is none.
pub format_loop-filled :
    (ts : List Argument) (pieces : List Piece) (msg unexpected : Bytes)
    → All IsPlain pieces
    → format_loop ts (written pieces) (message msg unexpected)
      ≡ message (msg ++ filled ts pieces) (unexpected ++ missing ts pieces)
unfolding format_loop written filled missing push_back
format_loop-filled ts [] msg unexpected all = rw (append-nil msg, append-nil unexpected) refl
format_loop-filled ts (hole d ∷ pieces) msg unexpected (plain, all) =
    let text = text_at (argument_at 1 ts d) in
    let gone = missing_at d (argument_at 1 ts d) in
    ap (format_loop ts (written pieces)) (put_argument-at ts d msg unexpected)
    ∙ format_loop-filled ts pieces (msg ++ text) (unexpected ++ gone) all
    ∙ rw
        (append_assoc msg text (filled ts pieces), append_assoc unexpected gone (missing ts pieces))
        refl
format_loop-filled ts (literal c ∷ pieces) msg unexpected (plain, all) =
    format_loop-push_back ts c (written pieces) (message msg unexpected) plain
    ∙ format_loop-filled ts pieces (msg ++ (c ∷ [])) unexpected all
    ∙ rw (append_assoc msg (c ∷ []) (filled ts pieces)) refl

-- The template with one text in the place of every hole.
unfoldable pub filled_one : Bytes → List Piece → Bytes
filled_one text [] = []
filled_one text (literal c ∷ pieces) = c ∷ filled_one text pieces
filled_one text (hole d ∷ pieces) = text ++ filled_one text pieces

abbrev pub IsPlainOne : Piece → Type 0
IsPlainOne (literal c) = c ≢ percent
IsPlainOne (hole d) = d ≡ b'1'

format_one-append :
    (t : Argument) (c : ℕ) (str msg : Bytes)
    → c ≢ percent
    → format_one t (c ∷ str) msg ≡ format_one t str (msg ++ (c ∷ []))
unfolding format_one
format_one-append t c [] msg plain = refl
format_one-append t c (d ∷ []) msg plain = refl
format_one-append t c (d ∷ e ∷ str) msg plain =
    let no : (c == percent) ≡ false = ground arith in rw (format_one, no) refl

-- The loop for one argument fills in every template that has only the placeholder `%1%` and no
-- percent sign among its literal bytes: the literal bytes stay, and each placeholder is replaced by the text
-- of the argument.
pub format_one-filled :
    (t : Argument) (pieces : List Piece) (msg : Bytes)
    → All IsPlainOne pieces
    → format_one t (written pieces) msg ≡ msg ++ filled_one (argument_text t) pieces
unfolding format_one written filled_one
format_one-filled t [] msg all = sym (append-nil msg)
format_one-filled t (hole d ∷ pieces) msg (one, all) = rw one (
    format_one-filled t pieces (output msg t) all
    ∙ ap (λ start. start ++ filled_one (argument_text t) pieces) (output-append t msg)
    ∙ append_assoc msg (argument_text t) (filled_one (argument_text t) pieces))
format_one-filled t (literal c ∷ pieces) msg (plain, all) =
    format_one-append t c (written pieces) msg plain
    ∙ format_one-filled t pieces (msg ++ (c ∷ [])) all
    ∙ append_assoc msg (c ∷ []) (filled_one (argument_text t) pieces)
