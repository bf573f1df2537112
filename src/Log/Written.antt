-- ===== src/Log/Written.antt =====
-- The text of a line of the log, which is written as a C string.
use netframework.Base.{
  ok, take, subst, take-append, drop-append, append_assoc, ℕ, zero, suc, ◌<◌, ◌/◌, get_elem?, ◌+◌,
  ◌&&◌, ◌==◌, ltb, Bool, true, false, Bool-cases, inl, inr, [], ◌∷◌, ◌++◌, if◌then◌else◌, All, drop,
  length, Bytes, ℤ, pos, negsuc, ◌≡◌, refl, arith,
}
use netframework.Log.Padded.{
  tenth, digit_char, is_zero, padded_loop, write_padded, filename_from, filename_sub_str,
  is_separator,
}
use netframework.Log.Layout.{length-header}
use netframework.Log.Line.{
  Clock, posix, windows, stamp, timestamp, windows_timestamp, copy_name, header, zeros,
  write_through, c_str, Outcome, written, halted, log, Log, log_impl,
}

-- No byte is the terminating zero.
abbrev pub IsText : Bytes → Type 0
IsText = All (λ c. 0 < c)

IsText-append : (left right : Bytes) → IsText left → IsText right → IsText (left ++ right)
IsText-append [] right l r = r
IsText-append (c ∷ left) right l r = (l.0, IsText-append left right l.1 r)

IsText-drop : (n : ℕ) (text : Bytes) → IsText text → IsText (drop n text)
IsText-drop zero text t = t
IsText-drop (suc n) [] t = tt
IsText-drop (suc n) (c ∷ text) t = IsText-drop n text t.1

digit_char-positive : (number : ℤ) → 0 < digit_char number
unfolding digit_char
digit_char-positive (pos n) = omega arith
digit_char-positive (negsuc n) = omega arith

padded_loop-IsText :
    (rounds i : ℕ) (number : ℤ) (pad : ℕ) (dest : Bytes)
    → 0 < pad
    → IsText dest
    → IsText (padded_loop rounds i number pad dest)
unfolding padded_loop
padded_loop-IsText zero i number pad dest visible t = t
padded_loop-IsText (suc rounds) i number pad dest visible t =
    elim (Bool-cases (is_zero number && ltb 0 i)) [
      | inl padding ↦
          rw (padded_loop, padding)
            (padded_loop-IsText rounds (suc i) number pad (pad ∷ dest) visible (visible, t))
      | inr writing ↦
          rw (padded_loop, writing)
            (padded_loop-IsText rounds (suc i) (tenth number) pad (digit_char number ∷ dest) visible
              (digit_char-positive number, t))
    ]

write_padded-IsText :
    (number : ℤ) (width pad : ℕ) → 0 < pad → IsText (write_padded number width pad)
unfolding write_padded
write_padded-IsText number width pad visible = padded_loop-IsText width 0 number pad [] visible tt

filename_from-IsText : (at : ℕ) (file : Bytes) → IsText file → IsText (filename_from at file)
unfolding filename_from
filename_from-IsText zero file t = t
filename_from-IsText (suc at) file t = elim (Bool-cases (is_separator (get_elem? file (suc at)))) [
  | inl here ↦ rw (filename_from, here) (IsText-drop (suc (suc at)) file t)
  | inr further ↦ rw (filename_from, further) (filename_from-IsText at file t)
]

copy_name-IsText :
    (rounds : ℕ) (filename : Bytes) → IsText filename → IsText (copy_name rounds filename)
unfolding copy_name
copy_name-IsText zero filename t = tt
copy_name-IsText (suc rounds) [] t = (omega arith, copy_name-IsText rounds [] t)
copy_name-IsText (suc rounds) (c ∷ filename) t = (t.0, copy_name-IsText rounds filename t.1)

-- A separator and a number of the time.
abbrev put_number : ℕ → ℕ → ℕ → Bytes
put_number separator width n = separator ∷ write_padded (pos n) width b'0'

put_number-IsText : (separator width n : ℕ) → 0 < separator → IsText (put_number separator width n)
put_number-IsText separator width n visible =
    (visible, write_padded-IsText (pos n) width b'0' (omega arith))

put_after :
    (separator width n : ℕ) (left : Bytes)
    → 0 < separator
    → IsText left
    → IsText (left ++ put_number separator width n)
put_after separator width n left visible l =
    IsText-append left (put_number separator width n) l
      (put_number-IsText separator width n visible)

fields-IsText :
    (year month day hour minute second millisecond : ℕ)
    → IsText (
        write_padded (pos year) 4 b' '
        ++ put_number b'-' 2 month
        ++ put_number b'-' 2 day
        ++ put_number b' ' 2 hour
        ++ put_number b':' 2 minute
        ++ put_number b':' 2 second
        ++ put_number b'.' 3 millisecond)
fields-IsText year month day hour minute second millisecond =
    put_after b'.' 3 millisecond _ (omega arith) (
      put_after b':' 2 second _ (omega arith) (
        put_after b':' 2 minute _ (omega arith) (
          put_after b' ' 2 hour _ (omega arith) (
            put_after b'-' 2 day _ (omega arith) (
              put_after b'-' 2 month _ (omega arith)
                (write_padded-IsText (pos year) 4 b' ' (omega arith)))))))

stamp-IsText : (now : Clock) → IsText (stamp now)
unfolding stamp timestamp windows_timestamp
stamp-IsText (posix now) =
    fields-IsText (1900 + now.tm_year) (now.tm_mon + 1) now.tm_mday now.tm_hour now.tm_min
      now.tm_sec (now.tv_usec / 1000)
stamp-IsText (windows now) =
    fields-IsText now.w_year now.w_month now.w_day now.w_hour now.w_minute now.w_second
      now.w_milliseconds

header-IsText :
    (level : ℤ) (file : Bytes) (line : ℤ) (now : Clock) (thread_id : ℤ)
    → IsText file
    → IsText (header level file line now thread_id)
unfolding header filename_sub_str
header-IsText level file line now thread_id t =
    let visible : 0 < b' ' = omega arith in
    let marked : IsText (b' ' ∷ b't' ∷ b':' ∷ b' ' ∷ write_padded thread_id 4 b' ') = (
      visible,
      (omega arith, (omega arith, (visible, write_padded-IsText thread_id 4 b' ' visible))),
    ) in
    let named : IsText (b' ' ∷ copy_name 20 (filename_sub_str file)) = (
      visible,
      copy_name-IsText 20 (filename_sub_str file) (filename_from-IsText (length file) file t),
    ) in
    IsText-append _ (b' ' ∷ [])
      (IsText-append _ (write_padded line 5 b' ')
        (IsText-append _ (b' ' ∷ copy_name 20 (filename_sub_str file))
          (IsText-append _ (b' ' ∷ b't' ∷ b':' ∷ b' ' ∷ write_padded thread_id 4 b' ')
            (IsText-append (stamp now) (b' ' ∷ write_padded level 1 b' ') (stamp-IsText now)
              (visible, write_padded-IsText level 1 b' ' visible))
            marked)
          named)
        (write_padded-IsText line 5 b' ' visible))
      (visible, tt)

c_str-IsText : (text : Bytes) → IsText text → c_str text ≡ text
unfolding c_str
c_str-IsText [] t = refl
c_str-IsText (c ∷ text) t =
    let visible : (c == 0) ≡ false = ground (arith, t.0) in rw (c_str-IsText text t.1, visible) refl

abbrev pub ended : Bool → Bytes → Outcome
ended false text = written text
ended true text = halted text

end :
    (halts : Bool) (text : Bytes)
    → ok (if halts then halted text else written text) ≡ ok (ended halts text)
end true text = refl
end false text = refl

-- A text that is as long as the room fills it.
write_through-length :
    (text room : Bytes) → length text ≡ length room → write_through text room ≡ ok text
unfolding write_through
write_through-length [] [] e = refl
write_through-length [] (c ∷ room) e = absurd (omega (arith, e))
write_through-length (c ∷ text) [] e = absurd (omega (arith, e))
write_through-length (c ∷ text) (d ∷ room) e =
    rw (write_through-length text room (omega (arith, e))) refl

-- Where the file is open, a call of one of the macros whose file name and message hold no zero byte writes
-- the whole line, on both kinds of system: the header, which is written into the 60 zero bytes and leaves
-- none of them, then from its 61st byte on the message, of which nothing is cut off, and the end of the
-- line; and it halts where the macro is `LOG_HALT`.
pub log_impl-header :
    (l : Log) (now : Clock) (thread_id : ℤ) (msg : Bytes)
    → IsText l.filename
    → IsText msg
    → (line : Bytes) × (log_impl true l now thread_id msg ≡ ok (ended l.halt line))
      × (take 60 line ≡ header (pos l.log_level) l.filename (pos l.line_no) now thread_id)
      × (drop 60 line ≡ msg ++ (b'\n' ∷ []))
unfolding log_impl log
log_impl-header l now thread_id msg named plain =
    let top = header (pos l.log_level) l.filename (pos l.line_no) now thread_id in
    let long : length top ≡ 60 =
      length-header (pos l.log_level) l.filename (pos l.line_no) now thread_id in
    let filled : write_through top zeros ≡ ok top =
      (let room : length zeros ≡ 60 = refl in
        write_through-length top zeros (omega (arith, long, room))) in
    let whole : c_str (top ++ msg) ≡ top ++ msg = c_str-IsText (top ++ msg) (
      IsText-append top msg
        (header-IsText (pos l.log_level) l.filename (pos l.line_no) now thread_id named) plain) in
    let apart : (top ++ msg) ++ (b'\n' ∷ []) ≡ top ++ (msg ++ (b'\n' ∷ [])) =
      append_assoc top msg (b'\n' ∷ []) in
    (
      top ++ (msg ++ (b'\n' ∷ [])),
      rw (filled, whole, apart) (end l.halt (top ++ (msg ++ (b'\n' ∷ [])))),
      subst (λ n. take n (top ++ (msg ++ (b'\n' ∷ []))) ≡ top) long
          (take-append top (msg ++ (b'\n' ∷ []))),
      subst (λ n. drop n (top ++ (msg ++ (b'\n' ∷ []))) ≡ msg ++ (b'\n' ∷ [])) long
          (drop-append top (msg ++ (b'\n' ∷ []))),
    )
