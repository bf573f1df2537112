-- ===== src/Log/Layout.antt =====
-- The layout of a line of the log.
use netframework.Base.{ℕ, zero, suc, ◌≡◌, refl, ap, [], ◌∷◌, length, length-append, Bytes, ℤ}
use netframework.Log.Digits.{length-write_padded}
use netframework.Log.Line.{
  Clock, posix, windows, stamp, timestamp, windows_timestamp, copy_name, header,
}

length-copy_name : (rounds : ℕ) (filename : Bytes) → length (copy_name rounds filename) ≡ rounds
unfolding copy_name
length-copy_name zero filename = refl
length-copy_name (suc rounds) [] = ap suc (length-copy_name rounds [])
length-copy_name (suc rounds) (c ∷ filename) = ap suc (length-copy_name rounds filename)

length-stamp : (now : Clock) → length (stamp now) ≡ 23
unfolding stamp timestamp windows_timestamp
length-stamp (posix now) = simp (length-append, length-write_padded) refl
length-stamp (windows now) = simp (length-append, length-write_padded) refl

pub length-header :
    (level : ℤ) (file : Bytes) (line : ℤ) (now : Clock) (thread_id : ℤ)
    → length (header level file line now thread_id) ≡ 60
unfolding header
length-header level file line now thread_id =
    simp (length-append, length-stamp, length-write_padded, length-copy_name) refl
