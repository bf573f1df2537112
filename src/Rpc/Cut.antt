-- ===== src/Rpc/Cut.antt =====
-- A call with one number, from its client to its handler: the digit that is lost on the way.
use netframework.Base.{
  Result-cases, ℕ, zero, suc, ◌+◌, ◌/◌, ◌%◌, ◌^◌, ◌<◌, ltb, Bool, true, false, Bool-cases, lt→ltb,
  inl, inr, [], ◌∷◌, ◌++◌, append-nil, length, length-append, if◌then◌else◌, Bytes, ok, err,
  invalid_argument, ◌>>=◌, pos, ◌≡◌, refl, ◌∙◌, sym, ap, arith,
}
use netframework.Stream.{IStream, stream, at_end, get}
use netframework.Serialisation.Token.{Token, next_token, skip_comma}
use netframework.Serialisation.Number.{digits, to_string, stoi}
use netframework.Serialisation.Number.RoundTrip.{digits-cons}
use netframework.Serialisation.Value.{int, end, member, an_int, nil, cons}
use netframework.Serialisation.Value.Write.{serialize, put, put_all}
use netframework.Serialisation.Value.Read.{
  pop_back, inside, open_deser, deserialize, deserialize_members,
}
use netframework.Serialisation.Value.Fits.{Fits}
use netframework.Serialisation.Value.Scan.{brace_all, Passes, serialize-Passes}
use netframework.Serialisation.Value.Tokens.{last, next_token-brace, brace_more-all}
use netframework.Serialisation.Value.RoundTrip.{deserialize-serialize}
use netframework.Rpc.Call.{call_data, read_data}

digits-append :
    (fuel n : ℕ) (front behind : Bytes)
    → digits fuel n (front ++ behind) ≡ digits fuel n front ++ behind
unfolding digits
digits-append zero n front behind = refl
digits-append (suc fuel) n front behind = elim (Bool-cases (ltb n 10)) [
  | inl small ↦ rw small refl
  | inr large ↦ rw large (digits-append fuel (n / 10) ((48 + n % 10) ∷ front) behind)
]

-- Any fuel above the number gives the same digits.
digits-more :
    (fuel other n : ℕ) (after : Bytes)
    → n < fuel
    → n < other
    → digits fuel n after ≡ digits other n after
unfolding digits
digits-more zero other n after lt lt' = absurd (omega arith)
digits-more (suc fuel) zero n after lt lt' = absurd (omega arith)
digits-more (suc fuel) (suc other) n after lt lt' = elim (Bool-cases (ltb n 10)) [
  | inl small ↦ rw small refl
  | inr large ↦
      rw large
        (digits-more fuel other (n / 10) ((48 + n % 10) ∷ after) (ground arith) (ground arith))
]

-- All but the last digit are the digits of the tenth part.
to_string_tenth :
    (n : ℕ)
    → ltb n 10 ≡ false
    → to_string (pos n) ≡ to_string (pos (n / 10)) ++ ((48 + n % 10) ∷ [])
unfolding to_string digits
to_string_tenth n large =
    let fuel : ℕ = n in
    let one_more : n + 1 ≡ suc n = omega arith in
    rw one_more (
      rw (digits, large)
        (digits-append n (n / 10) [] ((48 + n % 10) ∷ [])
          ∙ ap (λ (ds : Bytes). ds ++ ((48 + n % 10) ∷ []))
              (digits-more n (n / 10 + 1) (n / 10) [] (ground arith) (omega arith))))

to_string_cons :
    (n c : ℕ) (text : Bytes) → digits (n + 1) n [] ≡ c ∷ text → to_string (pos n) ≡ c ∷ text
unfolding to_string
to_string_cons n c text e = e

pop_back-append : (text : Bytes) (c : ℕ) → pop_back (text ++ (c ∷ [])) ≡ text
pop_back-append [] c = refl
pop_back-append (x ∷ []) c = refl
pop_back-append (x ∷ y ∷ text) c = ap (◌∷◌ x) (pop_back-append (y ∷ text) c)

-- The token that an object without its brace is: the whole text.
next_token_unclosed :
    (text : Bytes)
    → Passes b'{' b'}' text
    → next_token (stream (b'{' ∷ text)) ≡ (b'{' ∷ text, at_end)
unfolding brace_all skip_comma
next_token_unclosed text passes =
    let through : brace_all b'{' b'}' 1 (b'{' ∷ []) text ≡ (b'{' ∷ text, at_end) =
      ap (brace_all b'{' b'}' 1 (b'{' ∷ [])) (sym (append-nil text)) ∙ passes 0 (b'{' ∷ []) [] in
    next_token-brace b'{' text refl ∙ ap skip_comma (brace_more-all b'{' text b'}' refl ∙ through)

-- The members of an object of one number.
one_member :
    (s : IStream)
    → (deserialize_members (member int end) s >>= λ r. ok r.0)
      ≡ (deserialize int s >>= λ r. ok (cons r.0 nil))
unfolding deserialize_members
one_member s = elim (Result-cases (deserialize int s)) [
  | inl (read, e) ↦ rw (deserialize_members, e) refl
  | inr (fault, e) ↦ rw (deserialize_members, e) refl
]

-- The stream that the handler reads from.
abbrev unclosed : Bytes → IStream
unclosed text = if ltb 2 (length text) then inside text else stream []

read_unclosed :
    (text : Bytes)
    → Passes b'{' b'}' text
    → read_data (member int end) (b'{' ∷ text)
      ≡ (deserialize int (unclosed (b'{' ∷ text)) >>= λ r. ok (cons r.0 nil))
unfolding read_data open_deser
read_unclosed text passes =
    ap (λ (t : Token). deserialize_members (member int end) (unclosed t.0) >>= λ r. ok r.0)
      (next_token_unclosed text passes)
    ∙ one_member (unclosed (b'{' ∷ text))

unclosed_digit : (n : ℕ) → ltb n 10 ≡ true → unclosed (b'{' ∷ to_string (pos n)) ≡ stream []
unfolding to_string digits
unclosed_digit n small =
    let one_more : n + 1 ≡ suc n = omega arith in rw one_more (rw (digits, small) refl)

unclosed_tenth :
    (n : ℕ)
    → ltb n 10 ≡ false
    → unclosed (b'{' ∷ to_string (pos n)) ≡ stream (to_string (pos (n / 10)))
unfolding get
unclosed_tenth n large =
    let ds = to_string (pos (n / 10)) in
    let (c, text, e, digit) = digits-cons (n / 10 + 1) (n / 10) [] (omega arith) in
    let long : ltb 2 (length (b'{' ∷ (ds ++ ((48 + n % 10) ∷ [])))) ≡ true = lt→ltb 2 _ (
      omega (
        arith,
        length-append ds ((48 + n % 10) ∷ []),
        ap length (to_string_cons (n / 10) c text e),
      )) in
    rw (to_string_tenth n large, long)
      (ap (λ (t : Bytes). (get (stream t)).1) (pop_back-append (b'{' ∷ ds) (48 + n % 10)))

tenth_read :
    (n : ℕ)
    → n < 2 ^ 31
    → deserialize int (stream (to_string (pos n))) ≡ ok (an_int (pos n), at_end)
unfolding Fits serialize
tenth_read n lt =
    ap (λ (text : Bytes). deserialize int (stream text)) (sym (append-nil (to_string (pos n))))
    ∙ deserialize-serialize (an_int (pos n)) int [] at_end lt last

nothing_read : deserialize int (stream []) ≡ err invalid_argument
unfolding deserialize stoi next_token
nothing_read = refl

-- A call whose one argument is an `int` that is not negative: the data that the client sends lack the
-- brace at the end, and what the handler reads of them is the number without its last digit, or
-- an exception where the number has one digit only.
pub read_data-call_data :
    (returned : Bool) (n : ℕ)
    → n < 2 ^ 31
    → read_data
        (member int end)
        (call_data (record { shape = int; returned = returned; value = an_int (pos n) } ∷ []))
      ≡ (if ltb n 10 then err invalid_argument else ok (cons (an_int (pos (n / 10))) nil))
unfolding call_data put put_all serialize Fits
read_data-call_data returned n lt =
    read_unclosed (to_string (pos n))
      (serialize-Passes b'{' b'}' (inr (refl, refl)) (an_int (pos n)) int lt)
    ∙ elim (Bool-cases (ltb n 10)) [
      | inl small ↦ rw (unclosed_digit n small, nothing_read, small) refl
      | inr large ↦ rw (unclosed_tenth n large, tenth_read (n / 10) (omega arith), large) refl
    ]
