-- ===== src/Serialisation/Value/RoundTrip.antt =====
-- `deserialize` reads back what `serialize` wrote.
use netframework.Base.{
  ℕ, zero, suc, ◌+◌, ◌≡◌, ◌≢◌, ◌≤◌, ◌<◌, refl, sym, subst, ap, ◌∙◌, true, false, [], ◌∷◌, ◌++◌,
  append-nil, All, length, length-append, ltb, lt→ltb, ℤ, Bytes, arith, Result, ok,
}
use netframework.Stream.{IStream, stream, at_end, peek, get}
use netframework.Serialisation.Token.{next_token, token_at}
use netframework.Serialisation.Number.{to_string}
use netframework.Serialisation.Number.RoundTrip.{stoi-to_string}
use netframework.Serialisation.Value.{
  Shape, int, string, vector, object, Shapes, end, member, Value, an_int, a_string, a_vector,
  an_object, Values, nil, cons,
}
use netframework.Serialisation.Value.Fits.{IsPlain, IsElement, Fits, FitsEach, FitsMembers}
use netframework.Serialisation.Value.Write.{serialize}
use netframework.Serialisation.Value.Read.{
  pop_back, inside, open_deser, sequence_loop, deserialize_sequence, deserialize,
  deserialize_members,
}
use netframework.Serialisation.Value.Texts.{
  joined, joined_after, serialize_vector, serialize_object,
}
use netframework.Serialisation.Value.Tokens.{
  Tail, last, more, content, next_token-value, next_token-plain, to_string-cons,
}

-- The text of a value is not empty and does not begin with a comma.
serialize-cons :
    (v : Value) (shape : Shape)
    → Fits shape v
    → (c : ℕ) × (text : Bytes) × (serialize v ≡ c ∷ text) × (c ≢ b',')
unfolding serialize
serialize-cons (an_int k) shape fits =
    let (c, text, e, n, _) = to_string-cons k in (c, text, e, n.0)
serialize-cons (a_string text) shape fits = (b'"', _, refl, ground arith)
serialize-cons (a_vector vs) shape fits = (b'[', _, serialize_vector vs, ground arith)
serialize-cons (an_object vs) shape fits = (b'{', _, serialize_object vs, ground arith)

abbrev count : Values → ℕ
count nil = 0
count (cons v vs) = suc (count vs)

-- Where the stream stands in front of the values that are left.
abbrev before : Values → IStream
before nil = at_end
before (cons v vs) = stream (joined (cons v vs))

Tail-cons :
    (v : Value) (shape : Shape) (rest : Bytes)
    → Fits shape v
    → Tail (b',' ∷ (serialize v ++ rest)) (stream (serialize v ++ rest))
Tail-cons v shape rest fits =
    let (c, text, e, ne) = serialize-cons v shape fits in rw e (more c (text ++ rest) ne)

Tail-each :
    (vs : Values) (shape : Shape) → FitsEach shape vs → Tail (joined_after false vs) (before vs)
unfolding FitsEach
Tail-each nil shape fits = last
Tail-each (cons v vs) shape fits = Tail-cons v shape (joined_after false vs) fits.0

Tail-members :
    (vs : Values) (shapes : Shapes)
    → FitsMembers shapes vs
    → Tail (joined_after false vs) (before vs)
unfolding FitsMembers
Tail-members nil shapes fits = last
Tail-members (cons v vs) (member shape shapes) fits =
    Tail-cons v shape (joined_after false vs) fits.0
Tail-members (cons v vs) end fits = absurd fits

count-le :
    (vs : Values) (shape : Shape) → FitsEach shape vs → count vs ≤ length (joined_after false vs)
unfolding FitsEach
count-le nil shape fits = omega arith
count-le (cons v vs) shape fits =
    omega (arith, count-le vs shape fits.2, length-append (serialize v) (joined_after false vs))

pop_back-append : (xs : Bytes) (c : ℕ) → pop_back (xs ++ c ∷ []) ≡ xs
pop_back-append [] c = refl
pop_back-append (x ∷ []) c = refl
pop_back-append (x ∷ y ∷ xs) c = ap (◌∷◌ x) (pop_back-append (y ∷ xs) c)

inside-enclosed : (o c : ℕ) (body : Bytes) → inside (o ∷ (body ++ c ∷ [])) ≡ stream body
unfolding get
inside-enclosed o c body = ap (λ (t : Bytes). (get (stream t)).1) (pop_back-append (o ∷ body) c)

next_token-nil : next_token (stream []) ≡ ([], at_end)
unfolding next_token token_at peek
next_token-nil = refl

-- A string without a comma, read again without its quotes.
string-again :
    (text : Bytes)
    → All IsPlain text
    → All (λ c. c ≢ b',') text
    → next_token (stream text) ≡ (text, at_end)
string-again [] plain all = next_token-nil
string-again (c ∷ text) plain all =
    ap (λ (t : Bytes). next_token (stream (c ∷ t))) (sym (append-nil text))
    ∙ next_token-plain c text (ground arith) (ground arith) (ground arith) all last

length-enclosed : (o c : ℕ) (body : Bytes) → length (o ∷ (body ++ c ∷ [])) ≡ length body + 2
length-enclosed o c body = omega (arith, length-append body (c ∷ []))

-- Every element is read back from its token.
abbrev ReadsEach : (IStream → Result (Value × IStream)) → Values → Type 0
ReadsEach read nil = Unit
ReadsEach read (cons v vs) =
    ((s : IStream) × (read (stream (content v)) ≡ ok (v, s))) × ReadsEach read vs

sequence_loop-each :
    (vs : Values) (shape : Shape) (read : IStream → Result (Value × IStream)) (fuel : ℕ)
    → FitsEach shape vs
    → ReadsEach read vs
    → count vs < fuel
    → sequence_loop read fuel (before vs) ≡ ok vs
unfolding sequence_loop FitsEach
sequence_loop-each vs shape read zero fits reads enough = absurd (omega arith)
sequence_loop-each nil shape read (suc fuel) fits reads enough = refl
sequence_loop-each (cons v vs) shape read (suc fuel) fits reads enough = rw (
  next_token-value v shape fits.0 (Tail-each vs shape fits.2),
  reads.0.1,
  sequence_loop-each vs shape read fuel fits.2 reads.1 (omega arith),
)

-- A text in braces that are not next to one another.
enclosed-facts :
    (v : Value) (shape : Shape) (vs : Values) (text : Bytes) (o c : ℕ)
    → Fits shape v
    → text ≡ o ∷ (joined (cons v vs) ++ c ∷ [])
    → (ltb 2 (length text) ≡ true)
      × (inside text ≡ before (cons v vs))
      × (count vs ≤ length (joined_after false vs) → count (cons v vs) < length text + 2)
enclosed-facts v shape vs text o c fits e =
    let (x, rest, begins, _) = serialize-cons v shape fits in
    let size : length text ≡ length (serialize v) + length (joined_after false vs) + 2 =
      ap length e
      ∙ omega (
        arith,
        length-enclosed o c (joined (cons v vs)),
        length-append (serialize v) (joined_after false vs),
      ) in
    let first = ap length begins in
    (
      lt→ltb _ _ (omega (arith, size, first)),
      rw e (inside-enclosed o c (joined (cons v vs))),
      λ few. omega (arith, size, first, few),
    )

deserialize_sequence-each :
    (vs : Values) (shape : Shape) (read : IStream → Result (Value × IStream)) (tail : Bytes)
    (s : IStream)
    → FitsEach shape vs
    → ReadsEach read vs
    → Fits (vector shape) (a_vector vs)
    → Tail tail s
    → deserialize_sequence read (stream (serialize (a_vector vs) ++ tail)) ≡ ok (vs, s)
unfolding deserialize_sequence FitsEach
deserialize_sequence-each nil shape read tail s fits reads whole t =
    rw (next_token-value (a_vector nil) (vector shape) whole t, serialize_vector nil) refl
deserialize_sequence-each (cons v vs) shape read tail s fits reads whole t =
    let (long, body, enough) =
      enclosed-facts v shape vs (serialize (a_vector (cons v vs))) b'[' b']' fits.0
        (serialize_vector (cons v vs)) in
    rw (
      next_token-value (a_vector (cons v vs)) (vector shape) whole t,
      long,
      body,
      sequence_loop-each (cons v vs) shape read _ fits reads (enough (count-le vs shape fits.2)),
    )

serialize_int : (k : ℤ) → serialize (an_int k) ≡ to_string k
unfolding serialize
serialize_int k = refl

-- What is read from the whole text of an element is read from its token too.
content-reads :
    (v : Value) (shape : Shape)
    → Fits shape v
    → IsElement v
    → deserialize shape (stream (serialize v ++ [])) ≡ ok (v, at_end)
    → (s : IStream) × (deserialize shape (stream (content v)) ≡ ok (v, s))
unfolding Fits deserialize
content-reads (a_string text) string fits element h = (at_end, rw (string-again text fits element))
content-reads (an_int k) shape fits element h =
    (at_end, subst (λ t. deserialize shape (stream t) ≡ ok (an_int k, at_end)) (append-nil _) h)
content-reads (a_vector vs) shape fits element h =
    (at_end, subst (λ t. deserialize shape (stream t) ≡ ok (a_vector vs, at_end)) (append-nil _) h)
content-reads (an_object vs) shape fits element h =
    (at_end, subst (λ t. deserialize shape (stream t) ≡ ok (an_object vs, at_end)) (append-nil _) h)
content-reads (a_string text) _ fits element h = absurd fits

mutual
  unfolding deserialize open_deser Fits

  deserialize-value :
      (v : Value) (shape : Shape) (tail : Bytes) (s : IStream)
      → Fits shape v
      → Tail tail s
      → deserialize shape (stream (serialize v ++ tail)) ≡ ok (v, s)
  deserialize-value (an_int k) int tail s fits t =
      rw (next_token-value (an_int k) int fits t, serialize_int k, stoi-to_string k fits)
  deserialize-value (a_string text) string tail s fits t =
      rw (next_token-value (a_string text) string fits t)
  deserialize-value (a_vector vs) (vector shape) tail s fits t = rw (
      deserialize_sequence-each vs shape (deserialize shape) tail s fits
        (each-ReadsEach vs shape fits) fits t)
  deserialize-value (an_object nil) (object end) tail s fits t =
      rw (next_token-value (an_object nil) (object end) fits t)
  deserialize-value (an_object (cons v vs)) (object (member shape shapes)) tail s fits t =
      let (long, body, _) =
        enclosed-facts v shape vs (serialize (an_object (cons v vs))) b'{' b'}' fits.0
          (serialize_object (cons v vs)) in
      rw (
        next_token-value (an_object (cons v vs)) (object (member shape shapes)) fits t,
        long,
        body,
        deserialize_members-all (cons v vs) (member shape shapes) fits,
      )
  deserialize-value _ _ tail s fits t = absurd fits

  each-ReadsEach :
      (vs : Values) (shape : Shape) → FitsEach shape vs → ReadsEach (deserialize shape) vs
  each-ReadsEach nil shape fits = tt
  each-ReadsEach (cons v vs) shape fits = (
    content-reads v shape fits.0 fits.1 (deserialize-value v shape [] at_end fits.0 last),
    each-ReadsEach vs shape fits.2,
  )

  deserialize_members-all :
      (vs : Values) (shapes : Shapes)
      → FitsMembers shapes vs
      → deserialize_members shapes (before vs) ≡ ok (vs, at_end)
  deserialize_members-all nil end fits = refl
  deserialize_members-all (cons v vs) (member shape shapes) fits = rw (
    deserialize-value v shape (joined_after false vs) (before vs) fits.0
        (Tail-members vs shapes fits.1),
    deserialize_members-all vs shapes fits.1,
  )
  deserialize_members-all _ _ fits = absurd fits

-- What `serialize` writes for a value that fits a shape is read back by the `deserialize` of that
-- shape as the same value, at the end of a text and in front of a comma and a next value, and the
-- stream is left at its end or at the next value.
pub deserialize-serialize :
    (v : Value) (shape : Shape) (tail : Bytes) (s : IStream)
    → Fits shape v
    → Tail tail s
    → deserialize shape (stream (serialize v ++ tail)) ≡ ok (v, s)
deserialize-serialize v shape tail s fits t = deserialize-value v shape tail s fits t
