-- ===== src/Serialisation/Value/Tokens.antt =====
-- `nextToken` on the text of a value, at the end of a text or in front of a comma.
use netframework.Base.{
  ℕ, ◌+◌, ◌≡◌, ◌≢◌, inl, inr, refl, subst, ap, ◌∙◌, true, false, [], ◌∷◌, ◌++◌, append_assoc, All,
  if◌then◌else◌, ◌==◌, ◌||◌, Bytes, arith, pos, negsuc, ℤ,
}
use netframework.Stream.{IStream, stream, at_end, peek, get}
use netframework.Serialisation.Token.{
  brace_loop, string_loop, plain_loop, skip_comma, next_token, brace_more, string_more, plain_more,
  token_at,
}
use netframework.Serialisation.Number.{to_string}
use netframework.Serialisation.Number.RoundTrip.{IsDigit, digits-IsDigit, digits-cons}
use netframework.Serialisation.Value.{
  Shape, string, vector, object, Value, an_int, a_string, a_vector, an_object,
}
use netframework.Serialisation.Value.Fits.{IsPlain, Fits}
use netframework.Serialisation.Value.Write.{serialize}
use netframework.Serialisation.Value.Texts.{
  joined, escape_plain, serialize_vector, serialize_object,
}
use netframework.Serialisation.Value.Scan.{
  brace_all, brace_loop-brace_all, brace_step, Passes, IsBraces, joined-Passes-each,
  joined-Passes-members,
}

-- What may stand behind a value, and the stream once the value is read: nothing, or a comma and
-- the next value, which does not begin with one.
pub data Tail : Bytes → IStream → Type 0 where
  last : Tail [] at_end
  more : (c : ℕ) (rest : Bytes) → c ≢ b',' → Tail (b',' ∷ c ∷ rest) (stream (c ∷ rest))

pub plain_loop-All :
    {tail : Bytes} {s : IStream} (text : Bytes) (c : ℕ) (ret : Bytes)
    → All (λ x. x ≢ b',') (c ∷ text)
    → Tail tail s
    → plain_loop c ret (text ++ tail) ≡ (ret ++ c ∷ text, s)
unfolding plain_loop
plain_loop-All [] c ret all last = ground arith
plain_loop-All [] c ret all (more x rest ne) = ground arith
plain_loop-All {tail} (x ∷ text) c ret all t =
    let further = plain_loop-All text x (ret ++ c ∷ []) all.1 t in
    ground (arith, further, append_assoc ret (c ∷ []) (x ∷ text))

string_loop_end : (ret tail : Bytes) → string_loop b'"' false ret tail ≡ (ret, stream tail)
unfolding string_loop
string_loop_end ret [] = refl
string_loop_end ret (x ∷ tail) = refl

string_loop-plain :
    (text : Bytes) (c : ℕ) (ret tail : Bytes)
    → All IsPlain (c ∷ text)
    → string_loop c false ret (text ++ b'"' ∷ tail) ≡ (ret ++ c ∷ text, stream tail)
unfolding string_loop
string_loop-plain [] c ret [] all = ground arith
string_loop-plain [] c ret (x ∷ tail) all = ground arith
string_loop-plain (x ∷ text) c ret tail all = ground (
  arith,
  string_loop-plain text x (ret ++ c ∷ []) tail all.1,
  append_assoc ret (c ∷ []) (x ∷ text),
)

skip_comma-Tail :
    {tail : Bytes} {s : IStream} (ret : Bytes)
    → Tail tail s
    → (skip_comma (ret, stream tail) ≡ (ret, s)) × (skip_comma (ret, s) ≡ (ret, s))
unfolding skip_comma
skip_comma-Tail ret last = (refl, refl)
skip_comma-Tail ret (more c rest ne) = (refl, ground arith)

pub brace_more-all :
    (c : ℕ) (text : Bytes) (close : ℕ)
    → (if c == b'[' then b']' else b'}') ≡ close
    → brace_more c (get (stream text)) ≡ brace_all c close 1 (c ∷ []) text
unfolding brace_more get brace_all
brace_more-all c [] close e = refl
brace_more-all c (x ∷ text) close e =
    ap (λ (b : ℕ). brace_loop c b x 1 (c ∷ []) text) e
    ∙ brace_loop-brace_all c close text x 1 (c ∷ [])

brace_all-Tail :
    {tail : Bytes} {s : IStream} (o c : ℕ) (ret : Bytes)
    → Tail tail s
    → skip_comma (brace_all o c 0 ret tail) ≡ (ret, s)
unfolding brace_all
brace_all-Tail o c ret last = (skip_comma-Tail ret last).1
brace_all-Tail o c ret (more x rest ne) = (skip_comma-Tail ret (more x rest ne)).1

pub next_token-brace :
    (o : ℕ) (text : Bytes)
    → (o == b'[' || o == b'{') ≡ true
    → next_token (stream (o ∷ text)) ≡ skip_comma (brace_more o (get (stream text)))
unfolding next_token token_at peek get
next_token-brace o text e = rw e

pub next_token-braces :
    {tail : Bytes} {s : IStream} (o c : ℕ) (body : Bytes)
    → IsBraces o c
    → Passes o c body
    → Tail tail s
    → next_token (stream (o ∷ (body ++ c ∷ tail))) ≡ (o ∷ (body ++ c ∷ []), s)
next_token-braces {tail} o c body braces p t =
    next_token-brace o (body ++ c ∷ tail) (ground arith)
    ∙ ap skip_comma (
        brace_more-all o (body ++ c ∷ tail) c (ground arith)
        ∙ p 0 (o ∷ []) (c ∷ tail)
        ∙ brace_step o c 0 0 c (o ∷ body) tail (ground arith))
    ∙ brace_all-Tail o c (o ∷ (body ++ c ∷ [])) t

next_token-enclosed :
    {tail : Bytes} {s : IStream} (text : Bytes) (o c : ℕ) (body : Bytes)
    → text ≡ o ∷ (body ++ c ∷ [])
    → IsBraces o c
    → Passes o c body
    → Tail tail s
    → next_token (stream (text ++ tail)) ≡ (text, s)
next_token-enclosed text o c body e braces p t =
    rw (e, append_assoc) (next_token-braces o c body braces p t)

next_token-string :
    {tail : Bytes} {s : IStream} (text : Bytes)
    → All IsPlain text
    → Tail tail s
    → next_token (stream (b'"' ∷ (text ++ b'"' ∷ tail))) ≡ (text, s)
unfolding next_token token_at string_more peek get
next_token-string {tail} [] all t =
    ap skip_comma (string_loop_end [] tail) ∙ (skip_comma-Tail [] t).0
next_token-string {tail} (c ∷ text) all t =
    ap skip_comma (string_loop-plain text c [] tail all) ∙ (skip_comma-Tail (c ∷ text) t).0

pub next_token-plain :
    {tail : Bytes} {s : IStream} (c : ℕ) (text : Bytes)
    → c ≢ b'['
    → c ≢ b'{'
    → c ≢ b'"'
    → All (λ x. x ≢ b',') (c ∷ text)
    → Tail tail s
    → next_token (stream (c ∷ (text ++ tail))) ≡ (c ∷ text, s)
unfolding next_token token_at plain_more peek get
next_token-plain {tail} c text n1 n2 n3 all t = ground (arith, plain_loop-All text c [] all t)

-- What `nextToken` returns for a value: a string without its quotes, all else as it was written.
abbrev pub content : Value → Bytes
content (a_string text) = text
content v = serialize v

abbrev pub IsNumeric : ℕ → Type 0
IsNumeric c = (c ≢ b',') × (c ≢ b'[') × (c ≢ b'{') × (c ≢ b'"')

digits-numeric : (text : Bytes) → All IsDigit text → All (λ x. x ≢ b',') text
digits-numeric [] all = tt
digits-numeric (c ∷ text) all = (ground arith, digits-numeric text all.1)

-- The text of an `int` is not empty, holds no comma and begins with no brace or quote.
pub to_string-cons :
    (k : ℤ)
    → (c : ℕ) × (text : Bytes) × (to_string k ≡ c ∷ text) × IsNumeric c × All (λ x. x ≢ b',') text
unfolding to_string
to_string-cons (pos n) =
    let (c, text, e, d) = digits-cons (n + 1) n [] (omega arith) in
    let all = subst (All IsDigit) e (digits-IsDigit (n + 1) n [] tt) in
    (c, text, e, ground arith, digits-numeric text all.1)
to_string-cons (negsuc n) =
    (b'-', _, refl, ground arith, digits-numeric _ (digits-IsDigit (n + 2) (n + 1) [] tt))

-- `nextToken` takes exactly one value off the stream.
pub next_token-value :
    {tail : Bytes} {s : IStream} (v : Value) (shape : Shape)
    → Fits shape v
    → Tail tail s
    → next_token (stream (serialize v ++ tail)) ≡ (content v, s)
unfolding Fits serialize
next_token-value {tail} (an_int k) shape fits t =
    let (c, text, e, n, all) = to_string-cons k in
    rw e (next_token-plain c text n.1 n.2 n.3 (n.0, all) t)
next_token-value {tail} (a_string text) string fits t =
    rw (escape_plain text fits, append_assoc) (next_token-string text fits t)
next_token-value {tail} (a_vector vs) (vector shape) fits t =
    next_token-enclosed (serialize (a_vector vs)) b'[' b']' (joined vs) (serialize_vector vs)
      (inl (refl, refl)) (joined-Passes-each b'[' b']' (inl (refl, refl)) vs true shape fits) t
next_token-value {tail} (an_object vs) (object shapes) fits t =
    next_token-enclosed (serialize (an_object vs)) b'{' b'}' (joined vs) (serialize_object vs)
      (inr (refl, refl)) (joined-Passes-members b'{' b'}' (inr (refl, refl)) vs true shapes fits) t
next_token-value v shape fits t = absurd fits
