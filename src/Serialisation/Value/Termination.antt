-- ===== src/Serialisation/Value/Termination.antt =====
-- The loop of `deserializeSequence` ends: each round shortens what is left of the stream.
use netframework.Base.{
  ℕ, zero, suc, ◌+◌, ◌≤◌, ◌<◌, inl, inr, Bool, true, false, [], ◌∷◌, ◌++◌, if◌then◌else◌, length,
  ltb, Bytes, arith, Result, ok, err, ◌>>=◌, Bool-cases, ◌==◌,
}
use netframework.Stream.{IStream, stream, peek, get}
use netframework.Serialisation.Token.{
  Token, brace_loop, string_loop, plain_loop, skip_comma, step_depth, next_token, token_at,
  brace_more, string_more, plain_more,
}
use netframework.Serialisation.Number.{stoi}
use netframework.Serialisation.Number.Faults.{Ends, stoi-Ends}
use netframework.Serialisation.Value.{
  Shape, int, string, vector, object, Shapes, end, member, Value,
}
use netframework.Serialisation.Value.Read.{
  pop_back, inside, open_deser, sequence_loop, deserialize_sequence, deserialize,
  deserialize_members,
}

-- What a stream still has to give: nothing once its end was met.
abbrev pub remaining : IStream → ℕ
remaining s = if s.eof then 0 else length s.rest + 1

brace_loop-remaining :
    (rest : Bytes) (o c x depth : ℕ) (ret : Bytes)
    → remaining (brace_loop o c x depth ret rest).1 ≤ length rest + 1
unfolding brace_loop
brace_loop-remaining [] o c x zero ret = omega arith
brace_loop-remaining [] o c x (suc depth) ret = omega arith
brace_loop-remaining (y ∷ rest) o c x zero ret = omega arith
brace_loop-remaining (y ∷ rest) o c x (suc depth) ret =
    omega (arith, brace_loop-remaining rest o c y (step_depth o c x (suc depth)) (ret ++ x ∷ []))

string_loop-remaining :
    (rest : Bytes) (x : ℕ) (had : Bool) (ret : Bytes)
    → remaining (string_loop x had ret rest).1 ≤ length rest + 1
unfolding string_loop
string_loop-remaining [] x had ret = ground arith
string_loop-remaining (y ∷ rest) x had ret =
    ground (arith, string_loop-remaining rest y (x == b'\\') (ret ++ x ∷ []))

plain_loop-remaining :
    (rest : Bytes) (x : ℕ) (ret : Bytes) → remaining (plain_loop x ret rest).1 ≤ length rest + 1
unfolding plain_loop
plain_loop-remaining [] x ret = ground arith
plain_loop-remaining (y ∷ rest) x ret = ground (arith, plain_loop-remaining rest y (ret ++ x ∷ []))

skip_comma-remaining :
    (ret rest : Bytes) (eof : Bool)
    → remaining (skip_comma (ret, record { rest = rest; eof = eof })).1
      ≤ remaining (record { rest = rest; eof = eof })
unfolding skip_comma
skip_comma-remaining ret [] eof = ground arith
skip_comma-remaining ret (c ∷ rest) eof = ground arith

skip_comma-le : (t : Token) → remaining (skip_comma t).1 ≤ remaining t.1
skip_comma-le t = skip_comma-remaining t.0 t.1.rest t.1.eof

-- `nextToken` takes something off a stream whose end was not met.
pub next_token-remaining :
    (rest : Bytes) → remaining (next_token (stream rest)).1 < remaining (stream rest)
unfolding next_token token_at peek get brace_more string_more plain_more
next_token-remaining [] = omega arith
next_token-remaining (c ∷ []) = ground arith
next_token-remaining (c ∷ x ∷ rest) =
    let close : ℕ = if c == b'[' then b']' else b'}' in
    ground (
      arith,
      brace_loop-remaining rest c close x 1 (c ∷ []),
      skip_comma-le (brace_loop c close x 1 (c ∷ []) rest),
      string_loop-remaining rest x false [],
      skip_comma-le (string_loop x false [] rest),
      plain_loop-remaining rest x (c ∷ []),
    )

bind-Ends {ℓ κ} :
    {A : Type ℓ} {B : Type κ} (m : Result A) (f : A → Result B)
    → Ends m
    → ((a : A) → Ends (f a))
    → Ends (m >>= f)
bind-Ends (ok a) f hm hf = hf a
bind-Ends (err e) f hm hf = hm

sequence_loop-Ends :
    (read : IStream → Result (Value × IStream)) (fuel : ℕ) (rest : Bytes) (eof : Bool)
    → ((s : IStream) → Ends (read s))
    → remaining (record { rest = rest; eof = eof }) < fuel
    → Ends (sequence_loop read fuel (record { rest = rest; eof = eof }))
unfolding sequence_loop
sequence_loop-Ends read zero rest eof reads enough = absurd (omega arith)
sequence_loop-Ends read (suc fuel) rest true reads enough = tt
sequence_loop-Ends read (suc fuel) rest false reads enough =
    let next = (next_token (stream rest)).1 in
    bind-Ends (read (stream (next_token (stream rest)).0)) _ (reads _) (λ v.
      bind-Ends (sequence_loop read fuel next) _
        (sequence_loop-Ends read fuel next.rest next.eof reads
          (omega (arith, next_token-remaining rest)))
        (λ vs. tt))

length-pop_back-le : (text : Bytes) → length (pop_back text) ≤ length text
length-pop_back-le [] = omega arith
length-pop_back-le (x ∷ []) = omega arith
length-pop_back-le (x ∷ y ∷ text) = omega (arith, length-pop_back-le (y ∷ text))

remaining-get : (rest : Bytes) → remaining (get (stream rest)).1 ≤ length rest + 1
unfolding get
remaining-get [] = omega arith
remaining-get (x ∷ rest) = omega arith

inside-remaining : (text : Bytes) → remaining (inside text) < length text + 2
inside-remaining text = omega (arith, remaining-get (pop_back text), length-pop_back-le text)

deserialize_sequence-Ends :
    (read : IStream → Result (Value × IStream)) (s : IStream)
    → ((s : IStream) → Ends (read s))
    → Ends (deserialize_sequence read s)
unfolding deserialize_sequence
deserialize_sequence-Ends read s reads =
    let text = (next_token s).0 in
    elim (Bool-cases (ltb 2 (length text))) [
      | inl long ↦ rw long (
          bind-Ends (sequence_loop read (length text + 2) (inside text)) _
            (sequence_loop-Ends read (length text + 2) (inside text).rest (inside text).eof reads
              (inside-remaining text))
            (λ vs. tt))
      | inr short ↦ rw short (tt)
    ]

mutual
  unfolding deserialize

  value-Ends : (shape : Shape) (s : IStream) → Ends (deserialize shape s)
  value-Ends int s = bind-Ends (stoi (next_token s).0) _ (stoi-Ends (next_token s).0) (λ k. tt)
  value-Ends string s = tt
  value-Ends (vector shape) s =
      bind-Ends (deserialize_sequence (deserialize shape) s) _
        (deserialize_sequence-Ends (deserialize shape) s (value-Ends shape)) (λ vs. tt)
  value-Ends (object shapes) s =
      bind-Ends (deserialize_members shapes (open_deser s).0) _
        (members-Ends shapes (open_deser s).0) (λ vs. tt)

  members-Ends : (shapes : Shapes) (s : IStream) → Ends (deserialize_members shapes s)
  members-Ends end s = tt
  members-Ends (member shape shapes) s =
      bind-Ends (deserialize shape s) _ (value-Ends shape s)
        (λ v. bind-Ends (deserialize_members shapes v.1) _ (members-Ends shapes v.1) (λ vs. tt))
