-- ===== src/Serialisation/Value/Read.antt =====
-- Reading: the overloads of `deserialize`, `deserializeSequence` and `ObjectDeser`.
use netframework.Base.{
  ℕ, zero, suc, ◌+◌, true, false, [], ◌∷◌, ltb, if◌then◌else◌, length, Bytes, Result, ok, err,
  out_of_fuel, ◌>>=◌,
}
use netframework.Stream.{IStream, stream, get}
use netframework.Serialisation.Number.{stoi}
use netframework.Serialisation.Token.{next_token}
use netframework.Serialisation.Value.{
  Shape, int, string, vector, object, Shapes, end, member, Value, an_int, a_string, a_vector,
  an_object, Values, nil, cons,
}

-- `pop_back()`
abbrev pub pop_back : Bytes → Bytes
pop_back [] = []
pop_back (x ∷ []) = []
pop_back (x ∷ y ∷ xs) = x ∷ pop_back (y ∷ xs)

-- The text between the braces as a stream: cut the last byte, read the first.
abbrev pub inside : Bytes → IStream
inside text = (get (stream (pop_back text))).1

-- The constructor: the members' stream, and what is left of the outer one.
unfoldable pub open_deser : IStream → IStream × IStream
unfolding next_token get
open_deser s =
    let (text, s') = next_token s in (if ltb 2 (length text) then inside text else stream [], s')

-- `while (!sq.eof())`, with the reader of the elements.
unfoldable pub sequence_loop : (IStream → Result (Value × IStream)) → ℕ → IStream → Result Values
unfolding next_token
sequence_loop read zero s = err out_of_fuel
sequence_loop read (suc fuel) s = elim s.eof [
  | true ↦ ok nil
  | false ↦
      let (text, s') = next_token s in
      do (v, _) ← read (stream text); vs ← sequence_loop read fuel s'; ok (cons v vs)
]

-- A round takes a byte or meets the end, so two more than the bytes are enough.
unfoldable pub deserialize_sequence :
    (IStream → Result (Value × IStream)) → IStream → Result (Values × IStream)
unfolding sequence_loop get
deserialize_sequence read s =
    let (text, s') = next_token s in
    if ltb 2 (length text)
    then (do vs ← sequence_loop read (length text + 2) (inside text); ok (vs, s'))
    else ok (nil, s')

unfoldable mutual
  unfolding next_token stoi open_deser deserialize_sequence

  pub deserialize : Shape → IStream → Result (Value × IStream)
  deserialize int s = let (text, s') = next_token s in do k ← stoi text; ok (an_int k, s')
  deserialize string s = let (text, s') = next_token s in ok (a_string text, s')
  deserialize (vector shape) s = do
    (vs, s') ← deserialize_sequence (deserialize shape) s
    ok (a_vector vs, s')
  deserialize (object shapes) s =
      let (members, s') = open_deser s in
      do (vs, _) ← deserialize_members shapes members; ok (an_object vs, s')

  -- `obj >> a >> b >> ...`
  pub deserialize_members : Shapes → IStream → Result (Values × IStream)
  deserialize_members end s = ok (nil, s)
  deserialize_members (member shape shapes) s = do
    (v, s') ← deserialize shape s
    (vs, s'') ← deserialize_members shapes s'
    ok (cons v vs, s'')
