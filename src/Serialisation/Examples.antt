-- ===== src/Serialisation/Examples.antt =====
-- The tests of test/maintest.cpp, and the theorems about the text format applied to its values.
use netframework.Base.{
  ℕ, zero, suc, ◌≡◌, refl, List, some, [], ◌∷◌, ◌++◌, Bytes, codes, pos, negsuc, ok, arith,
}
use netframework.Stream.{IStream, stream, at_end}
use netframework.Serialisation.Replace.{replace_in_string}
use netframework.Serialisation.Replace.Spec.{replaced, replace_in_string-replaced}
use netframework.Serialisation.Token.{next_token}
use netframework.Serialisation.Value.{
  Shape, int, string, vector, object, end, member, Value, an_int, a_string, a_vector, an_object,
  nil, cons,
}
use netframework.Serialisation.Value.Fits.{Fits}
use netframework.Serialisation.Value.Write.{serialize}
use netframework.Serialisation.Value.Read.{deserialize}
use netframework.Serialisation.Value.Tokens.{more}
use netframework.Serialisation.Value.RoundTrip.{deserialize-serialize}

tokens : ℕ → IStream → List Bytes
tokens zero s = []
tokens (suc n) s = let (token, s') = next_token s in token ∷ tokens n s'

-- `SerialisationTest::tokenTest`
token_test :
    tokens 6 (stream (codes "48,22,\"Hello, \\\" Test\",33,[11,{22,{2},33},44]"))
    ≡ codes "48"
      ∷ codes "22"
      ∷ codes "Hello, \\\" Test"
      ∷ codes "33"
      ∷ codes "[11,{22,{2},33},44]"
      ∷ []
      ∷ []
unfolding tokens next_token
token_test = refl

abbrev nested_class : Value
nested_class = an_object (
    cons (a_string (codes "Hello \" World!")) (
      cons (an_int (pos 22)) (
        cons (a_vector (cons (a_string (codes "hello1")) (cons (a_string (codes "Hello2")) nil)))
          nil)))

abbrev test_class : Value
test_class = an_object (
    cons (an_int (pos 44)) (
      cons nested_class (
        cons (an_int (pos 55)) (
          cons
            (a_vector (
              cons (an_int (pos 2))
                (cons (an_int (pos 3)) (cons (an_int (pos 4)) (cons (an_int (pos 5)) nil)))))
            nil))))

-- `SerialisationTest::basicSerTest`
basic_ser_test :
    serialize test_class
    ≡ codes "{44,{\"Hello \\\" World!\",22,[\"hello1\",\"Hello2\"]},55,[2,3,4,5]}"
unfolding serialize
basic_ser_test = refl

abbrev simple3_shape : Shape
simple3_shape = object (member int (member int (member string end)))

abbrev simple3 : ℕ → ℕ → Bytes → Value
simple3 k k1 str =
    an_object (cons (an_int (pos k)) (cons (an_int (pos k1)) (cons (a_string str) nil)))

-- `SerialisationTest::deserializeTest`
deserialize_test :
    deserialize simple3_shape (stream (codes "{67,55,\"TEST\"}"))
    ≡ ok (simple3 67 55 (codes "TEST"), at_end)
unfolding deserialize
deserialize_test = refl

abbrev complex_shape : Shape
complex_shape = object (
    member int
      (member simple3_shape (member int (member (vector simple3_shape) (member string end)))))

-- The object of `SerialisationTest::serialiseAndDeserialiseTest`, with a negative number.
abbrev complex : Value
complex = an_object (
    cons (an_int (negsuc 10)) (
      cons (simple3 55 66 (codes "Hello World")) (
        cons (an_int (pos 33)) (
          cons
            (a_vector (
              cons (simple3 88 99 (codes "Hello World1"))
                (cons (simple3 0 22 (codes "Hello World2")) nil)))
            (cons (a_string (codes "TEST1")) nil)))))

complex-Fits : Fits complex_shape complex
unfolding Fits
complex-Fits = omega arith

deserialize-serialize_example :
    deserialize complex_shape (stream (serialize complex ++ codes ",5"))
    ≡ ok (complex, stream (codes "5"))
deserialize-serialize_example =
    deserialize-serialize complex complex_shape (codes ",5") (stream (codes "5")) complex-Fits
      (more b'5' [] (omega arith))

replace_in_string-replaced_example :
    replace_in_string (codes "aaba") (codes "a") (codes "xx")
    ≡ some (replaced (codes "a") (codes "xx") zero (codes "aaba"))
replace_in_string-replaced_example =
    replace_in_string-replaced (codes "aaba") (codes "a") (codes "xx") (λ e. cc)
