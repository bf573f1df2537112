-- ===== src/Serialisation/Value/Fits.antt =====
-- The values that a shape describes, and those among them whose text reads back unchanged.
use netframework.Base.{ℕ, ◌≢◌, All}
use netframework.Serialisation.Number.RoundTrip.{IsInt}
use netframework.Serialisation.Value.{
  Shape, int, string, vector, object, Shapes, end, member, Value, an_int, a_string, a_vector,
  an_object, Values, nil, cons,
}

-- Neither a quote, a backslash nor a brace.
abbrev pub IsPlain : ℕ → Type 0
IsPlain c = (c ≢ b'"') × (c ≢ b'\\') × (c ≢ b'[') × (c ≢ b']') × (c ≢ b'{') × (c ≢ b'}')

-- As an element of a vector a string is read twice, so it holds no comma either.
abbrev pub IsElement : Value → Type 0
IsElement (a_string text) = All (λ c. c ≢ b',') text
IsElement _ = Unit

unfoldable mutual
  pub Fits : Shape → Value → Type 0
  Fits int (an_int k) = IsInt k
  Fits string (a_string text) = All IsPlain text
  Fits (vector shape) (a_vector vs) = FitsEach shape vs
  Fits (object shapes) (an_object vs) = FitsMembers shapes vs
  Fits _ _ = ⊥

  pub FitsEach : Shape → Values → Type 0
  FitsEach shape nil = Unit
  FitsEach shape (cons v vs) = Fits shape v × IsElement v × FitsEach shape vs

  pub FitsMembers : Shapes → Values → Type 0
  FitsMembers end nil = Unit
  FitsMembers (member shape shapes) (cons v vs) = Fits shape v × FitsMembers shapes vs
  FitsMembers _ _ = ⊥
