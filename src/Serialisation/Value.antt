-- ===== src/Serialisation/Value.antt =====
-- lib/serialisation.h: the templates, over the types that they are used at. A `Shape` is a type with
-- the overload that it selects, a `Value` an object: `int`, `std::string`, a vector (or a set, which is
-- written alike), and a class whose `serialize` and `deserialize` name its members in one order.
pub mod Write
pub mod Read
pub mod Fits
pub mod Texts
pub mod Scan
pub mod Tokens
pub mod RoundTrip
pub mod Termination
use netframework.Base.{ℤ, Bytes}

mutual
  pub data Shape : Type 0 where
    int string : Shape
    vector : Shape → Shape
    object : Shapes → Shape

  pub data Shapes : Type 0 where
    end : Shapes
    member : Shape → Shapes → Shapes

mutual
  pub data Value : Type 0 where
    an_int : ℤ → Value
    a_string : Bytes → Value
    a_vector : Values → Value
    an_object : Values → Value

  pub data Values : Type 0 where
    nil : Values
    cons : Value → Values → Values
