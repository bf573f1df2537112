-- ===== src/StringLiteral/Examples.antt =====
-- lib/consthelpers.hpp, on concrete literals: "const std::string &" and the texts searched for in it.
use netframework.Base.{◌≡◌, Bytes, codes, ok, arith}
use netframework.Serialisation.Replace.{find, starts_with}
use netframework.StringLiteral.{find_literal, not_found}
use netframework.StringLiteral.Search.{find_literal-find}

abbrev type_name : Bytes
type_name = codes "const int&"

find_literal-find_example : find_literal type_name (codes "int") ≡ ok 6
unfolding find starts_with
find_literal-find_example = find_literal-find type_name (codes "int") (omega arith)

find_literal_missing : find_literal type_name (codes "long") ≡ ok not_found
unfolding find starts_with
find_literal_missing = find_literal-find type_name (codes "long") (omega arith)
