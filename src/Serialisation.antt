-- ===== src/Serialisation.antt =====
-- lib/serialisation.h and lib/serialisation.cpp: the text format. `Replace` is `replaceInString`,
-- `Token` is `nextToken`, `Number` the `int` overloads, `Value` the templates.
pub mod Replace
pub mod Token
pub mod Number
pub mod Value
mod Examples
