-- ===== src/Log/Call.antt =====
-- lib/log.h: the overloads of `Log::operator()`, by the number of their arguments.
use netframework.Base.{[], ◌∷◌, Bytes}
use netframework.Log.Format.{Argument, Message, message, format_loop, format_one, no_message}

abbrev pub call0 : Bytes → Message
call0 str = message str []

abbrev pub call1 : Bytes → Argument → Message
call1 str t1 = message (format_one t1 str []) []

abbrev pub call2 : Bytes → Argument → Argument → Message
call2 str t1 t2 = format_loop (t1 ∷ t2 ∷ []) str no_message

abbrev pub call3 : Bytes → Argument → Argument → Argument → Message
call3 str t1 t2 t3 = format_loop (t1 ∷ t2 ∷ t3 ∷ []) str no_message

abbrev pub call4 : Bytes → Argument → Argument → Argument → Argument → Message
call4 str t1 t2 t3 t4 = format_loop (t1 ∷ t2 ∷ t3 ∷ t4 ∷ []) str no_message

abbrev pub call5 : Bytes → Argument → Argument → Argument → Argument → Argument → Message
call5 str t1 t2 t3 t4 t5 = format_loop (t1 ∷ t2 ∷ t3 ∷ t4 ∷ t5 ∷ []) str no_message

abbrev pub call6 : Bytes → Argument → Argument → Argument → Argument → Argument → Argument → Message
call6 str t1 t2 t3 t4 t5 t6 = format_loop (t1 ∷ t2 ∷ t3 ∷ t4 ∷ t5 ∷ t6 ∷ []) str no_message

abbrev pub call7 :
    Bytes → Argument → Argument → Argument → Argument → Argument → Argument → Argument → Message
call7 str t1 t2 t3 t4 t5 t6 t7 = format_loop (t1 ∷ t2 ∷ t3 ∷ t4 ∷ t5 ∷ t6 ∷ t7 ∷ []) str no_message

abbrev pub call8 :
    Bytes
    → Argument
    → Argument
    → Argument
    → Argument
    → Argument
    → Argument
    → Argument
    → Argument
    → Message
call8 str t1 t2 t3 t4 t5 t6 t7 t8 =
    format_loop (t1 ∷ t2 ∷ t3 ∷ t4 ∷ t5 ∷ t6 ∷ t7 ∷ t8 ∷ []) str no_message

abbrev pub call9 :
    Bytes
    → Argument
    → Argument
    → Argument
    → Argument
    → Argument
    → Argument
    → Argument
    → Argument
    → Argument
    → Message
call9 str t1 t2 t3 t4 t5 t6 t7 t8 t9 =
    format_loop (t1 ∷ t2 ∷ t3 ∷ t4 ∷ t5 ∷ t6 ∷ t7 ∷ t8 ∷ t9 ∷ []) str no_message
