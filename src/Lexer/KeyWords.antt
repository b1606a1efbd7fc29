-- ===== src/Lexer/KeyWords.antt =====
-- code/include/Lexer/KeyWords.h and code/lexer/KeyWords.cpp: the keywords, the table `KW` of their
-- spellings, and the two searches through it.
pub mod Table
use mlir_rustc.Prelude.{
  ℕ, Bool, true, false, List, [], ◌∷◌, Option, none, some, ◌==◌, if◌then◌else◌, Bytes, codes, equal,
}

pub data KeyWordKind : Type 0 where
  kw_as kw_break kw_const kw_continue kw_crate kw_else kw_enum kw_extern : KeyWordKind
  kw_false kw_fn kw_for kw_if kw_impl kw_in kw_let kw_loop kw_match kw_mod : KeyWordKind
  kw_move kw_mut kw_pub kw_ref kw_return kw_selfvalue kw_selftype kw_static : KeyWordKind
  kw_struct kw_super kw_trait kw_true kw_type kw_unsafe kw_use kw_where : KeyWordKind
  kw_while kw_async kw_await kw_dyn kw_abstract kw_become kw_box kw_do kw_final : KeyWordKind
  kw_macro kw_override kw_priv kw_staticlifetime kw_typeof kw_union kw_unsized : KeyWordKind
  kw_virtual kw_yield kw_try kw_macro_rules : KeyWordKind

-- The value of the enumerator, by which `==` compares two keywords.
unfoldable pub value : KeyWordKind → ℕ
value kw_as = 0
value kw_break = 1
value kw_const = 2
value kw_continue = 3
value kw_crate = 4
value kw_else = 5
value kw_enum = 6
value kw_extern = 7
value kw_false = 8
value kw_fn = 9
value kw_for = 10
value kw_if = 11
value kw_impl = 12
value kw_in = 13
value kw_let = 14
value kw_loop = 15
value kw_match = 16
value kw_mod = 17
value kw_move = 18
value kw_mut = 19
value kw_pub = 20
value kw_ref = 21
value kw_return = 22
value kw_selfvalue = 23
value kw_selftype = 24
value kw_static = 25
value kw_struct = 26
value kw_super = 27
value kw_trait = 28
value kw_true = 29
value kw_type = 30
value kw_unsafe = 31
value kw_use = 32
value kw_where = 33
value kw_while = 34
value kw_async = 35
value kw_await = 36
value kw_dyn = 37
value kw_abstract = 38
value kw_become = 39
value kw_box = 40
value kw_do = 41
value kw_final = 42
value kw_macro = 43
value kw_override = 44
value kw_priv = 45
value kw_staticlifetime = 46
value kw_typeof = 47
value kw_union = 48
value kw_unsized = 49
value kw_virtual = 50
value kw_yield = 51
value kw_try = 52
value kw_macro_rules = 53

-- `static const std::pair<KeyWordKind, std::string> KW[]`, in its order.
abbrev pub kw : List (KeyWordKind × Bytes)
kw =
    (kw_as, codes "as")
    ∷ (kw_break, codes "break")
    ∷ (kw_const, codes "const")
    ∷ (kw_continue, codes "continue")
    ∷ (kw_crate, codes "crate")
    ∷ (kw_else, codes "else")
    ∷ (kw_enum, codes "enum")
    ∷ (kw_extern, codes "extern")
    ∷ (kw_false, codes "false")
    ∷ (kw_fn, codes "fn")
    ∷ (kw_for, codes "for")
    ∷ (kw_if, codes "if")
    ∷ (kw_impl, codes "impl")
    ∷ (kw_in, codes "in")
    ∷ (kw_let, codes "let")
    ∷ (kw_loop, codes "loop")
    ∷ (kw_match, codes "match")
    ∷ (kw_mod, codes "mod")
    ∷ (kw_move, codes "move")
    ∷ (kw_mut, codes "mut")
    ∷ (kw_pub, codes "pub")
    ∷ (kw_ref, codes "ref")
    ∷ (kw_return, codes "return")
    ∷ (kw_selfvalue, codes "self")
    ∷ (kw_selftype, codes "Self")
    ∷ (kw_static, codes "static")
    ∷ (kw_struct, codes "struct")
    ∷ (kw_super, codes "super")
    ∷ (kw_trait, codes "trait")
    ∷ (kw_true, codes "true")
    ∷ (kw_type, codes "type")
    ∷ (kw_unsafe, codes "unsafe")
    ∷ (kw_use, codes "use")
    ∷ (kw_where, codes "where")
    ∷ (kw_while, codes "while")
    ∷ (kw_async, codes "async")
    ∷ (kw_await, codes "await")
    ∷ (kw_dyn, codes "dyn")
    ∷ (kw_abstract, codes "abstract")
    ∷ (kw_become, codes "become")
    ∷ (kw_box, codes "box")
    ∷ (kw_do, codes "do")
    ∷ (kw_final, codes "final")
    ∷ (kw_macro, codes "macro")
    ∷ (kw_override, codes "override")
    ∷ (kw_priv, codes "priv")
    ∷ (kw_typeof, codes "typeof")
    ∷ (kw_unsized, codes "unsized")
    ∷ (kw_virtual, codes "virtual")
    ∷ (kw_yield, codes "yield")
    ∷ (kw_try, codes "try")
    ∷ (kw_union, codes "union")
    ∷ (kw_staticlifetime, codes "'static")
    ∷ []

-- The loop of `KeyWord2String`: the spelling of the first entry with this kind.
unfoldable pub find_kind : KeyWordKind → List (KeyWordKind × Bytes) → Option Bytes
unfolding value
find_kind kind [] = none
find_kind kind ((k, text) ∷ rest) = if value k == value kind then some text else find_kind kind rest

unfoldable pub key_word_to_string : KeyWordKind → Option Bytes
unfolding find_kind
key_word_to_string kind = find_kind kind kw

-- The loop of `isKeyWord`: the kind of the first entry with this spelling.
unfoldable pub find_text : Bytes → List (KeyWordKind × Bytes) → Option KeyWordKind
unfolding equal
find_text identifier [] = none
find_text identifier ((k, text) ∷ rest) =
    if equal text identifier then some k else find_text identifier rest

unfoldable pub is_key_word : Bytes → Option KeyWordKind
unfolding find_text
is_key_word identifier = find_text identifier kw
