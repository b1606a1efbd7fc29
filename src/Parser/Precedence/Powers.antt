-- ===== src/Parser/Precedence/Powers.antt =====
-- The values of the enumerators of code/include/Parser/Precedence.h that the parser's switch uses.
use mlir_rustc.Prelude.{ℕ}

abbrev pub path : ℕ
path = 95

abbrev pub method_call : ℕ
method_call = 90

abbrev pub field_expression : ℕ
field_expression = 85

abbrev pub function_call : ℕ
function_call = 80

abbrev pub array_indexing : ℕ
array_indexing = 80

abbrev pub question_mark : ℕ
question_mark = 75

abbrev pub as_cast : ℕ
as_cast = 65

abbrev pub mul : ℕ
mul = 60

abbrev pub sum : ℕ
sum = 55

abbrev pub shift : ℕ
shift = 50

abbrev pub comparison : ℕ
comparison = 30

abbrev pub range : ℕ
range = 15

abbrev pub assignment : ℕ
assignment = 10

abbrev pub lowest : ℕ
lowest = 0
