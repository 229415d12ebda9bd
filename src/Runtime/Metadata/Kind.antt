-- ===== src/Runtime/Metadata/Kind.antt =====
-- `LuaucRuntimeVmConstantKindV1` of runtime/include/aot_runtime_v1.h.
use Prim.Native.Nat.{ℕ}

abbrev pub nil : ℕ
nil = 0

abbrev pub boolean : ℕ
boolean = 1

abbrev pub number : ℕ
number = 2

abbrev pub vector : ℕ
vector = 3

abbrev pub string : ℕ
string = 4

abbrev pub integer : ℕ
integer = 5

abbrev pub import : ℕ
import = 6

abbrev pub table : ℕ
table = 7

abbrev pub closure : ℕ
closure = 8

abbrev pub class_shape : ℕ
class_shape = 9
