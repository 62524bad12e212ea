-- ===== src/Driver/Tests.antt =====
-- The phases before the representation on a small source.
use toy_c_cp.Prelude.{String}
use toy_c_cp.Reading.{Safe}
use toy_c_cp.Sema.Program.Main.{HasMain}
use toy_c_cp.Driver.{front}
use toy_c_cp.Driver.Total.{front-Safe}

abbrev doubling : String
doubling = "int two = 2; int main() { return two * 21; }"

front-Safe_example : Safe (λ (m, s, m'). HasMain m) (front doubling)
front-Safe_example = front-Safe doubling
