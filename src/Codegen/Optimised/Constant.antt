-- ===== src/Codegen/Optimised/Constant.antt =====
-- src/codegen/OptCodeGen.cpp, multiplication and division by a constant.
pub mod Log2
pub mod Multiply
pub mod Shift
pub mod Divide
pub mod Powers
pub mod Unsigned
use Prim.Native.Nat.{bit_and}
use toy_c_cp.Prelude.{
  ℕ, zero, suc, ◌+◌, ◌-◌, ◌/◌, Bool, true, false, not, ◌||◌, ◌&&◌, Option, none, some, List, [],
  ◌∷◌, ◌++◌, ltb, leb, ◌==◌, if◌then◌else◌,
}
use toy_c_cp.Word.{is_neg, magnitude, minus_one}
use toy_c_cp.Ir.{reg}
use toy_c_cp.Ir.Meaning.{bind}
use toy_c_cp.Rv.{x_a6, x_a7, scratch1, Instr, li, mv, neg, slli, srli, srai, mulh, mulhu}
use toy_c_cp.Opt.Magic.{MagicNumber, unsigned_magic, signed_magic}
use toy_c_cp.Codegen.Optimised.Access.{Context, to_reg}

-- The loop of log2exact; an `uint32_t` is halved at most 32 times.
unfoldable pub halvings : ℕ → ℕ → ℕ
halvings zero v = 0
halvings (suc fuel) v = let k = halvings fuel (v / 2) in if ltb 1 v then suc k else 0

unfoldable pub log2exact : ℕ → Option ℕ
unfolding halvings
log2exact v = if v == 0 || not (bit_and v (v - 1) == 0) then none else some (halvings 32 v)

-- `k >= 1`.
abbrev pub at_least_one : Option ℕ → Option ℕ
at_least_one none = none
at_least_one (some zero) = none
at_least_one (some (suc k)) = some (suc k)

abbrev pub exponent : ℕ → Option ℕ
exponent v = at_least_one (log2exact v)

-- `if (c < 0) out_ << neg`.
abbrev pub neg_if : Bool → ℕ → List Instr
neg_if b r = if b then neg r r ∷ [] else []

abbrev pub mul_shifted : ℕ → ℕ → ℕ → ℕ → List Instr
mul_shifted rd ra c k = slli rd ra k ∷ neg_if (is_neg c) rd

abbrev pub mul_above : ℕ → ℕ → ℕ → ℕ → List Instr
mul_above rd ra c k = slli scratch1 ra k ∷ Instr.add rd scratch1 ra ∷ neg_if (is_neg c) rd

abbrev pub mul_below : ℕ → ℕ → ℕ → ℕ → List Instr
mul_below rd ra c k = slli scratch1 ra k ∷ Instr.sub rd scratch1 ra ∷ neg_if (is_neg c) rd

abbrev pub mul_loaded : ℕ → ℕ → ℕ → List Instr
mul_loaded rd ra c = li scratch1 c ∷ Instr.mul rd ra scratch1 ∷ []

-- The three shapes of |c| in order, 2 ^ k, 2 ^ k + 1 and 2 ^ k - 1, each with its k if |c| has it.
abbrev pub by_shape : ℕ → ℕ → ℕ → Option ℕ → Option ℕ → Option ℕ → List Instr
by_shape rd ra c (some k) _ _ = mul_shifted rd ra c k
by_shape rd ra c none (some k) _ = mul_above rd ra c k
by_shape rd ra c none none (some k) = mul_below rd ra c k
by_shape rd ra c none none none = mul_loaded rd ra c

unfoldable pub mul_shapes : ℕ → ℕ → ℕ → List Instr
unfolding log2exact is_neg magnitude
mul_shapes rd ra c =
    by_shape rd ra c (exponent (magnitude c)) (exponent (magnitude c - 1))
      (exponent (magnitude c + 1))

abbrev pub move : ℕ → ℕ → List Instr
move rd ra = if rd == ra then [] else mv rd ra ∷ []

unfoldable pub emit_mul_const : ℕ → ℕ → ℕ → List Instr
unfolding mul_shapes
emit_mul_const rd ra c =
    if c == 0
    then li rd 0 ∷ []
    else if c == 1
    then move rd ra
    else if c == minus_one
    then neg rd ra ∷ []
    else mul_shapes rd ra c

-- 2 ^ k - 1 for a negative number, and else 0.
unfoldable pub emit_pow2_bias : ℕ → ℕ → ℕ → List Instr
emit_pow2_bias rs ra k =
    if k == 1 then srli rs ra 31 ∷ [] else srai rs ra 31 ∷ srli rs rs (32 - k) ∷ []

-- The register of the multiplier: the one of the hint, or t6 behind its `li`.
unfoldable pub magic_reg : Context → Option ℕ → ℕ → Option (ℕ × List Instr)
unfolding to_reg
magic_reg c (some v) multiplier = to_reg c (reg v) x_a7
magic_reg c none multiplier = some (scratch1, li scratch1 multiplier ∷ [])

-- A call of signedMagic or unsignedMagic. Both divide by |c|, which has no result for c = 0.
abbrev pub magic_of : (ℕ → MagicNumber) → ℕ → Option MagicNumber
magic_of find c = if c == 0 then none else some (find c)

unfoldable pub unsigned_quotient : Context → Option ℕ → ℕ → ℕ → ℕ → Option (List Instr)
unfolding magic_reg unsigned_magic
unsigned_quotient ctx hint rq ra c = bind (magic_of unsigned_magic c) (λ m.
    bind (magic_reg ctx hint m.multiplier) (λ (rm, is). some (
      is
      ++ mulhu x_a7 ra rm ∷ (if ltb 0 m.shift then srli rq x_a7 m.shift ∷ [] else move rq x_a7))))

-- `if (c > 0 && M < 0)` and `else if (c < 0 && M > 0)`.
abbrev pub magic_fixup : ℕ → ℕ → ℕ → List Instr
magic_fixup c multiplier ra =
    if not (is_neg c) && not (c == 0) && is_neg multiplier
    then Instr.add x_a7 x_a7 ra ∷ []
    else if is_neg c && not (is_neg multiplier) && not (multiplier == 0)
    then Instr.sub x_a7 x_a7 ra ∷ []
    else []

unfoldable pub signed_quotient : Context → Option ℕ → ℕ → ℕ → ℕ → Option (List Instr)
unfolding magic_reg signed_magic is_neg
signed_quotient ctx hint rq ra c = bind (magic_of signed_magic c) (λ m.
    bind (magic_reg ctx hint m.multiplier) (λ (rm, is). some (
      is
      ++ mulh x_a7 ra rm
        ∷ (magic_fixup c m.multiplier ra
            ++ ((if ltb 0 m.shift then srai x_a7 x_a7 m.shift ∷ [] else [])
                ++ srli scratch1 x_a7 31 ∷ Instr.add rq x_a7 scratch1 ∷ [])))))

-- `curMagicVreg_` and `curUnsigned_` are the arguments `hint` and `unsigned`.
unfoldable pub emit_magic_quotient : Context → Option ℕ → Bool → ℕ → ℕ → ℕ → Option (List Instr)
unfolding unsigned_quotient signed_quotient
emit_magic_quotient ctx hint unsigned rq ra c =
    if unsigned then unsigned_quotient ctx hint rq ra c else signed_quotient ctx hint rq ra c

abbrev pub div_pow2 : ℕ → ℕ → ℕ → ℕ → List Instr
div_pow2 rd ra c k =
    emit_pow2_bias scratch1 ra k
    ++ Instr.add scratch1 ra scratch1 ∷ srai rd scratch1 k ∷ neg_if (is_neg c) rd

-- By the exponent of |c|, if it has one. The division by 0 is left to the machine.
unfoldable pub div_by : Context → Option ℕ → Bool → ℕ → ℕ → ℕ → Option ℕ → Option (List Instr)
unfolding is_neg emit_magic_quotient emit_pow2_bias
div_by ctx hint unsigned rd ra c (some k) = some (div_pow2 rd ra c k)
div_by ctx hint unsigned rd ra c none =
    if c == 0
    then some (li scratch1 c ∷ Instr.div rd ra scratch1 ∷ [])
    else emit_magic_quotient ctx hint unsigned rd ra c

unfoldable pub emit_div_const : Context → Option ℕ → Bool → ℕ → ℕ → ℕ → Option (List Instr)
unfolding log2exact magnitude div_by
emit_div_const ctx hint unsigned rd ra c =
    if c == 1
    then some (move rd ra)
    else if c == minus_one
    then some (neg rd ra ∷ [])
    else div_by ctx hint unsigned rd ra c (exponent (magnitude c))

abbrev pub rem_pow2 : ℕ → ℕ → ℕ → List Instr
rem_pow2 rd ra k =
    emit_pow2_bias scratch1 ra k
    ++ Instr.add scratch1 ra scratch1
      ∷ srai scratch1 scratch1 k
      ∷ slli scratch1 scratch1 k
      ∷ Instr.sub rd ra scratch1
      ∷ []

abbrev pub times_and_sub : ℕ → ℕ → ℕ → ℕ → List Instr
times_and_sub rd ra rq c = emit_mul_const x_a7 rq c ++ Instr.sub rd ra x_a7 ∷ []

unfoldable pub unsigned_rem : Context → Option ℕ → ℕ → ℕ → ℕ → Option (List Instr)
unfolding magic_reg unsigned_magic emit_mul_const
unsigned_rem ctx hint rd ra c = bind (magic_of unsigned_magic c) (λ m.
    bind (magic_reg ctx hint m.multiplier) (λ (rm, is). some (
      is
      ++ mulhu x_a7 ra rm
        ∷ (if ltb 0 m.shift
            then srli x_a6 x_a7 m.shift ∷ times_and_sub rd ra x_a6 c
            else times_and_sub rd ra x_a7 c))))

unfoldable pub rem_by : Context → Option ℕ → Bool → ℕ → ℕ → ℕ → Option ℕ → Option (List Instr)
unfolding emit_pow2_bias unsigned_rem signed_quotient emit_mul_const
rem_by ctx hint unsigned rd ra c (some k) = some (rem_pow2 rd ra k)
rem_by ctx hint unsigned rd ra c none =
    if unsigned
    then unsigned_rem ctx hint rd ra c
    else bind (signed_quotient ctx hint x_a6 ra c) (λ is. some (is ++ times_and_sub rd ra x_a6 c))

unfoldable pub emit_mod_const : Context → Option ℕ → Bool → ℕ → ℕ → ℕ → Option (List Instr)
unfolding log2exact magnitude rem_by
emit_mod_const ctx hint unsigned rd ra c =
    if magnitude c == 1
    then some (li rd 0 ∷ [])
    else rem_by ctx hint unsigned rd ra c (exponent (magnitude c))
