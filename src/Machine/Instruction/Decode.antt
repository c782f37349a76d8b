-- ===== src/Machine/Instruction/Decode.antt =====
-- Decoding takes an instruction apart into the fields that it was put together from.
use jalepenos.Base.{
  ℕ, ◌+◌, ◌*◌, ◌/◌, ◌%◌, ◌^◌, ◌<◌, ◌≡◌, ◌≢◌, refl, ap, ◌∙◌, ◌==◌, if◌then◌else◌, bit_and, bit_or,
  arith, get_or,
}
use jalepenos.Base.Bits.{bit_and_mask, bit_and-pow, bit-div, bit_or_fields, bit_or_comm}
use jalepenos.Machine.Instruction.{
  OpCode, OpInfo, ifmt, rfmt, op_res, special, bcond, op_table, special_table, decode_extra,
  decode_op, decode,
}

-- The three layouts of an instruction word.
abbrev pub r_type : (rs rt rd shamt funct : ℕ) → ℕ
r_type rs rt rd shamt funct = rs * 2 ^ 21 + rt * 2 ^ 16 + rd * 2 ^ 11 + shamt * 2 ^ 6 + funct

abbrev pub i_type : (op rs rt imm : ℕ) → ℕ
i_type op rs rt imm = op * 2 ^ 26 + rs * 2 ^ 21 + rt * 2 ^ 16 + imm

abbrev pub j_type : (op target : ℕ) → ℕ
j_type op target = op * 2 ^ 26 + target

-- A 16-bit pattern extended to 32 bits by its sign.
abbrev pub sign_extend : ℕ → ℕ
sign_extend imm = if imm / 2 ^ 15 == 0 then imm else imm + 0xffff_0000

extend_imm : (value imm : ℕ) → value % 2 ^ 16 ≡ imm → decode_extra ifmt value ≡ sign_extend imm
unfolding decode_extra
extend_imm value imm e =
    let low : bit_and value 0xffff ≡ imm = bit_and_mask 16 value ∙ e in
    let top : bit_and imm 0x8000 ≡ imm / 2 ^ 15 % 2 * 2 ^ 15 =
      bit_and-pow 15 imm ∙ ap (λ (t : ℕ). t * 2 ^ 15) (bit-div 15 imm) in
    let signed : bit_or imm 0xffff_0000 ≡ imm + 0xffff_0000 =
      bit_or_comm imm 0xffff_0000 ∙ bit_or_fields 16 0xffff imm (omega arith) ∙ omega arith in
    rw (low, top, signed) (ground arith)

-- The entry of the first table for an operation field.
abbrev pub op_info : ℕ → OpInfo
op_info op = get_or op_table op (record { op_code = op_res; format = ifmt })

decode-fields :
    (value : ℕ)
    → decode value ≡ record {
      op_code = decode_op (op_info (value / 2 ^ 26 % 2 ^ 6)).op_code value;
      rs = value / 2 ^ 21 % 2 ^ 5;
      rt = value / 2 ^ 16 % 2 ^ 5;
      rd = value / 2 ^ 11 % 2 ^ 5;
      extra = decode_extra (op_info (value / 2 ^ 26 % 2 ^ 6)).format value;
    }
unfolding decode
decode-fields value = rw (
  bit_and_mask 6 (value / 2 ^ 26),
  bit_and_mask 5 (value / 2 ^ 21),
  bit_and_mask 5 (value / 2 ^ 16),
  bit_and_mask 5 (value / 2 ^ 11),
)

special_info : op_info 0 ≡ record { op_code = special; format = rfmt }
unfolding op_table
special_info = refl

-- An operation that the first table decides is not decoded further.
decode_op-plain : (c : OpCode) (value : ℕ) → c ≢ special → c ≢ bcond → decode_op c value ≡ c
unfolding decode_op
decode_op-plain special value h k = absurd (h refl)
decode_op-plain bcond value h k = absurd (k refl)
decode_op-plain _ value h k = refl

module _ (rs rt rd shamt funct : ℕ) (h1 : rs < 32) (h2 : rt < 32) (h3 : rd < 32) (h4 : shamt < 32)
    (h5 : funct < 64) where
  -- A SPECIAL instruction put together from its fields decodes to the operation that the table
  -- has for its function field and to those fields.
  pub decode-r_type : decode (r_type rs rt rd shamt funct) ≡ record {
    op_code = get_or special_table funct op_res;
    rs = rs;
    rt = rt;
    rd = rd;
    extra = shamt;
  }
  unfolding decode_op decode_extra
  decode-r_type =
      let v = r_type rs rt rd shamt funct in
      let e0 : v / 2 ^ 26 % 2 ^ 6 ≡ 0 = omega arith in
      let e1 : v / 2 ^ 21 % 2 ^ 5 ≡ rs = omega arith in
      let e2 : v / 2 ^ 16 % 2 ^ 5 ≡ rt = omega arith in
      let e3 : v / 2 ^ 11 % 2 ^ 5 ≡ rd = omega arith in
      let e4 : v / 2 ^ 6 % 2 ^ 5 ≡ shamt = omega arith in
      let e5 : v % 2 ^ 6 ≡ funct = omega arith in
      decode-fields v
      ∙ rw (e0, special_info, e1, e2, e3, bit_and_mask 5 (v / 2 ^ 6), e4, bit_and_mask 6 v, e5)

module _ (op rs rt imm : ℕ) (c : OpCode) (h0 : op < 64) (h1 : rs < 32) (h2 : rt < 32)
    (h3 : imm < 65536) where
  -- An instruction put together in the immediate format from its fields, with an operation that
  -- the first table decides, decodes to that operation, to its registers and to the immediate
  -- with its sign extended.
  pub decode-i_type :
      op_info op ≡ record { op_code = c; format = ifmt }
      → c ≢ special
      → c ≢ bcond
      → decode (i_type op rs rt imm)
        ≡ record { op_code = c; rs = rs; rt = rt; rd = imm / 2 ^ 11; extra = sign_extend imm }
  decode-i_type table plain plain' =
      let v = i_type op rs rt imm in
      let e0 : v / 2 ^ 26 % 2 ^ 6 ≡ op = omega arith in
      let e1 : v / 2 ^ 21 % 2 ^ 5 ≡ rs = omega arith in
      let e2 : v / 2 ^ 16 % 2 ^ 5 ≡ rt = omega arith in
      let e3 : v / 2 ^ 11 % 2 ^ 5 ≡ imm / 2 ^ 11 = omega arith in
      decode-fields v
      ∙ rw (e0, table, e1, e2, e3, decode_op-plain c v plain plain', extend_imm v imm (omega arith))
