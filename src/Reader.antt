-- ===== src/Reader.antt =====
-- The parsing context of app/src/common/parser_common.h and the primitive readers of
-- app/src/parser_impl_common.c. A reader is a C function that takes `parser_context_t *ctx`; its
-- output parameters are its result, and CHECK_ERROR is the bind of the monad.
pub mod Safe
pub mod Accepted
use ledger_namada.Common.{
  ℕ, zero, suc, ◌+◌, ◌*◌, ◌%◌, ◌^◌, ◌<◌, Bool, true, false, Option, none, some, List, [], ◌∷◌, ltb,
  leb, ◌==◌, if◌then◌else◌,
}

-- parser_error_t without parser_ok
pub data ParserError : Type 0 where
  no_data init_context_empty display_idx_out_of_range display_page_out_of_range : ParserError
  unexpected_error unexpected_type unexpected_method unexpected_buffer_end : ParserError
  unexpected_unparsed_bytes unexpected_value unexpected_number_items : ParserError
  unexpected_version unexpected_characters unexpected_field duplicated_field : ParserError
  value_out_of_range invalid_address unexpected_chain missing_field : ParserError
  unknown_transaction decimal_too_big invalid_output_buffer diversifier_not_found : ParserError
  invalid_number_of_spends invalid_number_of_outputs invalid_number_of_converts : ParserError
  invalid_rk invalid_cv : ParserError

-- parser_context_t without tx_obj. `mem` is the device's memory, of which the buffer is the part
-- from the address `buffer` on; `buffer_len` and `offset` are uint16_t.
pub record Ctx : Type 0 where
  pub mem : ℕ → ℕ
  pub buffer : ℕ
  pub buffer_len : ℕ
  pub offset : ℕ

-- What a call answers. `fault` is no answer of the C code: it accessed an array out of its bounds.
pub data Outcome {ℓ} (A : Type ℓ) : Type ℓ where
  ok : A → Ctx → Outcome A
  err : ParserError → Outcome A
  fault : Outcome A

abbrev pub Reader {ℓ} : Type ℓ → Type ℓ
Reader A = Ctx → Outcome A

abbrev pub and_then {ℓ κ} : {A : Type ℓ} {B : Type κ} → Outcome A → (A → Reader B) → Outcome B
and_then (ok a c) f = f a c
and_then (err e) f = err e
and_then fault f = fault

unfoldable pub pure {ℓ} : {A : Type ℓ} → A → Reader A
pure a c = ok a c

unfoldable pub fail {ℓ} : {A : Type ℓ} → ParserError → Reader A
fail e c = err e

infixl 5 ◌>>=◌ ◌>>◌
unfoldable pub ◌>>=◌ {ℓ κ} : {A : Type ℓ} {B : Type κ} → Reader A → (A → Reader B) → Reader B
◌>>=◌ m f c = and_then (m c) f

abbrev pub ◌>>◌ {ℓ} : {B : Type ℓ} → Reader (Unit {0}) → Reader B → Reader B
m >> k = m >>= λ _. k

-- `if (bad) { return e; }`
abbrev pub reject_if : Bool → ParserError → Reader (Unit {0})
reject_if bad e = if bad then fail e else pure tt

-- A uint8_t of the memory.
abbrev pub load : (ℕ → ℕ) → ℕ → ℕ
load mem p = mem p % 256

-- The n bytes from the address p on.
unfoldable pub slice : (ℕ → ℕ) → ℕ → ℕ → List ℕ
slice mem p zero = []
slice mem p (suc n) = load mem p ∷ slice mem (p + 1) n

-- The little-endian number of n bytes, as MEMCPY into a uint16_t, uint32_t or uint64_t makes it.
unfoldable pub load_le : (ℕ → ℕ) → ℕ → ℕ → ℕ
load_le mem p zero = 0
load_le mem p (suc n) = load mem p + 256 * load_le mem (p + 1) n

-- A pointer: into the memory that holds the transaction, or to the bytes_hash of the extra data
-- section with a number.
pub data Ptr : Type 0 where
  null : Ptr
  buf : ℕ → Ptr
  hash_of : ℕ → Ptr

-- bytes_t. `content` is what the pointer shows: nothing writes there while a transaction is parsed.
pub record Bytes : Type 0 where
  pub ptr : Ptr
  pub len : ℕ
  pub content : List ℕ

-- after MEMZERO
abbrev pub no_bytes : Bytes
no_bytes = record { ptr = null; len = 0; content = [] }

-- `ctx->offset += n`, on a uint16_t
abbrev pub advance : ℕ → Ctx → Ctx
advance n c = record c { offset = (c.offset + n) % 2 ^ 16 }

unfoldable pub skip : ℕ → Reader (Unit {0})
skip n c = ok tt (advance n c)

unfoldable pub get_offset : Reader ℕ
get_offset c = ok c.offset c

-- `ctx->buffer + ctx->offset`
unfoldable pub position : Reader Ptr
position c = ok (buf (c.buffer + c.offset)) c

-- `if (ctx->offset >= ctx->bufferLen) { return e; }` before `*(ctx->buffer + ctx->offset)`
unfoldable pub peek : ParserError → Reader ℕ
peek e c = if leb c.buffer_len c.offset then err e else ok (load c.mem (c.buffer + c.offset)) c

-- CTX_CHECK_AND_ADVANCE
unfoldable pub check_and_advance : ℕ → Reader (Unit {0})
check_and_advance n c =
    if ltb c.buffer_len (c.offset + n) then err unexpected_buffer_end else ok tt (advance n c)

unfoldable pub read_byte : Reader ℕ
read_byte c =
    if leb c.buffer_len c.offset
    then err unexpected_error
    else ok (load c.mem (c.buffer + c.offset)) (advance 1 c)

-- readUint16, readUint32 and readUint64 at n = 2, 4 and 8
unfoldable pub read_uint : ℕ → Reader ℕ
read_uint n c =
    if ltb c.buffer_len (c.offset + n)
    then err unexpected_error
    else ok (load_le c.mem (c.buffer + c.offset) n) (advance n c)

unfoldable pub read_uint16 : Reader ℕ
read_uint16 = read_uint 2

unfoldable pub read_uint32 : Reader ℕ
read_uint32 = read_uint 4

unfoldable pub read_uint64 : Reader ℕ
read_uint64 = read_uint 8

-- The length is a uint16_t parameter, so a wider argument is cut to 16 bits by the caller.
unfoldable pub read_bytes : ℕ → Reader Bytes
read_bytes n c =
    if ltb c.buffer_len (c.offset + n)
    then err unexpected_buffer_end
    else ok
        (record {
          ptr = buf (c.buffer + c.offset);
          len = n;
          content = slice c.mem (c.buffer + c.offset) n;
        })
        (advance n c)

unfoldable pub check_tag : ℕ → Reader (Unit {0})
check_tag expected = do tag ← read_byte; if tag == expected then pure tt else fail unexpected_value

-- `if (ctx.offset != ctx.bufferLen) { return parser_unexpected_characters; }`
unfoldable pub expect_end : ParserError → Reader (Unit {0})
expect_end e c = if c.offset == c.buffer_len then ok tt c else err e

abbrev pub key_ed25519 : ℕ
key_ed25519 = 0

abbrev pub key_secp256k1 : ℕ
key_secp256k1 = 1

abbrev pub pk_len_25519 : ℕ
pk_len_25519 = 32

abbrev pub compressed_secp256k1_pk_len : ℕ
compressed_secp256k1_pk_len = 33

abbrev pub hash_len : ℕ
hash_len = 32

unfoldable pub read_pubkey : Reader Bytes
read_pubkey = do
  pk_type ← peek unexpected_buffer_end
  read_bytes (1 + (if pk_type == key_ed25519 then pk_len_25519 else compressed_secp256k1_pk_len))

-- A sub-context over a bytes_t: {.buffer = data->ptr, .bufferLen = data->len, .offset = 0}.
abbrev pub address_of : Ptr → ℕ
address_of (buf p) = p
address_of p = 0

abbrev pub open_bytes : (ℕ → ℕ) → Bytes → Ctx
open_bytes mem b = record { mem = mem; buffer = address_of b.ptr; buffer_len = b.len; offset = 0 }

-- isAllZeroes
unfoldable pub is_all_zeroes : List ℕ → Bool
is_all_zeroes [] = true
is_all_zeroes (x ∷ xs) = if x == 0 then is_all_zeroes xs else false
