-- ===== src/Apdu.antt =====
-- The commands: app/src/apdu_handler.c, app/src/common/tx.c and the calls of app/src/common/actions.h.
-- The state of the app is explicit, and a command is a function from a state and the bytes of
-- G_io_apdu_buffer to the next state and an answer.
pub mod Upload
pub mod Handlers
pub mod Answers
pub mod Chunks
pub mod Invariant
pub mod Refinement
pub mod Whole
pub mod Session
pub mod Reachable
pub mod Restart
mod Tests
use Prim.Native.String.{String}
use ledger_namada.Common.{
  ℕ, ◌+◌, ◌*◌, ◌%◌, ◌^◌, Bool, Option, none, some, List, [], ◌∷◌, ◌&&◌, ◌||◌, ◌==◌,
}
use ledger_namada.Reader.{ParserError, load, load_le}
use ledger_namada.NvData.{NvData}
use ledger_namada.Transaction.{ParserTx}
use ledger_namada.Sdk.{Sdk}
use ledger_namada.Crypto.{hdpath_1_testnet, second}

-- What apdu_codes.h, app_main.h and buffering.h of ledger-zxlib define: places in the command, the
-- numbers of commands and answers, and the buffer of the upload, whose state is `Store`.
pub record Zxlib (Store : Type 0) : Type 0 where
  pub offset_cla : ℕ
  pub offset_ins : ℕ
  pub offset_p1 : ℕ
  pub offset_p2 : ℕ
  pub offset_payload_type : ℕ
  pub offset_data : ℕ
  pub apdu_min_length : ℕ
  pub io_apdu_buffer_size : ℕ
  pub p1_init : ℕ
  pub p1_add : ℕ
  pub p1_last : ℕ
  pub ins_get_version : ℕ
  pub ins_get_addr : ℕ
  pub ins_sign : ℕ
  pub code_ok : ℕ
  pub code_wrong_length : ℕ
  pub code_data_invalid : ℕ
  pub code_invalidp1p2 : ℕ
  pub code_tx_not_initialized : ℕ
  pub code_output_buffer_too_small : ℕ
  pub code_cla_not_supported : ℕ
  pub code_ins_not_supported : ℕ
  pub code_execution_error : ℕ
  pub code_sign_verify_error : ℕ
  pub code_command_not_allowed : ℕ
  -- the buffer after buffering_init and buffering_reset
  pub fresh : Store
  -- the bytes that were taken, next to the new state
  pub append : List ℕ → Store → Store × ℕ
  pub contents : Store → List ℕ

-- What the user is asked about, with what a confirmation answers.
pub data Review : Type 0 where
  idle : Review
  sign : Review
  sign_masp : Review
  show_response : List ℕ → Review

-- tx_initialized, hdPath, the upload, tx_obj, the stored values of nvdata.c, and the review.
pub record App (Store : Type 0) : Type 0 where
  pub tx_initialized : Bool
  pub hd_path : List ℕ
  pub store : Store
  pub tx_obj : Option ParserTx
  pub nv : NvData
  pub review : Review

-- G_io_apdu_buffer and the number of bytes received.
pub record Apdu : Type 0 where
  pub bytes : ℕ → ℕ
  pub rx : ℕ

-- What a command meets: the validated PIN, the expert mode, the memory behind the upload, the answers
-- of the random generator, the version, the rounds of computeDiversifier, and printTxnFields of
-- app/src/parser_impl.c, which shows an item or answers an error.
pub record Env : Type 0 where
  pub pin_validated : Bool
  pub code_pin : ℕ
  pub expert : Bool
  pub behind : ℕ → ℕ
  pub random : ℕ → List ℕ
  pub version : List ℕ
  pub fuel : ℕ
  pub print_item : ParserTx → ℕ → Option ParserError

-- What the handler of a command does: it throws a status, with the bytes that stand before it in the
-- answer, or leaves the answer to the review; or an access outside an array.
pub data Answer : Type 0 where
  thrown : List ℕ → ℕ → Answer
  asynch : Answer
  bad : Answer

abbrev pub hdpath_len_default : ℕ
hdpath_len_default = 5

abbrev pub hdpath_0_default : ℕ
hdpath_0_default = 0x8000002c

abbrev pub hdpath_1_default : ℕ
hdpath_1_default = 0x8000036d

abbrev pub first : List ℕ → ℕ
first (a ∷ rest) = a
first [] = 0

-- `mainnet || testnet` of extractHDPath
unfoldable pub is_allowed_path : List ℕ → Bool
is_allowed_path path =
    first path == hdpath_0_default && second path == hdpath_1_default
    || (first path == hdpath_0_default && second path == hdpath_1_testnet)

-- The five uint32_t from the offset p on.
abbrev pub path_at : (ℕ → ℕ) → ℕ → List ℕ
path_at bytes p =
    load_le bytes p 4
    ∷ load_le bytes (p + 4) 4
    ∷ load_le bytes (p + 8) 4
    ∷ load_le bytes (p + 12) 4
    ∷ load_le bytes (p + 16) 4
    ∷ []
