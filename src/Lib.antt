-- ===== src/Lib.antt =====
-- The commands, the transaction parser and the signatures of the Namada app for Ledger devices.
--
-- The app receives a transaction in chunks (app/src/apdu_handler.c, common/tx.c), parses it
-- (app/src/parser.c, parser_impl.c, parser_impl_txn.c, parser_impl_masp.c), shows what it says, and
-- signs it (app/src/crypto.c). parser_parse reads the header (readHeader),
-- the sections (readSections), and then, by the tag of the code section, the data of one of 22
-- transaction types (validateTransactionParams). For shielded transactions it makes random values
-- and signatures that the client fetches (app/src/nvdata.c).
--
-- Files:
--   Common         names, lists and tests shared by all; Common/Bits masks and `|=` as arithmetic
--   Bech32         bech32EncodeFromLargeBytes of app/src/bech32_encoding.c
--   Leb128         encodeLEB128 and decodeLEB128 of app/src/leb128.c
--   Reader         parser_context_t and the readers of app/src/parser_impl_common.c as a monad with
--                  the outcomes ok, err (a parser_error_t) and fault (an access outside an array);
--                  Reader/Safe says what memory safety of a reader is, Reader/Accepted what a run
--                  that succeeds went through
--   Address        app/src/parser_address.c
--   Crypto         section hashes and crypto_encodeAltAddress of app/src/crypto_helper.c
--   Txn            the reader of each transaction type: app/src/parser_impl_txn.c,
--                  txn_delegation.c, txn_validator.c
--   Header         readHeader
--   Masp           app/src/parser_impl_masp.c
--   Sections       the section readers and readSections
--   Transaction    readTransactionType, validateTransactionParams, _read, parser_parse;
--                  Transaction/Items is getNumItems of app/src/parser_impl.c
--   NvData         app/src/nvdata.c
--   Sdk            the SDK, the curve arithmetic of app/rust and BLAKE2, as one record
--   Signing        crypto_sign of app/src/crypto.c and the hashes it is over; Signing/Response builds
--                  the list of hashes and the response
--   TxHash         app/src/tx_hash.c and signhash.c
--   MaspKeys       the shielded keys: crypto_helper.c, computeKeys and crypto_fillMASP of crypto.c
--   MaspSign       checkSpends, checkOutputs, checkConverts, the spend signatures and the random values
--   KeyAddress     the response of the address command
--   Apdu           app/src/apdu_handler.c, common/tx.c and common/actions.h: the state of the app;
--                  Apdu/Upload is process_chunk, Apdu/Handlers every command, Apdu/Session what a
--                  confirmation or a rejection does, and the steps of a session; Apdu/Refinement has
--                  the upload as an abstract machine
--   Print          what the device shows: app/src/parser_print_txn.c, parser_print_common.c, and
--                  printRedelegate of txn_delegation.c. A print function answers an item, its key
--                  and the call that writes its value; Print/Masp is the shielded transfer with the
--                  indices that its printer keeps between calls, Print/Fields printTxnFields,
--                  Print/Text runs the calls over ledger-zxlib and has parser_getItem. Print/Items
--                  lists the items that a transaction is to show, Print/Joined is joinStrings,
--                  Print/Validate is parser_validate with all of these
--
-- How the code is modelled. The memory of the device is a function from addresses to bytes, and a
-- context is a start address, a length and an offset, the latter two uint16_t with their wrap-around
-- written out. A pointer that a reader stores is an address, kept with the bytes it shows. A reader
-- of a bytes_t opens a context of its own (in_bytes). Counters and lengths wrap as their C types do.
-- Loops run on a counter that the code has; encode_loop and decode_loop take ten rounds, which is
-- what a uint64_t needs and what the code allows.
--
-- computeDiversifier runs on fuel, since its end depends on app/rust: one round more than the number of
-- lists before the first one with a valid diversifier is enough. A session is a sequence of commands,
-- confirmations and rejections; while a review is open no command is taken (IO_ASYNCH_REPLY), and only
-- an open review is confirmed or rejected.
--
-- Parameters: SHA-256 and the bech32m encoder (the record Crypto.Library, with hdPath), the SDK, app/rust and
-- BLAKE2 (Sdk.Sdk), ledger-zxlib with its upload buffer, the places in a command and the status codes
-- (Apdu.Zxlib), and for each command what it meets (Apdu.Env): the PIN, the expert mode, the random
-- generator, the memory behind the upload, the version, and what printTxnFields answers for an item.
-- The formatting functions of ledger-zxlib are the record Print.Text.Format.
-- Apdu.Refinement.IsBuffering is what is relied on of the upload buffer.
--
-- Not modelled: the review of an address and of the keys (app/src/addr.c, review_keys.c), which
-- only fill the screen, crypto_serializeCodeHash and crypto_serializeData of crypto_helper.c, and
-- the copies of BLAKE2s and of picohash. NULL arguments that no caller passes are left out.
pub mod Common
pub mod Bech32
pub mod Print
pub mod Leb128
pub mod Reader
pub mod Address
pub mod Crypto
pub mod Txn
pub mod Header
pub mod Masp
pub mod Sections
pub mod Transaction
pub mod NvData
pub mod Sdk
pub mod Signing
pub mod TxHash
pub mod MaspKeys
pub mod MaspSign
pub mod KeyAddress
pub mod Apdu
