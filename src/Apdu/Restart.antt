-- ===== src/Apdu/Restart.antt =====
-- How an upload is started from a state of a session.
use ledger_namada.Common.{ℕ, ◌≡◌, true, false, List, ltb}
use ledger_namada.Reader.{load}
use ledger_namada.Sdk.{Sdk}
use ledger_namada.Apdu.{Zxlib, Apdu, Env}
use ledger_namada.Apdu.Handlers.{sign_transaction, ins_of}
use ledger_namada.Apdu.Refinement.{Upload, start, request}

module _ {Store : Type 0} (z : Zxlib Store) (sdk : Sdk) where
  -- A first chunk of INS_SIGN with an allowed path, on an unlocked device.
  pub record IsStart (env : Env) (a : Apdu) (path : List ℕ) : Type 0 where
    pub cla : load a.bytes z.offset_cla ≡ 0x57
    pub long : ltb a.rx z.apdu_min_length ≡ false
    pub ins : ins_of z (load a.bytes z.offset_ins) ≡ sign_transaction
    pub pin : env.pin_validated ≡ true
    pub asked : request z a ≡ start true path
