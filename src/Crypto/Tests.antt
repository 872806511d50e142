-- ===== src/Crypto/Tests.antt =====
-- crypto_encodeAltAddress of app/src/crypto_helper.c on two ERC20 token addresses.
use ledger_namada.Common.{ℕ, ◌≡◌, refl, arith, replicate}
use ledger_namada.Reader.{buf, no_bytes}
use ledger_namada.Address.{AddressAlt}
use ledger_namada.Crypto.{address_payload, internal_body}
use ledger_namada.Crypto.Payload.{IsKnown, address_of, address_payload-injective}

-- They stand at different places, with the same 20 bytes.
abbrev erc20_at : ℕ → AddressAlt
erc20_at p = record {
  tag = 2;
  hash = no_bytes;
  internal = record { tag = 8; token = record { ptr = buf p; len = 20; content = replicate 20 5 } };
}

erc20_at-IsKnown : (p : ℕ) → IsKnown (erc20_at p)
erc20_at-IsKnown p = record {
  tag_ok = omega arith;
  hash_ok = λ l. absurd (omega arith);
  internal_ok = λ e. omega arith;
  token_ok = λ e t. refl;
}

same_payload : address_payload (erc20_at 1) ≡ address_payload (erc20_at 2)
unfolding address_payload internal_body
same_payload = refl

address_payload-injective_example : address_of (erc20_at 1) ≡ address_of (erc20_at 2)
address_payload-injective_example =
    address_payload-injective (erc20_at 1) (erc20_at 2) (erc20_at-IsKnown 1) (erc20_at-IsKnown 2)
      same_payload
