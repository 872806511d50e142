-- ===== src/Txn/LinkedCode.antt =====
-- The loop over the extra data sections in readInitAccountTxn and readUpdateVPTxn of
-- app/src/parser_impl_txn.c.
use ledger_namada.Common.{ℕ, ◌≡◌, refl, Bool, true, false, Option, none, some, List, get_elem?}
use ledger_namada.Reader.{Bytes, fault, unexpected_error, pure}
use ledger_namada.Reader.Safe.{Yields, Yields-pure, Yields-fail}
use ledger_namada.Crypto.{Library, Section, hash_extra_data_section}
use ledger_namada.Txn.Linked.{VpLink, section_at, hash_or_error, read_vp_type}

present_or_fault :
    (o : Option Section) → Yields (λ s. o ≡ some s) (elim o [ none ↦ λ c. fault | some s ↦ pure s ])
present_or_fault none = record { result = λ c d a h. absurd cc }
present_or_fault (some s) = Yields-pure s refl

pub section_at-Yields :
    (extra : List Section) (i : ℕ) → Yields (λ s. get_elem? extra i ≡ some s) (section_at extra i)
section_at-Yields extra i = present_or_fault (get_elem? extra i)

pub hash_or_error-Yields : (o : Option (List ℕ)) → Yields (λ h. o ≡ some h) (hash_or_error o)
hash_or_error-Yields none = Yields-fail unexpected_error
hash_or_error-Yields (some h) = Yields-pure h refl

-- The link shows the index, the hash and the type of an extra data section with the hash `sechash`.
pub record IsLinked (lib : Library) (extra : List Section) (sechash : List ℕ) (link : VpLink)
    : Type 0 where
  pub index : ℕ
  pub section : Section
  pub present : get_elem? extra index ≡ some section
  pub hash_ok : hash_extra_data_section lib section ≡ some sechash
  pub secidx_ok : link.vp_type_secidx ≡ section.idx
  pub code_hash_ok : link.vp_type_hash.content ≡ section.bytes_hash
  pub text_ok : link.vp_type_text ≡ read_vp_type section.tag

module _ (lib : Library) (extra : List Section) (sechash : Bytes) where
  -- What is known where `found` is true.
  abbrev pub LinkedIf : Bool → VpLink → Type 0
  LinkedIf false link = Unit
  LinkedIf true link = IsLinked lib extra sechash.content link

  abbrev Linked : VpLink → Type 0
  Linked link = LinkedIf link.found_vp_code link
