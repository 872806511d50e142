-- ===== src/Signing/Copied.antt =====
-- The hashes that crypto_addTxnHashes of app/src/crypto.c copies from the transaction's data.
use ledger_namada.Common.{
  ℕ, suc, ◌<◌, ◌≤◌, ◌≡◌, ◌≢◌, refl, sym, ap, ◌∙◌, arith, false, List, [], ◌∷◌, ◌++◌, length,
  length-append, append_assoc, leb,
}
use ledger_namada.Reader.{Bytes, Ptr, null, buf, hash_of}
use ledger_namada.Transaction.{TxData, of_init_account, of_update_vp, of_init_proposal}
use ledger_namada.Txn.Proposal.{ProposalBody, default_with_wasm}
use ledger_namada.Signing.{done}
use ledger_namada.Signing.Outcomes.{Outcomes, Outcomes-bind, Outcomes-done, Outcomes-map}
use ledger_namada.Signing.Response.{Entry, add_entry, add_read_entry, add_txn_hashes}
use ledger_namada.Signing.Entries.{append_nil}

-- The hash that the code copies is there.
abbrev pub HasBytes : Bytes → Type 0
HasBytes b = b.ptr ≢ null

abbrev pub HasCode : ProposalBody → Type 0
HasCode (default_with_wasm b) = HasBytes b
HasCode _ = Unit

-- The transaction's data names every hash that crypto_addTxnHashes copies. An UpdateVP without code
-- does not.
abbrev pub HasHashes : TxData → Type 0
HasHashes (of_init_account t) = HasBytes t.vp_type_sechash
HasHashes (of_update_vp t) = HasBytes t.vp_type_sechash
HasHashes (of_init_proposal t) = HasBytes t.content_sechash × HasCode t.body
HasHashes _ = Unit

-- The hashes that the data names, with the indices of their sections.
abbrev entry_of : ℕ → Bytes → Entry
entry_of idx b = record { idx = idx; hash = b.content }

abbrev named_code : ℕ → ProposalBody → List Entry
named_code idx (default_with_wasm b) = entry_of idx b ∷ []
named_code idx _ = []

abbrev pub named_entries : TxData → List Entry
named_entries (of_init_account t) = entry_of t.vp.vp_type_secidx t.vp_type_sechash ∷ []
named_entries (of_update_vp t) = entry_of t.vp.vp_type_secidx t.vp_type_sechash ∷ []
named_entries (of_init_proposal t) =
    entry_of t.links.content_secidx t.content_sechash
    ∷ named_code t.links.proposal_code_secidx t.body
named_entries _ = []

pub few_named : (t : TxData) → length (named_entries t) ≤ 2
few_named (of_init_account t) = omega arith
few_named (of_update_vp t) = omega arith
few_named (of_init_proposal t) = by_body t.body
  where
    by_body : (b : ProposalBody) → suc (length (named_code t.links.proposal_code_secidx b)) ≤ 2
    by_body (default_with_wasm b) = omega arith
    by_body _ = omega arith
few_named _ = omega arith

pub Outcomes-add_read_entry :
    (idx : ℕ) (b : Bytes) (es : List Entry)
    → HasBytes b
    → length es < 10
    → Outcomes ⊥ (λ fs. fs ≡ es ++ entry_of idx b ∷ []) (add_read_entry idx b es)
unfolding add_entry
Outcomes-add_read_entry idx b es h room = by_ptr b.ptr refl
  where
    not_full : (n : ℕ) → n < 10 → leb 10 n ≡ false
    not_full n l = ground arith

    added : Outcomes ⊥ (λ fs. fs ≡ es ++ entry_of idx b ∷ []) (add_entry idx b.content es)
    added = rw (not_full (length es) room) (Outcomes-done _ refl)

    by_ptr :
        (p : Ptr)
        → b.ptr ≡ p
        → Outcomes ⊥ (λ fs. fs ≡ es ++ entry_of idx b ∷ []) (add_read_entry idx b es)
    by_ptr null e = absurd (h e)
    by_ptr (buf a) e = rw e added
    by_ptr (hash_of i) e = rw e added

pub Outcomes-add_txn_hashes :
    (t : TxData) (es : List Entry)
    → HasHashes t
    → length es < 9
    → Outcomes ⊥ (λ fs. fs ≡ es ++ named_entries t) (add_txn_hashes t es)
unfolding add_txn_hashes
Outcomes-add_txn_hashes (of_init_account t) es h room =
    Outcomes-add_read_entry _ t.vp_type_sechash es h (omega arith)
Outcomes-add_txn_hashes (of_update_vp t) es h room =
    Outcomes-add_read_entry _ t.vp_type_sechash es h (omega arith)
Outcomes-add_txn_hashes (of_init_proposal t) es h room =
    Outcomes-bind _ _ (Outcomes-add_read_entry _ t.content_sechash es h.0 (omega arith))
      (λ fs e. by_body t.body fs h.1 e)
  where
    first : Entry
    first = entry_of t.links.content_secidx t.content_sechash

    by_body :
        (b : ProposalBody) (fs : List Entry)
        → HasCode b
        → fs ≡ es ++ first ∷ []
        → Outcomes ⊥
            (λ gs. gs ≡ es ++ first ∷ named_code t.links.proposal_code_secidx b)
            (elim b [
              | default_with_wasm c ↦ add_read_entry t.links.proposal_code_secidx c fs
              | _ ↦ done fs
            ])
    by_body (default_with_wasm c) fs k e =
        Outcomes-map _
          (Outcomes-add_read_entry _ c fs k
            (omega (arith, ap length e, length-append es (first ∷ []))))
          (λ gs g.
            g
            ∙ ap (λ l. l ++ entry_of t.links.proposal_code_secidx c ∷ []) e
            ∙ append_assoc es (first ∷ []) (entry_of t.links.proposal_code_secidx c ∷ []))
    by_body _ fs k e = Outcomes-done fs e
Outcomes-add_txn_hashes _ es h room = Outcomes-done es (sym (append_nil es))
