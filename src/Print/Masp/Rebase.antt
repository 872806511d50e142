-- ===== src/Print/Masp/Rebase.antt =====
-- The two rebases of the index in printMaspTransferTxn of app/src/parser_print_txn.c, case by case.
use ledger_namada.Common.{ℕ, suc, ◌+◌, ◌-◌, ◌*◌, ◌/◌, ◌%◌, ◌≤◌, ◌<◌, ◌≡◌, refl, arith}
use ledger_namada.Txn.Transfer.{Transfer}
use ledger_namada.Print.Masp.{Indices, n_items, passed_over, rebase_spends, rebase_outputs}

abbrev pub indices : ℕ → ℕ → Indices
indices s o = record { spend_index = s; out_index = o }

pub n_items_lem : (n : ℕ) → 1 ≤ n → n ≤ 70 → n_items n ≡ 3 * n
n_items_lem n h l = ground arith

pub passed_over-none : (n m : ℕ) (t : Transfer) (i : ℕ) → 1 ≤ n → 1 ≤ m → passed_over n m t i ≡ i
unfolding passed_over
passed_over-none n m t i h l = ground arith

-- An item of the spends, where the index is that of the item before.
pub rebase_spends-among :
    (n i o : ℕ)
    → 1 ≤ n
    → n ≤ 70
    → suc i ≤ 3 * n
    → rebase_spends (3 * n) 0 (suc i) (indices ((i - 1) / 3) o) ≡ (1 + i % 3, indices (i / 3) o)
unfolding rebase_spends
rebase_spends-among n i o h l k = ground arith

pub rebase_spends-first : (n : ℕ) → rebase_spends (3 * n) 0 0 (indices 0 0) ≡ (0, indices 0 0)
unfolding rebase_spends
rebase_spends-first n = ground arith

pub rebase_spends-behind :
    (n i s o : ℕ)
    → s < n
    → n ≤ 70
    → 3 * n < i
    → i < 240
    → rebase_spends (3 * n) 0 i (indices s o) ≡ (i + 3 - 3 * n, indices 0 o)
unfolding rebase_spends
rebase_spends-behind n i s o h l k g = ground arith

pub rebase_outputs-before :
    (n m orig j s o : ℕ)
    → 1 ≤ m
    → orig ≤ 3 * n
    → j ≤ 3
    → rebase_outputs (3 * n) (3 * m) 0 orig j (indices s o) ≡ (j, indices s o)
unfolding rebase_outputs
rebase_outputs-before n m orig j s o h l k = ground arith

pub rebase_outputs-one :
    (n orig k s o : ℕ) → rebase_outputs (3 * n) 3 0 orig k (indices s o) ≡ (k, indices s o)
unfolding rebase_outputs
rebase_outputs-one n orig k s o = refl

pub rebase_outputs-two :
    (n k s : ℕ)
    → 1 ≤ n
    → n ≤ 70
    → k < 6
    → rebase_outputs (3 * n) 6 0 (3 * n + 1 + k) (4 + k) (indices s ((k - 1) / 3))
      ≡ (4 + k % 3, indices s (k / 3))
unfolding rebase_outputs
rebase_outputs-two n k s h l g = ground arith
